-- ===== src/Net/Async.antt =====
-- src/network/tcp_socket.c: `tcp_send_async`, which tries again as long as the socket is not ready.
mod Ends
mod Tests
use ccc_upgrade.Base.{
  ℕ, zero, suc, Bool, true, false, not, ◌||◌, Option, none, some, [], ◌∷◌, ◌==◌, if◌then◌else◌,
  length, drop,
}
use ccc_upgrade.Base.Bytes.{Bytes}
use ccc_upgrade.Base.Int.{ℤ}
use ccc_upgrade.Client.{is_positive}

-- What `send` answers: how many bytes it took, that it would have to wait (`EAGAIN`), or an error.
pub data Answer : Type 0 where
  took : ℕ → Answer
  again failed : Answer

module _ {W : Type 0} (send : Bytes → W → Answer × W) where
  -- The loop on the bytes that are left; `none` is a loop that still runs after `fuel` rounds.
  unfoldable pub async_loop : ℕ → Bytes → W → Option (Bool × W)
  async_loop fuel [] w = some (true, w)
  async_loop zero (b ∷ bs) w = none
  async_loop (suc fuel) (b ∷ bs) w =
      let (answer, w') = send (b ∷ bs) w in
      elim answer [
        | failed ↦ some (false, w')
        | again ↦ async_loop fuel (b ∷ bs) w'
        | took n ↦ elim n [
          | zero ↦ some (false, w')
          | suc k ↦ async_loop fuel (drop (suc k) (b ∷ bs)) w'
        ]
      ]

  unfoldable pub tcp_send_async : ℕ → ℤ → Option Bytes → W → Option (Bool × W)
  tcp_send_async fuel sock none w = some (false, w)
  tcp_send_async fuel sock (some buffer) w =
      if not (is_positive sock) || length buffer == 0
      then some (false, w)
      else async_loop fuel buffer w
