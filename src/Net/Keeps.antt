-- ===== src/Net/Keeps.antt =====
-- What each call of the system keeps, the sending of a buffer keeps.
use ccc_upgrade.Base.{
  ℕ, zero, suc, not, ◌||◌, Option, none, some, [], ◌∷◌, ◌==◌, inl, inr, Bool-cases, length, drop,
}
use ccc_upgrade.Base.Bytes.{Bytes}
use ccc_upgrade.Base.Int.{ℤ}
use ccc_upgrade.Client.{is_positive}
use ccc_upgrade.Net.{ℤ-cases, send_loop, send_buffer, tcp_send}

module _ {W : Type 0} (P : W → Type 0) (send : Bytes → W → ℤ × W)
    (kept : (data_ : Bytes) (w : W) → P w → P (send data_ w).1) where
  send_loop-kept : (fuel : ℕ) (left : Bytes) (w : W) → P w → P (send_loop send fuel left w).1
  unfolding send_loop
  send_loop-kept zero left w h = h
  send_loop-kept (suc fuel) [] w h = h
  send_loop-kept (suc fuel) (b ∷ bs) w h =
      let h' = kept (b ∷ bs) w h in
      elim (ℤ-cases (send (b ∷ bs) w).0) [
        | inl (n, e) ↦ rw (send_loop, e) h'
        | inr (inl e) ↦ rw (send_loop, e) h'
        | inr (inr (k, e)) ↦
            rw (send_loop, e) (send_loop-kept fuel (drop (suc k) (b ∷ bs)) (send (b ∷ bs) w).1 h')
      ]

  send_buffer-kept :
      (sock : ℤ) (buffer : Option Bytes) (w : W) → P w → P (send_buffer send sock buffer w).1
  unfolding send_buffer
  send_buffer-kept sock none w h = h
  send_buffer-kept sock (some buffer) w h =
      elim (Bool-cases (not (is_positive sock) || length buffer == 0)) [
        | inl e ↦ rw (send_buffer, e) h
        | inr e ↦ rw (send_buffer, e) (send_loop-kept (length buffer) buffer w h)
      ]

pub tcp_send-kept :
    {W : Type 0} (P : W → Type 0) (send : ℤ → Bytes → W → ℤ × W)
    → ((sock : ℤ) (data_ : Bytes) (w : W) → P w → P (send sock data_ w).1)
    → (sock : ℤ) (buffer : Option Bytes) (w : W) → P w
    → P (tcp_send send sock buffer w).1
unfolding tcp_send
tcp_send-kept P send kept sock buffer w h =
    send_buffer-kept P (send sock) (kept sock) sock buffer w h
