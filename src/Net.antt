-- ===== src/Net.antt =====
-- src/network/tcp_socket.c and udp_socket.c: sending a buffer piece by piece.
pub mod Setup
pub mod Async
pub mod Keeps
mod Tests
use ccc_upgrade.Base.{
  ℕ, zero, suc, ◌+◌, ◌-◌, ◌≤◌, ◌≡◌, refl, sym, ap, ◌∙◌, ◌⊎◌, inl, inr, Bool, true, false, not, ◌||◌,
  Option, none, some, [], ◌∷◌, ◌++◌, append-nil, append_assoc, arith, ◌==◌, if◌then◌else◌,
  Bool-cases, length, take, drop, length-drop, take_all,
}
use ccc_upgrade.Base.Bytes.{Bytes}
use ccc_upgrade.Base.Int.{ℤ, pos, negsuc}
use ccc_upgrade.Client.{is_positive}

-- `send`, or `sendto` to a fixed address, is given the bytes that are left and returns how many it took;
-- 0 or less is an error. Each call takes a byte at least, so their number is enough fuel.
module _ {W : Type 0} (send : Bytes → W → ℤ × W) where
  pub send_loop : ℕ → Bytes → W → Bool × W
  send_loop zero left w = (true, w)
  send_loop (suc fuel) [] w = (true, w)
  send_loop (suc fuel) (b ∷ bs) w =
      let (ret, w') = send (b ∷ bs) w in
      elim ret [
        | negsuc n ↦ (false, w')
        | pos n ↦ elim n [ zero ↦ (false, w') | suc k ↦ send_loop fuel (drop (suc k) (b ∷ bs)) w' ]
      ]

  -- The buffer is the view of `data_len` bytes, NULL as `none`.
  pub send_buffer : ℤ → Option Bytes → W → Bool × W
  send_buffer sock none w = (false, w)
  send_buffer sock (some buffer) w =
      if not (is_positive sock) || length buffer == 0
      then (false, w)
      else send_loop (length buffer) buffer w

-- `tcp_send` and `udp_sendto` differ in the call of the system.
pub tcp_send : {W : Type 0} → (ℤ → Bytes → W → ℤ × W) → ℤ → Option Bytes → W → Bool × W
tcp_send send sock = send_buffer (send sock) sock

pub udp_sendto : {W : Type 0} → (ℤ → ℤ → Bytes → W → ℤ × W) → ℤ → ℤ → Option Bytes → W → Bool × W
udp_sendto sendto sock dst_addr = send_buffer (sendto sock dst_addr) sock

ℤ-cases : (z : ℤ) → ((n : ℕ) × (z ≡ negsuc n)) ⊎ ((z ≡ pos 0) ⊎ ((n : ℕ) × (z ≡ pos (suc n))))
ℤ-cases (negsuc n) = inl (n, refl)
ℤ-cases (pos zero) = inr (inl refl)
ℤ-cases (pos (suc n)) = inr (inr (n, refl))

pub take-take : (n k : ℕ) (xs : Bytes) → take n xs ++ take k (drop n xs) ≡ take (n + k) xs
take-take zero k xs = ap (λ j. take j xs) {x = k} {y = 0 + k} (omega arith)
take-take (suc n) k [] = take_all [] k (omega arith) ∙ sym (take_all [] (suc n + k) (omega arith))
take-take (suc n) k (x ∷ xs) =
    ap (λ t. x ∷ t) (take-take n k xs)
    ∙ ap (λ j. take j (x ∷ xs)) {x = suc (n + k)} {y = suc n + k} (omega arith)

-- The bytes that have gone out so far are a part of the state.
module _ {W : Type 0} (send : Bytes → W → ℤ × W) (sent : W → Bytes)
    (taken : (data_ : Bytes) (w : W) (n : ℕ)
      → (send data_ w).0 ≡ pos n
      → (n ≤ length data_) × (sent (send data_ w).1 ≡ sent w ++ take n data_))
    (refused : (data_ : Bytes) (w : W) (n : ℕ)
      → (send data_ w).0 ≡ negsuc n
      → sent (send data_ w).1 ≡ sent w) where
  send_loop_lem :
      (fuel : ℕ) (left : Bytes) (w : W)
      → length left ≤ fuel
      → (k : ℕ) × (k ≤ length left)
        × (sent (send_loop send fuel left w).1 ≡ sent w ++ take k left)
        × (((send_loop send fuel left w).0 ≡ false) ⊎ (k ≡ length left))
  unfolding send_loop
  send_loop_lem zero [] w h = (0, omega arith, sym (append-nil (sent w)), inr refl)
  send_loop_lem (suc fuel) [] w h = (0, omega arith, sym (append-nil (sent w)), inr refl)
  send_loop_lem zero (b ∷ bs) w h = absurd (omega arith)
  send_loop_lem (suc fuel) (b ∷ bs) w h = elim (ℤ-cases (send (b ∷ bs) w).0) [
    | inl (n, e) ↦ (
      0,
      omega arith,
      rw (send_loop, e) (refused (b ∷ bs) w n e ∙ sym (append-nil (sent w))),
      inl (rw (send_loop, e)),
    )
    | inr (inl e) ↦
        (0, omega arith, rw (send_loop, e) (taken (b ∷ bs) w 0 e).1, inl (rw (send_loop, e)))
    | inr (inr (n, e)) ↦
        let (within, front) = taken (b ∷ bs) w (suc n) e in
        let rest : Bytes = drop (suc n) (b ∷ bs) in
        let w' : W = (send (b ∷ bs) w).1 in
        let sized : length rest ≡ length (b ∷ bs) - suc n = length-drop (suc n) (b ∷ bs) in
        let (k, part, out, done) = send_loop_lem fuel rest w' (omega (arith, sized)) in
        (
          suc n + k,
          omega (arith, sized, within, part),
          rw (send_loop, e)
              (out
                ∙ ap (λ x. x ++ take k rest) front
                ∙ append_assoc (sent w) (take (suc n) (b ∷ bs)) (take k rest)
                ∙ ap (λ x. sent w ++ x) (take-take (suc n) k (b ∷ bs))),
          elim done [
            | inl failed ↦ inl (rw (send_loop, e) failed)
            | inr all ↦ inr (omega (arith, sized, within, all))
          ],
        )
  ]

  -- Whatever the pieces that the system takes, the bytes go out in order and none twice: where the result is
  -- 1, all of them have gone out, and where it is 0 a part from the front. It is assumed that `send`
  -- sends as many bytes from the front as it returns, at most all, and none when it fails.
  pub send_buffer-sent :
      (sock : ℤ) (buffer : Bytes) (w : W)
      → (k : ℕ) × (k ≤ length buffer)
        × (sent (send_buffer send sock (some buffer) w).1 ≡ sent w ++ take k buffer)
        × (((send_buffer send sock (some buffer) w).0 ≡ false) ⊎ (k ≡ length buffer))
  unfolding send_buffer
  send_buffer-sent sock buffer w =
      elim (Bool-cases (not (is_positive sock) || length buffer == 0)) [
        | inl e ↦ (0, omega arith, rw e (sym (append-nil (sent w))), inl (rw e))
        | inr e ↦ rw e (send_loop_lem (length buffer) buffer w (omega arith))
      ]
