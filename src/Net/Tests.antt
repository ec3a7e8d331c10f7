-- ===== src/Net/Tests.antt =====
-- A buffer that goes out two bytes at a time.
use ccc_upgrade.Base.{
  ℕ, ◌≤◌, ◌≡◌, refl, subst, ◌⊎◌, true, false, some, [], ◌∷◌, ◌++◌, arith, length, take,
}
use ccc_upgrade.Base.Bytes.{Bytes}
use ccc_upgrade.Base.Int.{ℤ, pos, negsuc}
use ccc_upgrade.Net.{send_loop, send_buffer, tcp_send, send_buffer-sent}

-- The state is what was sent.
abbrev two_at_a_time : Bytes → Bytes → ℤ × Bytes
two_at_a_time data_ w = (pos (length (take 2 data_)), w ++ take 2 data_)

send_three :
    tcp_send (λ sock. two_at_a_time) (pos 5) (some (1 ∷ 2 ∷ 3 ∷ [])) [] ≡ (true, 1 ∷ 2 ∷ 3 ∷ [])
unfolding tcp_send send_buffer send_loop
send_three = refl

pos_inv : {m n : ℕ} → pos m ≡ pos n → m ≡ n
pos_inv e = cc

two_taken :
    (data_ w : Bytes) (n : ℕ)
    → (two_at_a_time data_ w).0 ≡ pos n
    → (n ≤ length data_) × ((two_at_a_time data_ w).1 ≡ w ++ take n data_)
two_taken [] w n e =
    subst (λ k. (k ≤ 0) × (w ++ [] ≡ w ++ take k [])) (pos_inv e) (omega arith, refl)
two_taken (a ∷ []) w n e =
    subst (λ k. (k ≤ 1) × (w ++ (a ∷ []) ≡ w ++ take k (a ∷ []))) (pos_inv e) (omega arith, refl)
two_taken (a ∷ b ∷ bs) w n e =
    subst (λ k. (k ≤ length (a ∷ b ∷ bs)) × (w ++ (a ∷ b ∷ []) ≡ w ++ take k (a ∷ b ∷ bs)))
      (pos_inv e) (omega arith, refl)

two_refused :
    (data_ w : Bytes) (n : ℕ) → (two_at_a_time data_ w).0 ≡ negsuc n → (two_at_a_time data_ w).1 ≡ w
two_refused data_ w n e = cc

send_buffer-sent_example :
    (k : ℕ) × (k ≤ 3)
    × ((send_buffer two_at_a_time (pos 5) (some (1 ∷ 2 ∷ 3 ∷ [])) []).1
        ≡ [] ++ take k (1 ∷ 2 ∷ 3 ∷ []))
    × (((send_buffer two_at_a_time (pos 5) (some (1 ∷ 2 ∷ 3 ∷ [])) []).0 ≡ false) ⊎ (k ≡ 3))
send_buffer-sent_example =
    send_buffer-sent two_at_a_time (λ w. w) two_taken two_refused (pos 5) (1 ∷ 2 ∷ 3 ∷ []) []
