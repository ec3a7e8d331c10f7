-- ===== src/Net/Async/Tests.antt =====
-- A socket that takes one byte at a time, and asks to wait before each.
use ccc_upgrade.Base.{
  ℕ, ◌≤◌, ◌<◌, ◌≡◌, refl, sym, ◌⊎◌, Bool, true, false, some, [], ◌∷◌, ◌++◌, append-nil, arith,
  length, take,
}
use ccc_upgrade.Base.Bytes.{Bytes}
use ccc_upgrade.Base.Int.{pos}
use ccc_upgrade.Net.Async.{Answer, took, again, failed, tcp_send_async}
use ccc_upgrade.Net.Async.Ends.{IsSend, tcp_send_async-ends}

-- What has gone out, and whether the next call asks to wait.
abbrev Line : Type 0
Line = Bytes × Bool

abbrev slow : Bytes → Line → Answer × Line
slow [] (out, busy) = (took 0, (out, busy))
slow (b ∷ bs) (out, true) = (again, (out, false))
slow (b ∷ bs) (out, false) = (took 1, (out ++ b ∷ [], true))

abbrev gone : Line → Bytes
gone (out, busy) = out

abbrev wait_left : Line → ℕ
wait_left (out, true) = 1
wait_left (out, false) = 0

slow_takes :
    (data_ : Bytes) (w : Line) (n : ℕ)
    → (slow data_ w).0 ≡ took n
    → (n ≤ length data_) × (gone (slow data_ w).1 ≡ gone w ++ take n data_)
slow_takes [] (out, busy) n e =
    let none_taken : n ≡ 0 = cc in rw none_taken (omega arith, sym (append-nil out))
slow_takes (b ∷ bs) (out, true) n e = cc
slow_takes (b ∷ bs) (out, false) n e =
    let one_taken : n ≡ 1 = cc in rw one_taken (omega arith, refl)

slow_waits :
    (data_ : Bytes) (w : Line)
    → (slow data_ w).0 ≡ again
    → (wait_left (slow data_ w).1 < wait_left w) × (gone (slow data_ w).1 ≡ gone w)
slow_waits [] (out, busy) e = cc
slow_waits (b ∷ bs) (out, true) e = (omega arith, refl)
slow_waits (b ∷ bs) (out, false) e = cc

slow_fails : (data_ : Bytes) (w : Line) → (slow data_ w).0 ≡ failed → gone (slow data_ w).1 ≡ gone w
slow_fails [] (out, busy) e = refl
slow_fails (b ∷ bs) (out, true) e = refl
slow_fails (b ∷ bs) (out, false) e = cc

slow_limited : (w : Line) → wait_left w ≤ 1
slow_limited (out, true) = omega arith
slow_limited (out, false) = omega arith

slow-IsSend : IsSend slow gone 1 wait_left
slow-IsSend = record {
  takes = slow_takes;
  waits = slow_waits;
  fails = slow_fails;
  limited = slow_limited;
}

tcp_send_async-ends_example :
    (done : Bool) × (w' : Line) × (count : ℕ) × (tcp_send_async slow 9
        (pos 5)
        (some (7 ∷ 8 ∷ 9 ∷ []))
        ([], true)
      ≡ some (done, w'))
    × (count ≤ 3)
    × (gone w' ≡ [] ++ take count (7 ∷ 8 ∷ 9 ∷ []))
    × ((done ≡ false) ⊎ (count ≡ 3))
tcp_send_async-ends_example =
    tcp_send_async-ends slow gone 1 wait_left slow-IsSend 9 (pos 5) (7 ∷ 8 ∷ 9 ∷ []) ([], true)
      (omega arith)
