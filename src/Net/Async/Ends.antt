-- ===== src/Net/Async/Ends.antt =====
-- A socket that becomes ready again makes `tcp_send_async` end.
use ccc_upgrade.Base.{
  ℕ, zero, suc, ◌+◌, ◌-◌, ◌*◌, ◌≤◌, ◌<◌, ◌≡◌, refl, sym, ap, ◌∙◌, ◌⊎◌, inl, inr, Bool, true, false,
  not, ◌||◌, some, [], ◌∷◌, ◌++◌, append-nil, append_assoc, arith, ◌==◌, Bool-cases, length, take,
  drop, length-drop,
}
use ccc_upgrade.Base.Bytes.{Bytes}
use ccc_upgrade.Base.Int.{ℤ}
use ccc_upgrade.Client.{is_positive}
use ccc_upgrade.Net.{take-take}
use ccc_upgrade.Net.Async.{Answer, took, again, failed, async_loop, tcp_send_async}

Answer-cases :
    (a : Answer) → (a ≡ failed) ⊎ ((a ≡ again) ⊎ ((a ≡ took 0) ⊎ ((n : ℕ) × (a ≡ took (suc n)))))
Answer-cases failed = inl refl
Answer-cases again = inr (inl refl)
Answer-cases (took zero) = inr (inr (inl refl))
Answer-cases (took (suc n)) = inr (inr (inr (n, refl)))

-- What is assumed of `send`: it takes as many bytes from the front as it answers, at most all, and none
-- otherwise; and it asks to wait at most `limit` times in a row.
pub record IsSend {W : Type 0} (send : Bytes → W → Answer × W) (sent : W → Bytes) (limit : ℕ)
    (patience : W → ℕ) : Type 0 where
  pub takes :
      (data_ : Bytes) (w : W) (n : ℕ)
      → (send data_ w).0 ≡ took n
      → (n ≤ length data_) × (sent (send data_ w).1 ≡ sent w ++ take n data_)
  pub waits :
      (data_ : Bytes) (w : W)
      → (send data_ w).0 ≡ again
      → (patience (send data_ w).1 < patience w) × (sent (send data_ w).1 ≡ sent w)
  pub fails : (data_ : Bytes) (w : W) → (send data_ w).0 ≡ failed → sent (send data_ w).1 ≡ sent w
  pub limited : (w : W) → patience w ≤ limit

module _ {W : Type 0} (send : Bytes → W → Answer × W) (sent : W → Bytes) (limit : ℕ)
    (patience : W → ℕ) (fair : IsSend send sent limit patience) where
  -- A loop that ends, with what has gone out then.
  record Ends (fuel : ℕ) (left : Bytes) (w : W) : Type 0 where
    done : Bool
    end : W
    count : ℕ
    ends : async_loop send fuel left w ≡ some (done, end)
    within : count ≤ length left
    out : sent end ≡ sent w ++ take count left
    all : (done ≡ false) ⊎ (count ≡ length left)

  fuel_left :
      (m n len p fuel : ℕ)
      → len * (limit + 1) + p ≤ suc fuel
      → len ≡ m + suc n
      → (w : W) → m * (limit + 1) + patience w ≤ fuel
  fuel_left m n len p fuel h e w =
      let total : len * (limit + 1) ≡ (m + suc n) * (limit + 1) =
        ap (λ (t : ℕ). t * (limit + 1)) e in
      let small : patience w ≤ limit = fair.limited w in grind arith

  module _ (fuel b : ℕ) (bs : Bytes) (w : W)
      (enough : length (b ∷ bs) * (limit + 1) + patience w ≤ suc fuel) where
    stopped :
        async_loop send (suc fuel) (b ∷ bs) w ≡ some (false, (send (b ∷ bs) w).1)
        → sent (send (b ∷ bs) w).1 ≡ sent w
        → Ends (suc fuel) (b ∷ bs) w
    stopped e same = record {
      done = false;
      end = (send (b ∷ bs) w).1;
      count = 0;
      ends = e;
      within = omega arith;
      out = same ∙ sym (append-nil (sent w));
      all = inl refl;
    }

    waited :
        (send (b ∷ bs) w).0 ≡ again
        → Ends fuel (b ∷ bs) (send (b ∷ bs) w).1
        → Ends (suc fuel) (b ∷ bs) w
    unfolding async_loop
    waited e r = record {
      done = r.done;
      end = r.end;
      count = r.count;
      ends = rw (async_loop, e) r.ends;
      within = r.within;
      out = r.out ∙ ap (λ t. t ++ take r.count (b ∷ bs)) (fair.waits (b ∷ bs) w e).1;
      all = r.all;
    }

    moved :
        (n : ℕ)
        → (send (b ∷ bs) w).0 ≡ took (suc n)
        → Ends fuel (drop (suc n) (b ∷ bs)) (send (b ∷ bs) w).1
        → Ends (suc fuel) (b ∷ bs) w
    unfolding async_loop
    moved n e r =
        let (within, front) = fair.takes (b ∷ bs) w (suc n) e in
        let sized : length (drop (suc n) (b ∷ bs)) ≡ length (b ∷ bs) - suc n =
          length-drop (suc n) (b ∷ bs) in
        let part = r.within in
        record {
          done = r.done;
          end = r.end;
          count = suc n + r.count;
          ends = rw (async_loop, e) r.ends;
          within = omega arith;
          out =
              r.out
              ∙ ap (λ t. t ++ take r.count (drop (suc n) (b ∷ bs))) front
              ∙ append_assoc (sent w) (take (suc n) (b ∷ bs)) (take r.count (drop (suc n) (b ∷ bs)))
              ∙ ap (λ t. sent w ++ t) (take-take (suc n) r.count (b ∷ bs));
          all = elim r.all [ inl stop ↦ inl stop | inr whole ↦ inr (omega arith) ];
        }

  loop-Ends :
      (fuel : ℕ) (left : Bytes) (w : W)
      → length left * (limit + 1) + patience w ≤ fuel
      → Ends fuel left w
  unfolding async_loop
  loop-Ends fuel [] w h = record {
    done = true;
    end = w;
    count = 0;
    ends = refl;
    within = omega arith;
    out = sym (append-nil (sent w));
    all = inr refl;
  }
  loop-Ends zero (b ∷ bs) w h = absurd (grind arith)
  loop-Ends (suc fuel) (b ∷ bs) w h = elim (Answer-cases (send (b ∷ bs) w).0) [
    | inl e ↦ stopped fuel b bs w h (rw (async_loop, e)) (fair.fails (b ∷ bs) w e)
    | inr (inl e) ↦
        let (less, _) = fair.waits (b ∷ bs) w e in
        waited fuel b bs w h e (loop-Ends fuel (b ∷ bs) (send (b ∷ bs) w).1 (omega arith))
    | inr (inr (inl e)) ↦
        stopped fuel b bs w h (rw (async_loop, e))
          ((fair.takes (b ∷ bs) w 0 e).1 ∙ append-nil (sent w))
    | inr (inr (inr (n, e))) ↦
        let (within, _) = fair.takes (b ∷ bs) w (suc n) e in
        let rest : Bytes = drop (suc n) (b ∷ bs) in
        let sized : length rest ≡ length (b ∷ bs) - suc n = length-drop (suc n) (b ∷ bs) in
        moved fuel b bs w h n e (
          loop-Ends fuel rest (send (b ∷ bs) w).1 (
            fuel_left (length rest) n (length (b ∷ bs)) (patience w) fuel h (omega arith)
              (send (b ∷ bs) w).1))
  ]

  -- If the socket asks to wait at most `limit` times in a row, `tcp_send_async` ends after a number of
  -- rounds that the number of bytes and `limit` give: where the result is 1 all bytes have gone out in
  -- order and none twice, and where it is 0 a part from the front. It is assumed that `send` sends as
  -- many bytes from the front as it answers, at most all, and none when it fails or asks to wait.
  pub tcp_send_async-ends :
      (fuel : ℕ) (sock : ℤ) (buffer : Bytes) (w : W)
      → length buffer * (limit + 1) + limit ≤ fuel
      → (done : Bool) × (w' : W) × (count : ℕ) × (tcp_send_async send fuel sock (some buffer) w
          ≡ some (done, w'))
        × (count ≤ length buffer)
        × (sent w' ≡ sent w ++ take count buffer)
        × ((done ≡ false) ⊎ (count ≡ length buffer))
  unfolding tcp_send_async
  tcp_send_async-ends fuel sock buffer w h =
      let small : patience w ≤ limit = fair.limited w in
      let r = loop-Ends fuel buffer w (omega arith) in
      elim (Bool-cases (not (is_positive sock) || length buffer == 0)) [
        | inl refused ↦ (false, w, 0, rw refused, omega arith, sym (append-nil (sent w)), inl refl)
        | inr tried ↦ (r.done, r.end, r.count, rw tried r.ends, r.within, r.out, r.all)
      ]
