-- ===== src/Client/Receive.antt =====
-- The receive loop keeps the bytes that the callback has not used, in order and at the front.
use ccc_upgrade.Base.{
  drop-take, ℕ, zero, suc, ◌+◌, ◌-◌, ◌≤◌, ◌<◌, ◌≡◌, refl, sym, ap, ◌∙◌, ◌++◌, append_assoc, arith,
  le→leb, length, take, drop, length-append, length-take, length-drop, take-append_left,
}
use ccc_upgrade.Base.Int.{pos}
use ccc_upgrade.Base.Bytes.{
  load_fits, store_fits, Bytes, Run, ok, fault, store, load, store_short, store_within,
}
use ccc_upgrade.Client.{Receiver, keep_rest, receive_at, receive}

-- The bytes that wait in `main_buf`, `n` of them.
abbrev pub pending : ℕ → Receiver → Bytes
pending n r = take n r.main_buf

keep_rest_lem :
    (consume n : ℕ) (main_buf : Bytes)
    → consume + n ≤ length main_buf
    → (main_buf' : Bytes) × (keep_rest consume (pos n) main_buf ≡ ok main_buf')
      × (take n main_buf' ≡ take n (drop consume main_buf))
      × (length main_buf' ≡ length main_buf)
unfolding keep_rest
keep_rest_lem consume zero main_buf h = (main_buf, refl, refl, refl)
keep_rest_lem consume (suc n) main_buf h =
    let rest : Bytes = take (suc n) (drop consume main_buf) in
    let sized : length rest ≡ suc n =
      omega (
        arith,
        length-take {0} (suc n) (drop consume main_buf),
        length-drop {0} consume main_buf,
      ) in
    let loaded : load (suc n) (drop consume main_buf) ≡ ok rest =
      load_fits (suc n) (drop consume main_buf) (omega (arith, length-drop {0} consume main_buf)) in
    let stored = store_fits 0 rest main_buf (omega (arith, sized)) in
    (
      rest ++ drop (0 + length rest) main_buf,
      rw (loaded, stored),
      take-append_left rest (drop (0 + length rest) main_buf) (suc n) (sym sized),
      (store_within 0 rest main_buf stored).0,
    )

module _ {W : Type 0} (deliver : Bytes → W → Run (ℕ × W)) where
  -- A round of the receive loop that fits into `main_buf`: the callback sees the waiting bytes and
  -- behind them the new ones, and what it does not use is waiting afterwards.
  pub receive-pending :
      (chunk : Bytes) (r : Receiver) (w w' : W) (n consume : ℕ)
      → r.recv_len ≡ pos n
      → n + length chunk ≤ length r.main_buf
      → deliver (pending n r ++ chunk) w ≡ ok (consume, w')
      → consume ≤ n + length chunk
      → (r' : Receiver) × (receive deliver chunk r w ≡ ok (r', w'))
        × (r'.recv_len ≡ pos (n + length chunk - consume))
        × (pending (n + length chunk - consume) r' ≡ drop consume (pending n r ++ chunk))
        × (length r'.main_buf ≡ length r.main_buf)
  unfolding receive receive_at
  receive-pending chunk r w w' n consume en fits e used =
      let total : ℕ = n + length chunk in
      let seen : Bytes = pending n r ++ chunk in
      let back : Bytes = drop total r.main_buf in
      let buf : Bytes = pending n r ++ (chunk ++ back) in
      let stored : store n chunk r.main_buf ≡ ok buf = store_fits n chunk r.main_buf fits in
      let sized : length buf ≡ length r.main_buf = (store_within n chunk r.main_buf stored).0 in
      let view : take total buf ≡ seen =
        ap (take total) (sym (append_assoc (pending n r) chunk back))
        ∙ take-append_left seen back total
            (omega (arith, length-append {0} (pending n r) chunk, length-take {0} n r.main_buf)) in
      let loaded : load total buf ≡ ok seen =
        load_fits total buf (omega (arith, sized)) ∙ ap ok view in
      let (buf', kept, rest, same) =
        keep_rest_lem consume (total - consume) buf (omega (arith, sized)) in
      (
        record { main_buf = buf'; recv_len = pos (total - consume) },
        rw (en, stored, loaded, e, le→leb consume total used, kept),
        refl,
        rest
            ∙ sym (drop-take consume (total - consume) buf)
            ∙ ap (λ k. drop consume (take k buf)) {x = consume + (total - consume)} {y = total}
                (omega arith)
            ∙ ap (drop consume) view,
        same ∙ sized,
      )

  -- A chunk that does not fit behind the waiting bytes is copied over the end of `main_buf`.
  pub receive_overrun :
      (chunk : Bytes) (r : Receiver) (w : W) (n : ℕ)
      → r.recv_len ≡ pos n
      → length r.main_buf < n + length chunk
      → receive deliver chunk r w ≡ fault
  unfolding receive receive_at
  receive_overrun chunk r w n en over = rw (en, store_short n chunk r.main_buf over)
