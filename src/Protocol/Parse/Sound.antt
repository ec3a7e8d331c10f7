-- ===== src/Protocol/Parse/Sound.antt =====
-- `parse_packet2` enables a PDU only for a well-formed frame of the wire format.
use ccc_upgrade.Base.{
  ℕ, zero, suc, ◌+◌, ◌-◌, ◌/◌, ◌%◌, ◌^◌, ◌≤◌, ◌<◌, ◌≡◌, refl, sym, ap, ap₂, ◌∙◌, ◌≢◌, inl, inr,
  true, false, Option, some, [], ◌∷◌, ◌++◌, append_assoc, arith, ltb, leb, Bool-cases, Option-cases,
  length, get_or, take, drop, All, length-take, length-drop, drop-append_left, All-drop,
}
use ccc_upgrade.Base.Int.{ℤ, pos, negsuc, signed32}
use ccc_upgrade.Base.Bytes.{Bytes, IsByte, ok, store_at, split_block, >>=-eq-ok}
use ccc_upgrade.Util.Words.{split_four, join_four, four_bytes_to_int}
use ccc_upgrade.Util.Words.Laws.{join_four-sum}
use ccc_upgrade.Protocol.{
  Pdu, calcu_checksum, calcu_data_length, memchr, parse_checksum, parse_data, parse_header,
  parse_packet2,
}
use ccc_upgrade.Protocol.Frame.{sum, body, trailer, frame}
use ccc_upgrade.Protocol.Create.{calcu_checksum-sum}
use ccc_upgrade.Protocol.Parse.RoundTrip.{get_or-append}
use ccc_upgrade.Protocol.Parse.{memchr_split, parse_packet2-some, parse_packet2-none}

module _ (d : ℕ) (start : Bytes) (pdu : Pdu) {len : ℕ} {pdu' : Pdu} (off : pdu.b_enable ≡ false)
    (on : pdu'.b_enable ≡ true) where
  parse_checksum_inv :
      (n : ℕ)
      → parse_checksum d start n pdu ≡ ok (len, pdu')
      → (9 + n ≤ length start)
        × (calcu_checksum (some start) (pos (7 + n)) / 2 ^ 8 % 256 ≡ get_or start (7 + n) 0)
        × (calcu_checksum (some start) (pos (7 + n)) % 256 ≡ get_or start (8 + n) 0)
        × (len ≡ d + (9 + n))
        × (pdu'.cmd ≡ pdu.cmd)
        × (pdu'.cmd_ex ≡ pdu.cmd_ex)
        × (pdu'.data_len ≡ pdu.data_len)
        × (pdu'.block ≡ pdu.block)
  unfolding parse_checksum
  parse_checksum_inv n e = ground arith

parse_data_inv :
    (d : ℕ) (start : Bytes) (pdu : Pdu) {len : ℕ} {pdu' : Pdu} (z : ℤ)
    → pdu.b_enable ≡ false
    → pdu'.b_enable ≡ true
    → parse_data d start z pdu ≡ ok (len, pdu')
    → (n : ℕ) × (z ≡ pos n)
      × (n ≤ 0xFFFFF)
      × (block : Option Bytes) × (store_at 0 (take n (drop 7 start)) pdu.block ≡ ok block)
      × (parse_checksum d start n (record pdu { data_len = pos n; block = block }) ≡ ok (len, pdu'))
unfolding parse_data
parse_data_inv d start pdu (negsuc k) off on e = cc
parse_data_inv d start pdu (pos n) off on e = elim (Bool-cases (ltb 0xFFFFF n)) [
  | inl big ↦ ground arith
  | inr small ↦ elim (Bool-cases (leb (length start - 7) n)) [
    | inl wait ↦ ground arith
    | inr go ↦
        let e' = rw (small, go) at e in
        let (block, e1, e2) = >>=-eq-ok (store_at 0 (take n (drop 7 start)) pdu.block) _ e' in
        (n, refl, ground arith, block, e1, e2)
  ]
]

parse_header_inv :
    (d : ℕ) (start : Bytes) (pdu : Pdu) {len : ℕ} {pdu' : Pdu}
    → pdu.b_enable ≡ false
    → pdu'.b_enable ≡ true
    → parse_header d start pdu ≡ ok (len, pdu')
    → (8 ≤ length start)
      × (parse_data d start
            (calcu_data_length (some (drop 3 start)) (pos 4))
            (record pdu { cmd = get_or start 1 0; cmd_ex = get_or start 2 0 })
          ≡ ok (len, pdu'))
unfolding parse_header
parse_header_inv d start pdu off on e = ground arith

get_or-drop : (n i : ℕ) (xs : Bytes) → get_or (drop n xs) i 0 ≡ get_or xs (n + i) 0
get_or-drop zero i xs = ap (λ k. get_or xs k 0) (omega arith)
get_or-drop (suc n) i [] = refl
get_or-drop (suc n) i (x ∷ xs) =
    get_or-drop n i xs
    ∙ ap (λ k. get_or (x ∷ xs) k 0) {x = suc (n + i)} {y = suc n + i} (omega arith)

take_two : (xs : Bytes) → 2 ≤ length xs → take 2 xs ≡ get_or xs 0 0 ∷ get_or xs 1 0 ∷ []
take_two [] h = absurd (omega arith)
take_two (x ∷ []) h = absurd (omega arith)
take_two (x ∷ y ∷ xs) h = refl

signed32-pos : (w n : ℕ) → signed32 w ≡ pos n → w ≡ n
signed32-pos w n h = ground arith

-- The length field of an input of bytes holds the number that is read from it.
length_field :
    (a b c d n : ℕ) (rest : Bytes)
    → a < 256
    → b < 256
    → c < 256
    → d < 256
    → calcu_data_length (some (a ∷ b ∷ c ∷ d ∷ rest)) (pos 4) ≡ pos n
    → a ∷ b ∷ c ∷ d ∷ [] ≡ split_four n
unfolding calcu_data_length four_bytes_to_int
length_field a b c d n rest ha hb hc hd e = ground (
  arith,
  join_four-sum a b c d rest hb hc hd,
  signed32-pos (join_four (a ∷ b ∷ c ∷ d ∷ rest)) n e,
)

rebuild :
    (cmd cmd_ex n : ℕ) (len4 tail : Bytes)
    → len4 ≡ split_four n
    → n + 2 ≤ length tail
    → calcu_checksum (some (0x7e ∷ cmd ∷ cmd_ex ∷ (len4 ++ tail))) (pos (7 + n)) / 2 ^ 8 % 256
      ≡ get_or tail n 0
    → calcu_checksum (some (0x7e ∷ cmd ∷ cmd_ex ∷ (len4 ++ tail))) (pos (7 + n)) % 256
      ≡ get_or tail (n + 1) 0
    → 0x7e ∷ cmd ∷ cmd_ex ∷ (len4 ++ tail) ≡ frame cmd cmd_ex (take n tail) ++ drop (n + 2) tail
rebuild cmd cmd_ex n len4 tail el room high low =
    whole
    ∙ ap (λ t. body cmd cmd_ex payload ++ (t ++ back)) checked
    ∙ sym (append_assoc (body cmd cmd_ex payload) (trailer (body cmd cmd_ex payload)) back)
  where
    payload : Bytes
    payload = take n tail

    back : Bytes
    back = drop (n + 2) tail

    sized : n ≡ length payload
    sized = omega (arith, length-take {0} n tail)

    whole :
        0x7e ∷ cmd ∷ cmd_ex ∷ (len4 ++ tail)
        ≡ body cmd cmd_ex payload ++ (take 2 (drop n tail) ++ back)
    whole =
        ap₂ (λ l t. 0x7e ∷ cmd ∷ cmd_ex ∷ (l ++ t)) (el ∙ ap split_four sized)
          (split_block n 2 tail)

    summed :
        calcu_checksum (some (0x7e ∷ cmd ∷ cmd_ex ∷ (len4 ++ tail))) (pos (7 + n))
        ≡ sum (body cmd cmd_ex payload) % 2 ^ 16
    summed =
        ap (λ t. calcu_checksum (some t) (pos (7 + n))) whole
        ∙ calcu_checksum-sum (body cmd cmd_ex payload) (take 2 (drop n tail) ++ back) (7 + n)
            (omega (arith, sized))

    first : get_or (drop n tail) 0 0 ≡ sum (body cmd cmd_ex payload) % 2 ^ 16 / 256
    first =
        get_or-drop n 0 tail
        ∙ ap (λ k. get_or tail k 0) {x = n + 0} {y = n} (omega arith)
        ∙ omega (arith, high, summed)

    second : get_or (drop n tail) 1 0 ≡ sum (body cmd cmd_ex payload) % 256
    second = get_or-drop n 1 tail ∙ omega (arith, low, summed)

    checked : take 2 (drop n tail) ≡ trailer (body cmd cmd_ex payload)
    checked =
        take_two (drop n tail) (omega (arith, length-drop {0} n tail))
        ∙ ap₂ (λ x y. x ∷ y ∷ []) first second

-- The input behind a header byte, taken apart.
start_frame :
    (d : ℕ) (start : Bytes) (pdu : Pdu) {len : ℕ} {pdu' : Pdu}
    → All IsByte start
    → pdu.b_enable ≡ false
    → pdu'.b_enable ≡ true
    → parse_header d (0x7e ∷ start) pdu ≡ ok (len, pdu')
    → (payload : Bytes) × (rest : Bytes) × (0x7e ∷ start
        ≡ frame pdu'.cmd pdu'.cmd_ex payload ++ rest)
      × (len ≡ d + (9 + length payload))
      × (pdu'.data_len ≡ pos (length payload))
      × (store_at 0 payload pdu.block ≡ ok pdu'.block)
start_frame d (cmd ∷ cmd_ex ∷ a ∷ b ∷ c ∷ e4 ∷ tail) pdu bytes off on e =
    let start : Bytes = 0x7e ∷ cmd ∷ cmd_ex ∷ a ∷ b ∷ c ∷ e4 ∷ tail in
    let (long, e1) = parse_header_inv d start pdu off on e in
    let (n, ez, small, block, es, e2) =
      parse_data_inv d start (record pdu { cmd = cmd; cmd_ex = cmd_ex }) _ off on e1 in
    let (room, high, low, el, ec, ex, ed, eb) =
      parse_checksum_inv d start
        (record pdu { cmd = cmd; cmd_ex = cmd_ex; data_len = pos n; block = block }) off on n e2 in
    let sized : length (take n tail) ≡ n = omega (arith, length-take {0} n tail) in
    let front : Bytes = 0x7e ∷ cmd ∷ cmd_ex ∷ a ∷ b ∷ c ∷ e4 ∷ [] in
    let length4 =
      length_field a b c e4 n tail (omega arith) (omega arith) (omega arith) (omega arith) ez in
    let built =
      rebuild cmd cmd_ex n (a ∷ b ∷ c ∷ e4 ∷ []) tail length4 (omega arith)
        (high ∙ get_or-append front tail n (7 + n) (omega arith))
        (low ∙ get_or-append front tail (n + 1) (8 + n) (omega arith)) in
    (
      take n tail,
      drop (n + 2) tail,
      built ∙ ap₂ (λ x y. frame x y (take n tail) ++ drop (n + 2) tail) (sym ec) (sym ex),
      omega arith,
      ed ∙ ap pos (sym sized),
      es ∙ ap ok (sym eb),
    )
start_frame d start pdu bytes off on e =
    absurd (omega (arith, (parse_header_inv d (0x7e ∷ start) pdu off on e).0))

-- If `parse_packet2` enables a PDU that was not enabled, then the input, which is made of bytes, is
-- the bytes before the first header byte, a frame of the wire format, and a rest; the length that
-- the call returns is that of the first two, and the PDU holds the command, the length and the
-- payload of this frame.
pub parse_packet2_sound :
    (in_buffer : Bytes) (pdu : Pdu) {len : ℕ} {pdu' : Pdu}
    → All IsByte in_buffer
    → pdu.b_enable ≡ false
    → pdu'.b_enable ≡ true
    → parse_packet2 in_buffer pdu ≡ ok (len, pdu')
    → (garbage : Bytes) × (payload : Bytes) × (rest : Bytes) × (in_buffer
        ≡ garbage ++ (frame pdu'.cmd pdu'.cmd_ex payload ++ rest))
      × All (λ b. b ≢ 0x7e) garbage
      × (len ≡ length garbage + (9 + length payload))
      × (pdu'.data_len ≡ pos (length payload))
      × (store_at 0 payload pdu.block ≡ ok pdu'.block)
parse_packet2_sound bs pdu bytes off on e = elim (Option-cases (memchr 0x7e bs)) [
  | inl nowhere ↦ cc (sym (parse_packet2-none pdu bs nowhere) ∙ e)
  | inr (i, found) ↦
      let (split, clean, inside) = memchr_split 0x7e bs i found in
      let at_header : drop i bs ≡ 0x7e ∷ drop (suc i) bs =
        ap (drop i) split
        ∙ drop-append_left (take i bs) (0x7e ∷ drop (suc i) bs) i
            (omega (arith, length-take {0} i bs)) in
      let parsed =
        ap (λ t. parse_header i t pdu) (sym at_header)
        ∙ sym (parse_packet2-some pdu bs i found)
        ∙ e in
      let (payload, rest, es, el, ed, eb) =
        start_frame i (drop (suc i) bs) pdu (All-drop IsByte (suc i) bs bytes) off on parsed in
      (
        take i bs,
        payload,
        rest,
        split ∙ ap (λ t. take i bs ++ t) es,
        clean,
        omega (arith, el, length-take {0} i bs),
        ed,
        eb,
      )
]
