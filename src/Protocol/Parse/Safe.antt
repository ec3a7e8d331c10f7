-- ===== src/Protocol/Parse/Safe.antt =====
-- What `parse_packet2` does to memory: the inputs on which it stays inside its buffers, and the ones
-- on which it does not.
use ccc_upgrade.Base.{
  ℕ, ◌+◌, ◌-◌, ◌^◌, ◌≤◌, ◌<◌, ◌≡◌, refl, sym, ap, ◌∙◌, ◌≢◌, inl, inr, Option, none, some, [], ◌∷◌,
  ◌++◌, arith, ltb, leb, le→not_ltb, lt→not_leb, Bool-cases, Option-cases, length, get_or, take,
  drop, All, length-take, length-drop, drop-append_left,
}
use ccc_upgrade.Base.Int.{ℤ, pos, negsuc}
use ccc_upgrade.Base.Bytes.{
  Bytes, Run, ok, fault, store, store_at, store_short, >>=-eq-ok, store_within,
}
use ccc_upgrade.Util.Words.{join_four, four_bytes_to_int}
use ccc_upgrade.Util.Words.Laws.{join_four-sum}
use ccc_upgrade.Protocol.{
  Pdu, calcu_data_length, memchr, parse_checksum, parse_data, parse_header, parse_packet2,
}
use ccc_upgrade.Protocol.Frame.{frame, body, trailer}
use ccc_upgrade.Protocol.Parse.{
  parse_header-data, memchr-append, memchr_split, parse_packet2-some, parse_packet2-none,
}
use ccc_upgrade.Protocol.Parse.RoundTrip.{calcu_data_length-split, length-frame-append}

-- The size of the block behind a pointer.
abbrev pub size : Option Bytes → ℕ
size none = 0
size (some block) = length block

pub store_at_size :
    (off : ℕ) (src : Bytes) (block : Option Bytes) {block' : Option Bytes}
    → store_at off src block ≡ ok block'
    → size block' ≡ size block
unfolding store_at
store_at_size off [] block e = ground arith
store_at_size off (b ∷ bs) none e = cc
store_at_size off (b ∷ bs) (some block) e =
    let (block1, e1, e2) = >>=-eq-ok (store off (b ∷ bs) block) _ e in
    ground (arith, store_within off (b ∷ bs) block e1)

-- What every defined return has in common: at most the whole input is used, and the PDU's block is
-- as large as before.
abbrev Bounded : ℕ → Pdu → Run (ℕ × Pdu) → Type 0
Bounded n pdu r =
    (len : ℕ) (pdu' : Pdu) → r ≡ ok (len, pdu') → (len ≤ n) × (size pdu'.block ≡ size pdu.block)

module _ (d : ℕ) (start : Bytes) (pdu : Pdu) where
  parse_checksum-Bounded :
      (n : ℕ) → 8 ≤ length start → Bounded (d + length start) pdu (parse_checksum d start n pdu)
  unfolding parse_checksum
  parse_checksum-Bounded n h len pdu' e = ground arith

parse_data-Bounded :
    (d : ℕ) (start : Bytes) (pdu : Pdu) (z : ℤ)
    → 8 ≤ length start
    → Bounded (d + length start) pdu (parse_data d start z pdu)
unfolding parse_data
parse_data-Bounded d start pdu (negsuc k) h len pdu' e = cc
parse_data-Bounded d start pdu (pos n) h len pdu' e = elim (Bool-cases (ltb 0xFFFFF n)) [
  | inl big ↦ ground arith
  | inr small ↦ elim (Bool-cases (leb (length start - 7) n)) [
    | inl wait ↦ ground arith
    | inr go ↦
        let e' = rw (small, go) at e in
        let (block, e1, e2) = >>=-eq-ok (store_at 0 (take n (drop 7 start)) pdu.block) _ e' in
        let (bound, same) =
          parse_checksum-Bounded d start (record pdu { data_len = pos n; block = block }) n h len
            pdu' e2 in
        (bound, same ∙ store_at_size 0 (take n (drop 7 start)) pdu.block e1)
  ]
]

pub parse_header-Bounded :
    (d : ℕ) (start : Bytes) (pdu : Pdu) → Bounded (d + length start) pdu (parse_header d start pdu)
unfolding parse_header
parse_header-Bounded d start pdu len pdu' e =
    let pdu1 : Pdu = record pdu { cmd = get_or start 1 0; cmd_ex = get_or start 2 0 } in
    let z = calcu_data_length (some (drop 3 start)) (pos 4) in
    ground (arith, λ (h : 8 ≤ length start). parse_data-Bounded d start pdu1 z h len pdu')

-- `parse_packet2` never claims more than it was given, and does not change the size of the PDU's
-- block.
pub parse_packet2-le :
    (in_buffer : Bytes) (pdu : Pdu) {len : ℕ} {pdu' : Pdu}
    → parse_packet2 in_buffer pdu ≡ ok (len, pdu')
    → (len ≤ length in_buffer) × (size pdu'.block ≡ size pdu.block)
parse_packet2-le bs pdu {len} {pdu'} e = elim (Option-cases (memchr 0x7e bs)) [
  | inl nowhere ↦ ground (arith, parse_packet2-none pdu bs nowhere)
  | inr (i, found) ↦
      let e' = sym (parse_packet2-some pdu bs i found) ∙ e in
      omega (
        arith,
        parse_header-Bounded i (drop i bs) pdu len pdu' e',
        length-drop {0} i bs,
        (memchr_split 0x7e bs i found).2,
      )
]

-- A length field with its top bit set, in an input of eight bytes or more from the header byte on,
-- is a negative `int`: it passes the test against 0xFFFFF and the wait for more data, and `memcpy`
-- is given a huge size.
pub parse_packet2_negative :
    (garbage rest : Bytes) (cmd cmd_ex a b c d x : ℕ) (pdu : Pdu)
    → All (λ y. y ≢ 0x7e) garbage
    → 128 ≤ a
    → a < 256
    → b < 256
    → c < 256
    → d < 256
    → parse_packet2 (garbage ++ (0x7e ∷ cmd ∷ cmd_ex ∷ a ∷ b ∷ c ∷ d ∷ x ∷ rest)) pdu ≡ fault
unfolding calcu_data_length four_bytes_to_int parse_data
parse_packet2_negative garbage rest cmd cmd_ex a b c d x pdu clean big ha hb hc hd =
    let start : Bytes = 0x7e ∷ cmd ∷ cmd_ex ∷ a ∷ b ∷ c ∷ d ∷ x ∷ rest in
    let value = join_four-sum a b c d (x ∷ rest) hb hc hd in
    parse_packet2-some pdu (garbage ++ start) (length garbage) (memchr-append 0x7e garbage _ clean)
    ∙ ap (λ t. parse_header (length garbage) t pdu)
        (drop-append_left garbage start (length garbage) refl)
    ∙ parse_header-data (length garbage) start pdu (omega arith)
    ∙ rw (le→not_ltb (join_four (a ∷ b ∷ c ∷ d ∷ x ∷ rest)) (2 ^ 31) (omega (arith, value)))

store_at_short :
    (src block : Bytes) → length block < length src → store_at 0 src (some block) ≡ fault
unfolding store_at
store_at_short [] block h = absurd (omega arith)
store_at_short (b ∷ bs) block h = rw (store_short 0 (b ∷ bs) block (omega arith))

parse_data_overrun :
    (d : ℕ) (start : Bytes) (pdu : Pdu) (n : ℕ) (block : Bytes)
    → n ≤ 0xFFFFF
    → 7 + n < length start
    → pdu.block ≡ some block
    → length block < n
    → parse_data d start (pos n) pdu ≡ fault
unfolding parse_data
parse_data_overrun d start pdu n block hn hs hb hl =
    let stored : store_at 0 (take n (drop 7 start)) pdu.block ≡ fault =
      ap (store_at 0 (take n (drop 7 start))) hb
      ∙ store_at_short (take n (drop 7 start)) block
          (omega (arith, length-take {0} n (drop 7 start), length-drop {0} 7 start)) in
    rw (le→not_ltb 0xFFFFF n hn, lt→not_leb (length start - 7) n (omega arith), stored)

-- A frame whose payload is larger than the PDU's block overruns the block: the length is only held
-- against 0xFFFFF.
pub parse_packet2_overrun :
    (cmd cmd_ex : ℕ) (garbage payload rest block : Bytes) (pdu : Pdu)
    → All (λ b. b ≢ 0x7e) garbage
    → length payload ≤ 0xFFFFF
    → pdu.block ≡ some block
    → length block < length payload
    → parse_packet2 (garbage ++ (frame cmd cmd_ex payload ++ rest)) pdu ≡ fault
parse_packet2_overrun cmd cmd_ex garbage payload rest block pdu clean small hb over =
    let start : Bytes = frame cmd cmd_ex payload ++ rest in
    parse_packet2-some pdu (garbage ++ start) (length garbage) (memchr-append 0x7e garbage _ clean)
    ∙ ap (λ t. parse_header (length garbage) t pdu)
        (drop-append_left garbage start (length garbage) refl)
    ∙ parse_header-data (length garbage) start pdu
        (omega (arith, length-frame-append cmd cmd_ex payload rest))
    ∙ ap (λ z. parse_data (length garbage) start z (record pdu { cmd = cmd; cmd_ex = cmd_ex }))
        (calcu_data_length-split (length payload)
          ((payload ++ trailer (body cmd cmd_ex payload)) ++ rest) (omega arith))
    ∙ parse_data_overrun (length garbage) start (record pdu { cmd = cmd; cmd_ex = cmd_ex })
        (length payload) block small (omega (arith, length-frame-append cmd cmd_ex payload rest)) hb
        over
