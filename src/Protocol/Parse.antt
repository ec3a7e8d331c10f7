-- ===== src/Protocol/Parse.antt =====
-- `parse_packet2` step by step: what each part of it returns once its tests are known.
pub mod RoundTrip
pub mod Sound
pub mod Safe
use ccc_upgrade.Base.{
  ℕ, zero, suc, ◌+◌, ◌-◌, ◌*◌, ◌/◌, ◌%◌, ◌^◌, ◌≤◌, ◌<◌, ◌≡◌, refl, ap, ◌∙◌, ◌≢◌, true, none, some,
  [], ◌∷◌, ◌++◌, arith, le→not_ltb, lt→not_leb, length, get_or, take, drop, All, length-take,
  length-drop,
}
use ccc_upgrade.Base.Int.{pos}
use ccc_upgrade.Base.Bytes.{Bytes, store_at_front, ok, store_at}
use ccc_upgrade.Protocol.{
  Pdu, calcu_checksum, calcu_data_length, memchr, parse_checksum, parse_data, parse_header,
  parse_packet2,
}

module _ (d : ℕ) (start : Bytes) (pdu : Pdu) where
  -- Nine bytes or more hold a header, commands and a length.
  pub parse_header-data :
      8 ≤ length start
      → parse_header d start pdu
        ≡ parse_data d start
            (calcu_data_length (some (drop 3 start)) (pos 4))
            (record pdu { cmd = get_or start 1 0; cmd_ex = get_or start 2 0 })
  unfolding parse_header
  parse_header-data h = rw (
    lt→not_leb (length start) 1 (omega arith),
    lt→not_leb (length start - 1) 2 (omega arith),
    lt→not_leb (length start - 3) 4 (omega arith),
  )

  pub parse_data-checksum :
      (n : ℕ) (block : Bytes)
      → n ≤ 0xFFFFF
      → 7 + n < length start
      → pdu.block ≡ some block
      → n ≤ length block
      → parse_data d start (pos n) pdu
        ≡ parse_checksum d start n
            (record pdu { data_len = pos n; block = some (take n (drop 7 start) ++ drop n block) })
  unfolding parse_data
  parse_data-checksum n block hn hs hb hl =
      let sized : length (take n (drop 7 start)) ≡ n =
        omega (arith, length-take {0} n (drop 7 start), length-drop {0} 7 start) in
      let stored : store_at 0 (take n (drop 7 start)) pdu.block
          ≡ ok (some (take n (drop 7 start) ++ drop n block)) =
        ap (store_at 0 (take n (drop 7 start))) hb
        ∙ store_at_front (take n (drop 7 start)) block (omega arith)
        ∙ ap (λ k. ok (some (take n (drop 7 start) ++ drop k block))) sized in
      rw (le→not_ltb 0xFFFFF n hn, lt→not_leb (length start - 7) n (omega arith), stored)

  pub parse_checksum-match :
      (n : ℕ)
      → 9 + n ≤ length start
      → calcu_checksum (some start) (pos (7 + n)) / 2 ^ 8 % 256 ≡ get_or start (7 + n) 0
      → calcu_checksum (some start) (pos (7 + n)) % 256 ≡ get_or start (8 + n) 0
      → parse_checksum d start n pdu
        ≡ ok (
          d + (9 + n),
          record pdu {
            checksum1 = get_or start (7 + n) 0;
            checksum2 = get_or start (8 + n) 0;
            b_enable = true;
          },
        )
  unfolding parse_checksum
  parse_checksum-match n h e1 e2 = ground arith

  pub parse_checksum-mismatch :
      (n : ℕ)
      → 9 + n ≤ length start
      → calcu_checksum (some start) (pos (7 + n)) % 2 ^ 16
        ≢ get_or start (7 + n) 0 * 256 + get_or start (8 + n) 0
      → parse_checksum d start n pdu
        ≡ ok (
          d + 1,
          record pdu {
            checksum1 = calcu_checksum (some start) (pos (7 + n)) / 2 ^ 8 % 256;
            checksum2 = calcu_checksum (some start) (pos (7 + n)) % 256;
          },
        )
  unfolding parse_checksum
  parse_checksum-mismatch n h ne = ground arith

-- The first header byte is behind the bytes that are not one.
pub memchr-append :
    (c : ℕ) (bs rest : Bytes) → All (λ b. b ≢ c) bs → memchr c (bs ++ c ∷ rest) ≡ some (length bs)
unfolding memchr
memchr-append c [] rest h = ground arith
memchr-append c (b ∷ bs) rest h = ground (arith, memchr-append c bs rest h.1, h.0)

pub memchr-none : (c : ℕ) (bs : Bytes) → All (λ b. b ≢ c) bs → memchr c bs ≡ none
unfolding memchr
memchr-none c [] h = refl
memchr-none c (b ∷ bs) h = ground (arith, memchr-none c bs h.1, h.0)

-- `memchr` splits its input at the first `c`.
pub memchr_split :
    (c : ℕ) (bs : Bytes) (i : ℕ)
    → memchr c bs ≡ some i
    → (bs ≡ take i bs ++ (c ∷ drop (suc i) bs)) × All (λ b. b ≢ c) (take i bs) × (i < length bs)
unfolding memchr
memchr_split c [] i h = cc
memchr_split c (b ∷ bs) zero h = ground arith
memchr_split c (b ∷ bs) (suc i) h = ground (arith, memchr_split c bs i)

pub parse_packet2-some :
    (pdu : Pdu) (bs : Bytes) (i : ℕ)
    → memchr 0x7e bs ≡ some i
    → parse_packet2 bs pdu ≡ parse_header i (drop i bs) pdu
unfolding parse_packet2
parse_packet2-some pdu [] i h = unfold memchr in cc
parse_packet2-some pdu (b ∷ bs) i h = rw (h, parse_packet2)

pub parse_packet2-none :
    (pdu : Pdu) (bs : Bytes) → memchr 0x7e bs ≡ none → parse_packet2 bs pdu ≡ ok (length bs, pdu)
unfolding parse_packet2
parse_packet2-none pdu [] h = refl
parse_packet2-none pdu (b ∷ bs) h = rw (h, parse_packet2)
