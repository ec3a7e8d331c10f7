-- ===== src/Md5/Message.antt =====
-- MD5 on a whole message, written down apart from the code that takes the message in pieces.
use ccc_upgrade.Base.{
  drop-append_within, take-append_within, ℕ, zero, suc, ◌+◌, ◌-◌, ◌*◌, ◌/◌, ◌%◌, ◌^◌, ◌≤◌, ◌<◌, ◌≡◌,
  refl, sym, ap, ap₂, ◌∙◌, List, [], ◌∷◌, ◌++◌, append_assoc, arith, ◌==◌, if◌then◌else◌, length,
  take, drop, replicate, length-append, length-replicate, length-drop,
}
use ccc_upgrade.Base.Bytes.{Bytes}
use ccc_upgrade.Md5.{Quad, seed, encode, quad_words, count_words, padding, md5_block, md5_blocks}

-- The padding and the count that go behind a message, and its digest.
abbrev pub pads : ℕ → Bytes
pads i = 0x80 ∷ replicate (padding i - 1) 0

abbrev pub trailer : ℕ → Bytes
trailer len = pads (len % 64) ++ encode (count_words (len % 2 ^ 32))

abbrev pub padded : Bytes → Bytes
padded message = message ++ trailer (length message)

abbrev pub digest_of : Bytes → Bytes
digest_of message =
    encode (quad_words (md5_blocks (length (padded message) / 64) (padded message) seed))

abbrev pub concat : List Bytes → Bytes
concat [] = []
concat (chunk ∷ chunks) = chunk ++ concat chunks

abbrev pub waiting : ℕ → ℕ
waiting total = if total % 64 == 0 then 0 else total

-- What `fread` may return when it is asked for the rest of 8192 bytes behind `n` waiting ones.
abbrev pub Reads : ℕ → List Bytes → Type 0
Reads n [] = Unit {0}
Reads n (chunk ∷ chunks) =
    (0 < length chunk) × (n + length chunk ≤ 8192) × Reads (waiting (n + length chunk)) chunks

pub padding_lem :
    (n : ℕ)
    → (1 ≤ padding (n % 64)) × (padding (n % 64) ≤ 64) × ((n + padding (n % 64) + 8) % 64 ≡ 0)
unfolding padding
padding_lem n = ground arith

pub length-pads : (n : ℕ) → length (pads (n % 64)) ≡ padding (n % 64)
length-pads n = omega (arith, (padding_lem n).0, length-replicate {0} (padding (n % 64) - 1) zero)

pub length-count : (len : ℕ) → length (encode (count_words len)) ≡ 8
unfolding encode
length-count len = refl

pub md5_blocks-append :
    (t j k : ℕ) (front back : Bytes) (q : Quad)
    → t ≡ j + k
    → length front ≡ j * 64
    → md5_blocks t (front ++ back) q ≡ md5_blocks k back (md5_blocks j front q)
unfolding md5_blocks
md5_blocks-append t zero k [] back q e h =
    ap (λ n. md5_blocks n back q) {x = t} {y = k} (omega arith)
md5_blocks-append t zero k (b ∷ front) back q e h = absurd (omega (arith, h))
md5_blocks-append zero (suc j) k front back q e h = absurd (omega (arith, e))
md5_blocks-append (suc t) (suc j) k front back q e h =
    let enough : 64 ≤ length front = omega (arith, h) in
    rw (take-append_within 64 front back enough, drop-append_within 64 front back enough)
      (md5_blocks-append t j k (drop 64 front) back (md5_block (take 64 front) q) (omega (arith, e))
        (omega (arith, h, length-drop {0} 64 front)))

-- The message and its padding are the bytes that the last call works on.
pub padded_split :
    (message rest : Bytes) (k : ℕ)
    → length message ≡ k * 64
    → padded (message ++ rest)
      ≡ message
        ++ ((rest ++ pads (length rest % 64))
            ++ encode (count_words ((length message + length rest) % 2 ^ 32)))
padded_split message rest k e =
    let n : ℕ = length rest in
    let joined : length (message ++ rest) ≡ length message + n = length-append message rest in
    let same : length (message ++ rest) % 64 ≡ n % 64 = omega (arith, joined, e) in
    let count : Bytes = encode (count_words ((length message + n) % 2 ^ 32)) in
    ap₂ (λ i l. (message ++ rest) ++ (pads i ++ encode (count_words (l % 2 ^ 32)))) same joined
    ∙ append_assoc message rest (pads (n % 64) ++ count)
    ∙ ap (λ b. message ++ b) (sym (append_assoc rest (pads (n % 64)) count))
