-- ===== src/Md5/Base64/RoundTrip.antt =====
-- The base 64 text of bytes is read back as these bytes.
use ccc_upgrade.Base.{
  ℕ, zero, suc, ◌+◌, ◌*◌, ◌/◌, ◌%◌, ◌^◌, ◌<◌, bit_or, ◌≡◌, refl, sym, ap, ap₂, ◌∙◌, Bool, true,
  ◌&&◌, [], ◌∷◌, arith, ltb, ◌==◌, All,
}
use ccc_upgrade.Base.Bytes.{Bytes, IsByte, ok, ◌>>=◌}
use ccc_upgrade.Base.Bits.{bit_or_disjoint, bit_and_63}
use ccc_upgrade.Md5.Base64.{
  byte2, byte1, dec64, byte0, flush, enc64, digit3, digit2, digit1, digit0, dec64_loop, group,
  group2, char_of, digit_of, equals_sign,
}

-- A test of all numbers below a bound.
every : (ℕ → Bool) → ℕ → Bool
every test zero = true
every test (suc n) = every test n && test n

every-lt : (test : ℕ → Bool) (n k : ℕ) → k < n → every test n ≡ true → test k ≡ true
unfolding every
every-lt test zero k below all = absurd (omega arith)
every-lt test (suc n) k below all = ground (arith, every-lt test n k)

-- A character of the text has its own digit, and it is no `char` with its top bit set.
abbrev is_own : ℕ → Bool
is_own k = digit_of (char_of k) == k && ltb (char_of k) 128

every_digit : every is_own 64 ≡ true
unfolding every digit_of char_of
every_digit = refl

digit_of-char_of : (k : ℕ) → k < 64 → (digit_of (char_of k) ≡ k) × (char_of k < 128)
digit_of-char_of k h = let own = every-lt is_own 64 k h every_digit in ground arith

end_lem : digit_of equals_sign ≡ 255
unfolding digit_of
end_lem = refl

-- One character is read, where `i` digits have come before.
read_first :
    (k b24 : ℕ) (text : Bytes)
    → k < 64
    → dec64_loop 0 b24 (char_of k ∷ text) ≡ dec64_loop 1 (k * 2 ^ 18) text
unfolding dec64_loop
read_first k b24 text h = let (own, low) = digit_of-char_of k h in rw own (ground arith)

read_second :
    (k b24 : ℕ) (text : Bytes)
    → k < 64
    → dec64_loop 1 b24 (char_of k ∷ text) ≡ dec64_loop 2 (bit_or b24 (k * 2 ^ 12)) text
unfolding dec64_loop
read_second k b24 text h = let (own, low) = digit_of-char_of k h in rw own (ground arith)

read_third :
    (k b24 : ℕ) (text : Bytes)
    → k < 64
    → dec64_loop 2 b24 (char_of k ∷ text) ≡ dec64_loop 3 (bit_or b24 (k * 2 ^ 6)) text
unfolding dec64_loop
read_third k b24 text h = let (own, low) = digit_of-char_of k h in rw own (ground arith)

read_fourth :
    (k b24 : ℕ) (text : Bytes)
    → k < 64
    → dec64_loop 3 b24 (char_of k ∷ text) ≡ (do
      rest ← dec64_loop 0 (bit_or b24 k) text
      ok (byte0 (bit_or b24 k) ∷ byte1 (bit_or b24 k) ∷ byte2 (bit_or b24 k) ∷ rest))
unfolding dec64_loop
read_fourth k b24 text h = let (own, low) = digit_of-char_of k h in rw own (ground arith)

skip_end :
    (i b24 : ℕ) (text : Bytes) → dec64_loop i b24 (equals_sign ∷ text) ≡ dec64_loop i b24 text
unfolding dec64_loop
skip_end i b24 text = rw end_lem refl

-- The digits so far, as one number.
join2 : (d0 d1 : ℕ) → d1 < 64 → bit_or (d0 * 2 ^ 18) (d1 * 2 ^ 12) ≡ (d0 * 64 + d1) * 2 ^ 12
join2 d0 d1 h = bit_or_disjoint 18 d0 (d1 * 2 ^ 12) (omega arith) ∙ omega arith

join3 :
    (d0 d1 d2 : ℕ)
    → d1 < 64
    → d2 < 64
    → bit_or (bit_or (d0 * 2 ^ 18) (d1 * 2 ^ 12)) (d2 * 2 ^ 6) ≡ ((d0 * 64 + d1) * 64 + d2) * 2 ^ 6
join3 d0 d1 d2 h1 h2 =
    ap (λ x. bit_or x (d2 * 2 ^ 6)) (join2 d0 d1 h1)
    ∙ bit_or_disjoint 12 (d0 * 64 + d1) (d2 * 2 ^ 6) (omega arith)
    ∙ omega arith

join4 :
    (d0 d1 d2 d3 : ℕ)
    → d1 < 64
    → d2 < 64
    → d3 < 64
    → bit_or (bit_or (bit_or (d0 * 2 ^ 18) (d1 * 2 ^ 12)) (d2 * 2 ^ 6)) d3
      ≡ ((d0 * 64 + d1) * 64 + d2) * 64 + d3
join4 d0 d1 d2 d3 h1 h2 h3 =
    ap (λ x. bit_or x d3) (join3 d0 d1 d2 h1 h2)
    ∙ bit_or_disjoint 6 ((d0 * 64 + d1) * 64 + d2) d3 (omega arith)
    ∙ omega arith

group2-eq : (b0 b1 : ℕ) → b1 < 256 → group2 b0 b1 ≡ (b0 * 256 + b1) * 2 ^ 8
unfolding group2
group2-eq b0 b1 h = bit_or_disjoint 16 b0 (b1 * 2 ^ 8) (omega arith) ∙ omega arith

group-eq : (b0 b1 b2 : ℕ) → b1 < 256 → b2 < 256 → group b0 b1 b2 ≡ (b0 * 256 + b1) * 256 + b2
unfolding group
group-eq b0 b1 b2 h1 h2 =
    ap (λ x. bit_or x b2) (bit_or_disjoint 16 b0 (b1 * 2 ^ 8) (omega arith) ∙ omega arith)
    ∙ bit_or_disjoint 8 (b0 * 256 + b1) b2 (omega arith)
    ∙ omega arith

-- The digits of 24 bits are below 64, and they are all of them.
record IsSplit (b24 : ℕ) : Type 0 where
  small0 : digit0 b24 < 64
  small1 : digit1 b24 < 64
  small2 : digit2 b24 < 64
  small3 : digit3 b24 < 64
  low : digit2 b24 * 64 + digit3 b24 ≡ b24 % 2 ^ 12
  lowest : digit3 b24 ≡ b24 % 2 ^ 6
  whole : b24 ≡ ((digit0 b24 * 64 + digit1 b24) * 64 + digit2 b24) * 64 + digit3 b24

split_lem : (b24 : ℕ) → b24 < 2 ^ 24 → IsSplit b24
unfolding digit0 digit1 digit2 digit3
split_lem b24 h =
    let e1 = bit_and_63 (b24 / 2 ^ 12) in
    let e2 = bit_and_63 (b24 / 2 ^ 6) in
    let e3 = bit_and_63 b24 in
    record {
      small0 = omega arith;
      small1 = omega arith;
      small2 = omega arith;
      small3 = omega arith;
      low = omega arith;
      lowest = omega arith;
      whole = omega arith;
    }

-- The end of the text, behind the digits of the last bytes.
dec64_end :
    (i b24 : ℕ) (text : Bytes) → text ≡ equals_sign ∷ [] → dec64_loop i b24 text ≡ ok (flush i b24)
unfolding dec64_loop
dec64_end i b24 text e = rw (e, end_lem) refl

no_byte : (b24 : ℕ) → dec64_loop 0 b24 (enc64 []) ≡ ok []
unfolding enc64 flush
no_byte b24 = dec64_end 0 b24 (equals_sign ∷ []) refl

one_byte : (b0 b24 : ℕ) → b0 < 256 → dec64_loop 0 b24 (enc64 (b0 ∷ [])) ≡ ok (b0 ∷ [])
unfolding enc64 flush
one_byte b0 b24 h =
    let g : ℕ = b0 * 2 ^ 16 in
    let d = split_lem g (omega arith) in
    let text : Bytes = equals_sign ∷ equals_sign ∷ [] in
    let joined : bit_or (digit0 g * 2 ^ 18) (digit1 g * 2 ^ 12) ≡ b0 * 2 ^ 16 =
      join2 (digit0 g) (digit1 g) d.small1 ∙ omega (arith, d.whole, d.low) in
    read_first (digit0 g) b24 (char_of (digit1 g) ∷ text) d.small0
    ∙ read_second (digit1 g) (digit0 g * 2 ^ 18) text d.small1
    ∙ ap (λ x. dec64_loop 2 x text) joined
    ∙ skip_end 2 g (equals_sign ∷ [])
    ∙ dec64_end 2 g (equals_sign ∷ []) refl
    ∙ ap (λ x. ok (x ∷ [])) {x = byte0 g} {y = b0} (omega arith)

two_bytes :
    (b0 b1 b24 : ℕ)
    → b0 < 256
    → b1 < 256
    → dec64_loop 0 b24 (enc64 (b0 ∷ b1 ∷ [])) ≡ ok (b0 ∷ b1 ∷ [])
unfolding enc64 flush
two_bytes b0 b1 b24 h0 h1 =
    let g : ℕ = group2 b0 b1 in
    let eg = group2-eq b0 b1 h1 in
    let d = split_lem g (omega (arith, eg)) in
    let text : Bytes = equals_sign ∷ [] in
    let b2 : ℕ = bit_or (digit0 g * 2 ^ 18) (digit1 g * 2 ^ 12) in
    let joined : bit_or b2 (digit2 g * 2 ^ 6) ≡ g =
      join3 (digit0 g) (digit1 g) (digit2 g) d.small1 d.small2
      ∙ omega (arith, d.whole, d.lowest, eg) in
    read_first (digit0 g) b24 (char_of (digit1 g) ∷ char_of (digit2 g) ∷ text) d.small0
    ∙ read_second (digit1 g) (digit0 g * 2 ^ 18) (char_of (digit2 g) ∷ text) d.small1
    ∙ read_third (digit2 g) b2 text d.small2
    ∙ ap (λ x. dec64_loop 3 x text) joined
    ∙ dec64_end 3 g text refl
    ∙ ap₂ (λ x y. ok (x ∷ y ∷ [])) {x = byte0 g} {y = b0} (omega (arith, eg)) (omega (arith, eg))

bytes_of :
    (b0 b1 b2 : ℕ) (bytes : Bytes)
    → b0 < 256
    → b1 < 256
    → b2 < 256
    → let b24 = (b0 * 256 + b1) * 256 + b2 in
      ◌≡◌ {A = Bytes} (byte0 b24 ∷ byte1 b24 ∷ byte2 b24 ∷ bytes) (b0 ∷ b1 ∷ b2 ∷ bytes)
bytes_of b0 b1 b2 bytes h0 h1 h2 =
    ap₂ (λ x xs. x ∷ xs) (omega arith) (ap₂ (λ x y. x ∷ y ∷ bytes) (omega arith) (omega arith))

three_bytes :
    (b0 b1 b2 b24 : ℕ) (bytes : Bytes)
    → b0 < 256
    → b1 < 256
    → b2 < 256
    → ((b : ℕ) → dec64_loop 0 b (enc64 bytes) ≡ ok bytes)
    → dec64_loop 0 b24 (enc64 (b0 ∷ b1 ∷ b2 ∷ bytes)) ≡ ok (b0 ∷ b1 ∷ b2 ∷ bytes)
unfolding enc64
three_bytes b0 b1 b2 b24 bytes h0 h1 h2 ih =
    let g : ℕ = group b0 b1 b2 in
    let eg = group-eq b0 b1 b2 h1 h2 in
    let d = split_lem g (omega (arith, eg)) in
    let c1 : ℕ = char_of (digit1 g) in
    let c2 : ℕ = char_of (digit2 g) in
    let c3 : ℕ = char_of (digit3 g) in
    let x1 : ℕ = digit0 g * 2 ^ 18 in
    let x2 : ℕ = bit_or x1 (digit1 g * 2 ^ 12) in
    let x3 : ℕ = bit_or x2 (digit2 g * 2 ^ 6) in
    let joined : bit_or x3 (digit3 g) ≡ (b0 * 256 + b1) * 256 + b2 =
      join4 (digit0 g) (digit1 g) (digit2 g) (digit3 g) d.small1 d.small2 d.small3
      ∙ sym d.whole
      ∙ eg in
    read_first (digit0 g) b24 (c1 ∷ c2 ∷ c3 ∷ enc64 bytes) d.small0
    ∙ read_second (digit1 g) x1 (c2 ∷ c3 ∷ enc64 bytes) d.small1
    ∙ read_third (digit2 g) x2 (c3 ∷ enc64 bytes) d.small2
    ∙ read_fourth (digit3 g) x3 (enc64 bytes) d.small3
    ∙ rw (ih (bit_or x3 (digit3 g)), joined) (ap ok (bytes_of b0 b1 b2 bytes h0 h1 h2))

dec64_loop-enc64 :
    (bytes : Bytes) (b24 : ℕ) → All IsByte bytes → dec64_loop 0 b24 (enc64 bytes) ≡ ok bytes
dec64_loop-enc64 [] b24 h = no_byte b24
dec64_loop-enc64 (b0 ∷ []) b24 h = one_byte b0 b24 h.0
dec64_loop-enc64 (b0 ∷ b1 ∷ []) b24 h = two_bytes b0 b1 b24 h.0 h.1.0
dec64_loop-enc64 (b0 ∷ b1 ∷ b2 ∷ bytes) b24 h =
    three_bytes b0 b1 b2 b24 bytes h.0 h.1.0 h.1.1.0 (λ b. dec64_loop-enc64 bytes b h.1.1.1)

-- What `enc64` writes for bytes, `dec64` reads back as these bytes, whatever their number; no index
-- into the table of digits is out of range.
pub dec64-enc64 : (bytes : Bytes) → All IsByte bytes → dec64 (enc64 bytes) ≡ ok bytes
unfolding dec64
dec64-enc64 bytes h = dec64_loop-enc64 bytes 0 h
