-- ===== src/Md5/Base64.antt =====
-- src/file_manager/md5sum.c: the base 64 text of a sum, `init64`, `enc64` and `dec64`.
mod RoundTrip
mod Tests
use ccc_upgrade.Base.{
  ℕ, zero, suc, ◌+◌, ◌*◌, ◌/◌, ◌%◌, ◌^◌, bit_and, bit_or, List, [], ◌∷◌, leb, ◌==◌, if◌then◌else◌,
  get_or, set, replicate,
}
use ccc_upgrade.Base.Bytes.{Bytes, Run, ok, fault, ◌>>=◌}

-- The two tables: a character to its digit, and a digit to its character.
pub record Tables : Type 0 where
  pub t64d : List ℕ
  pub t64e : Bytes

-- A loop of `init64` from `c` on, `n` rounds of it, where `i` is the next digit.
abbrev fill : ℕ → ℕ → ℕ → Tables → Tables
fill zero c i t = t
fill (suc n) c i t =
    fill n (c + 1) (i + 1) (record t { t64e = set t.t64e i c; t64d = set t.t64d c i })

abbrev blank : Tables
blank = record { t64d = replicate 256 255; t64e = replicate 64 61 }

-- 'A' to 'Z', 'a' to 'z', '0' to '9', '+' and '/'.
abbrev pub init64 : Tables
init64 = fill 1 47 63 (fill 1 43 62 (fill 10 48 52 (fill 26 97 26 (fill 26 65 0 blank))))

unfoldable pub char_of : ℕ → ℕ
char_of k = get_or init64.t64e k 0

unfoldable pub digit_of : ℕ → ℕ
digit_of c = get_or init64.t64d c 0

-- `b24` of one to three bytes. An `unsigned long` has room for all.
unfoldable pub group : ℕ → ℕ → ℕ → ℕ
group b0 b1 b2 = bit_or (bit_or (b0 * 2 ^ 16) (b1 * 2 ^ 8)) b2

unfoldable pub group2 : ℕ → ℕ → ℕ
group2 b0 b1 = bit_or (b0 * 2 ^ 16) (b1 * 2 ^ 8)

-- The four digits of `b24`.
unfoldable pub digit0 : ℕ → ℕ
digit0 b24 = b24 / 2 ^ 18

unfoldable pub digit1 : ℕ → ℕ
digit1 b24 = bit_and (b24 / 2 ^ 12) 0x3F

unfoldable pub digit2 : ℕ → ℕ
digit2 b24 = bit_and (b24 / 2 ^ 6) 0x3F

unfoldable pub digit3 : ℕ → ℕ
digit3 b24 = bit_and b24 0x3F

abbrev pub equals_sign : ℕ
equals_sign = 61

-- `enc64` on `n` bytes at `in`: the text that it writes before the NUL, whose length it returns.
unfoldable pub enc64 : Bytes → Bytes
enc64 [] = equals_sign ∷ []
enc64 (b0 ∷ []) =
    char_of (digit0 (b0 * 2 ^ 16)) ∷ char_of (digit1 (b0 * 2 ^ 16)) ∷ equals_sign ∷ equals_sign ∷ []
enc64 (b0 ∷ b1 ∷ []) =
    char_of (digit0 (group2 b0 b1))
    ∷ char_of (digit1 (group2 b0 b1))
    ∷ char_of (digit2 (group2 b0 b1))
    ∷ equals_sign
    ∷ []
enc64 (b0 ∷ b1 ∷ b2 ∷ bytes) =
    char_of (digit0 (group b0 b1 b2))
    ∷ char_of (digit1 (group b0 b1 b2))
    ∷ char_of (digit2 (group b0 b1 b2))
    ∷ char_of (digit3 (group b0 b1 b2))
    ∷ enc64 bytes

-- The bytes of `b24` that a store into `*out` keeps.
abbrev pub byte0 : ℕ → ℕ
byte0 b24 = b24 / 2 ^ 16 % 2 ^ 8

abbrev pub byte1 : ℕ → ℕ
byte1 b24 = b24 / 2 ^ 8 % 2 ^ 8

abbrev pub byte2 : ℕ → ℕ
byte2 b24 = b24 % 2 ^ 8

-- The end of `dec64`, where `i` digits are waiting in `b24`.
unfoldable pub flush : ℕ → ℕ → Bytes
flush i b24 = if i == 2 then byte0 b24 ∷ [] else if i == 3 then byte0 b24 ∷ byte1 b24 ∷ [] else []

-- The loop of `dec64`: the bytes that it writes before the NUL, whose number it returns. A
-- `char` is one byte, without a sign on the device; what is none is out of the table of 256 digits.
unfoldable pub dec64_loop : ℕ → ℕ → Bytes → Run Bytes
dec64_loop i b24 [] = ok (flush i b24)
dec64_loop i b24 (ch ∷ text) =
    let c = digit_of ch in
    let skip : Run Bytes = dec64_loop i b24 text in
    let first : Run Bytes = dec64_loop 1 (c * 2 ^ 18) text in
    let second : Run Bytes = dec64_loop 2 (bit_or b24 (c * 2 ^ 12)) text in
    let third : Run Bytes = dec64_loop 3 (bit_or b24 (c * 2 ^ 6)) text in
    let full : ℕ = bit_or b24 c in
    let fourth : Run Bytes = dec64_loop 0 full text in
    if leb 256 ch
    then fault
    else if c == 255
    then skip
    else if i == 0
    then first
    else if i == 1
    then second
    else if i == 2
    then third
    else (do rest ← fourth; ok (byte0 full ∷ byte1 full ∷ byte2 full ∷ rest))

unfoldable pub dec64 : Bytes → Run Bytes
dec64 text = dec64_loop 0 0 text
