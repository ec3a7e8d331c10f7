-- ===== src/Md5.antt =====
-- src/file_manager/md5sum.c: the MD5 sum of a file. Words have 32 bits, with their wrap-around written
-- out. The small state is always allocated, and its `len` is that of the bytes so far.
pub mod Table
pub mod Message
pub mod Chunks
pub mod Base64
mod Tests
use ccc_upgrade.Base.{
  ℕ, zero, suc, ◌+◌, ◌-◌, ◌*◌, ◌/◌, ◌%◌, ◌^◌, bit_and, bit_or, bit_xor, not, ◌&&◌, Option, none,
  some, List, [], ◌∷◌, ◌++◌, ltb, ◌==◌, if◌then◌else◌, length, get_or, take, drop, replicate,
}
use ccc_upgrade.Base.Bytes.{Bytes, Run, ok, fault, ◌>>=◌, store, load}
use ccc_upgrade.Util.Os.{Os}
use ccc_upgrade.Md5.Table.{Row, tab}

abbrev pub not32 : ℕ → ℕ
not32 a = 2 ^ 32 - 1 - a

abbrev pub add32 : ℕ → ℕ → ℕ
add32 a b = (a + b) % 2 ^ 32

-- `(a << rot) | (a >> (32 - rot))`
abbrev pub rotate : ℕ → ℕ → ℕ
rotate a rot = bit_or (a * 2 ^ rot % 2 ^ 32) (a / 2 ^ (32 - rot))

-- `state` of `MD5state`
pub record Quad : Type 0 where
  pub a : ℕ
  pub b : ℕ
  pub c : ℕ
  pub d : ℕ

pub record Md5state : Type 0 where
  pub len : ℕ
  pub state : Quad

abbrev pub seed : Quad
seed = record { a = 0x67452301; b = 0xefcdab89; c = 0x98badcfe; d = 0x10325476 }

-- Least significant byte first.
abbrev pub word_bytes : ℕ → Bytes
word_bytes x = (x % 256) ∷ (x / 2 ^ 8 % 256) ∷ (x / 2 ^ 16 % 256) ∷ (x / 2 ^ 24 % 256) ∷ []

unfoldable pub encode : List ℕ → Bytes
encode [] = []
encode (x ∷ xs) = word_bytes x ++ encode xs

-- Bytes that do not fill a word do not occur.
abbrev pub decode : Bytes → List ℕ
decode [] = []
decode (b0 ∷ []) = []
decode (b0 ∷ b1 ∷ []) = []
decode (b0 ∷ b1 ∷ b2 ∷ []) = []
decode (b0 ∷ b1 ∷ b2 ∷ b3 ∷ bs) =
    bit_or (bit_or (bit_or b0 (b1 * 2 ^ 8)) (b2 * 2 ^ 16)) (b3 * 2 ^ 24) ∷ decode bs

-- The function of a round, `i >> 4`.
unfoldable pub mix : ℕ → Quad → ℕ
mix zero q = bit_or (bit_and q.b q.c) (bit_and (not32 q.b) q.d)
mix (suc zero) q = bit_or (bit_and q.b q.d) (bit_and q.c (not32 q.d))
mix (suc (suc zero)) q = bit_xor (bit_xor q.b q.c) q.d
mix (suc (suc (suc k))) q = bit_xor q.c (bit_or q.b (not32 q.d))

-- One of the 64 steps, and the rotation of the variables.
unfoldable pub md5_step : List ℕ → ℕ → Row → Quad → Quad
md5_step x i t q =
    let sum = add32 (add32 q.a (mix (i / 16) q)) (add32 (get_or x t.x 0) t.sin) in
    record { a = q.d; b = add32 (rotate sum t.rot) q.b; c = q.b; d = q.c }

unfoldable pub md5_steps : List ℕ → ℕ → List Row → Quad → Quad
md5_steps x i [] q = q
md5_steps x i (t ∷ rows) q = md5_steps x (i + 1) rows (md5_step x i t q)

abbrev pub add_quad : Quad → Quad → Quad
add_quad p q = record { a = add32 p.a q.a; b = add32 p.b q.b; c = add32 p.c q.c; d = add32 p.d q.d }

-- The body of the loop over blocks of 64 bytes.
unfoldable pub md5_block : Bytes → Quad → Quad
md5_block p q = add_quad q (md5_steps (decode p) 0 tab q)

-- The loop, with `k` blocks left.
unfoldable pub md5_blocks : ℕ → Bytes → Quad → Quad
md5_blocks zero p q = q
md5_blocks (suc k) p q = md5_blocks k (drop 64 p) (md5_block (take 64 p) q)

abbrev pub quad_words : Quad → List ℕ
quad_words q = q.a ∷ q.b ∷ q.c ∷ q.d ∷ []

abbrev pub started : Option Md5state → ℕ → Md5state
started none len = record { len = len % 2 ^ 32; state = seed }
started (some s) len = record s { len = (s.len + len) % 2 ^ 32 }

abbrev pub count_words : ℕ → List ℕ
count_words len = (len * 2 ^ 3 % 2 ^ 32) ∷ (len / 2 ^ 29) ∷ []

-- How far the padding goes, before the count.
unfoldable pub padding : ℕ → ℕ
padding i = if ltb i 56 then 56 - i else 120 - i

-- What a call of `md5` leaves: the buffer, the digest if it was the last one, and the state if not.
pub record Md5result : Type 0 where
  pub buf : Bytes
  pub digest : Option Bytes
  pub s : Option Md5state

-- `md5` on `len` bytes at the start of `p`: the last call is one of a length that is no multiple of 64,
-- or is 0.
unfoldable pub md5 : Bytes → ℕ → Option Md5state → Run Md5result
md5 p len s =
    let s' = started s len in
    let i = len % 64 in
    if i == 0 && not (len == 0)
    then (do
      input ← load len p
      let state = md5_blocks (len / 64) input s'.state
      ok (record { buf = p; digest = none; s = some (record s' { state = state }) }))
    else (do
      let pad = padding i
      p ← store len (0x80 ∷ replicate (pad - 1) 0) p
      p ← store (len + pad) (encode (count_words s'.len)) p
      input ← load (len + pad + 8) p
      let state = md5_blocks ((len + pad + 8) / 64) input s'.state
      ok (record { buf = p; digest = some (encode (quad_words state)); s = none }))

-- The loop of `sum` over what `fread` returns: `n` bytes are waiting in the buffer. The digest is that of
-- the last call.
unfoldable pub sum_loop : List Bytes → ℕ → Bytes → Option Md5state → Run (Option Bytes)
sum_loop [] n buf s = do result ← md5 buf n s; ok result.digest
sum_loop (chunk ∷ chunks) n buf s = do
  buf ← store n chunk buf
  let total = n + length chunk
  if total % 64 == 0
      then (do result ← md5 buf total s; sum_loop chunks 0 result.buf result.s)
      else sum_loop chunks total buf s

-- "%.2X"
abbrev pub hex_digit : ℕ → ℕ
hex_digit n = if ltb n 10 then 48 + n else 55 + n

abbrev pub hex_text : Bytes → Bytes
hex_text [] = []
hex_text (b ∷ bs) = hex_digit (b / 16) ∷ hex_digit (b % 16) ∷ hex_text bs

abbrev pub buffer_size : ℕ
buffer_size = 256 * 64

-- The array `digest` is printed, which the last call has filled.
abbrev pub print_digest : Option Bytes → Run Bytes
print_digest none = fault
print_digest (some bytes) = ok (hex_text bytes)

-- `sum`, in hexadecimal; the buffer is cleared at first.
unfoldable pub sum : List Bytes → Run Bytes
sum chunks = do digest ← sum_loop chunks 0 (replicate buffer_size 0) none; print_digest digest

module _ {W : Type 0} (os : Os W) where
  -- The text that is put into `sum_buffer`, which the callers give 255 bytes; none where 0 is returned.
  unfoldable pub calcu_md5_checksum : Option Bytes → W → Run (Option Bytes × W)
  calcu_md5_checksum none w = ok (none, w)
  calcu_md5_checksum (some filename) w =
      if length filename == 0
      then ok (none, w)
      else let (contents, w') = os.fopen_read filename w in
        elim contents [
          | none ↦ ok (none, w')
          | some chunks ↦ do text ← sum chunks; ok (some text, w')
        ]
