-- ===== src/Util/Words.antt =====
-- src/utils/util_func.c: four bytes, most significant first, as an unsigned or signed word.
pub mod Laws
use ccc_upgrade.Base.{
  ℕ, ◌*◌, ◌/◌, ◌%◌, ◌^◌, Option, none, some, [], ◌∷◌, get_or, bit_or, if◌then◌else◌,
}
use ccc_upgrade.Base.Int.{ℤ, pos, ltb_ℤ, signed32, pattern32}
use ccc_upgrade.Base.Bytes.{Bytes, Run, ok, ◌>>=◌, store}

-- `(data[0] << 24) | (data[1] << 16) | (data[2] << 8) | data[3]`, a 32-bit pattern.
unfoldable pub join_four : Bytes → ℕ
join_four data_ =
    bit_or
      (bit_or (bit_or (get_or data_ 0 0 * 2 ^ 24) (get_or data_ 1 0 * 2 ^ 16))
        (get_or data_ 2 0 * 2 ^ 8))
      (get_or data_ 3 0)

-- The callers pass a view of `size` bytes or more; NULL is `none`.
unfoldable pub four_bytes_to_uint : Option Bytes → ℤ → ℕ
four_bytes_to_uint none data_len = 0
four_bytes_to_uint (some data_) data_len = if ltb_ℤ data_len (pos 4) then 0 else join_four data_

unfoldable pub four_bytes_to_int : Option Bytes → ℤ → ℤ
four_bytes_to_int none size = pos 0
four_bytes_to_int (some data_) size =
    if ltb_ℤ size (pos 4) then pos 0 else signed32 (join_four data_)

-- The four bytes of a 32-bit pattern, most significant first.
abbrev pub split_four : ℕ → Bytes
split_four w = (w / 2 ^ 24 % 256) ∷ (w / 2 ^ 16 % 256) ∷ (w / 2 ^ 8 % 256) ∷ (w % 256) ∷ []

-- The status, and the buffer behind the call.
pub int_to_four_bytes : ℤ → Option Bytes → ℤ → Run (ℕ × Option Bytes)
int_to_four_bytes value none size = ok (0, none)
int_to_four_bytes value (some buffer) size =
    if ltb_ℤ size (pos 4)
    then ok (0, some buffer)
    else do buffer' ← store 0 (split_four (pattern32 value)) buffer; ok (1, some buffer')
