-- ===== src/Util/Words/Laws.antt =====
-- Words and their bytes: src/utils/util_func.c.
use ccc_upgrade.Base.{ℕ, ◌+◌, ◌*◌, ◌/◌, ◌%◌, ◌^◌, ◌<◌, ◌≡◌, ◌∷◌, ◌++◌, arith, ◌∙◌, ap, bit_or}
use ccc_upgrade.Base.Bits.{bit_or_disjoint}
use ccc_upgrade.Base.Int.{pos, signed32}
use ccc_upgrade.Base.Bytes.{Bytes}
use ccc_upgrade.Util.Words.{join_four, split_four}

-- The disjunction of the shifted bytes is their value in base 256.
pub join_four-sum :
    (a b c d : ℕ) (rest : Bytes)
    → b < 256
    → c < 256
    → d < 256
    → join_four (a ∷ b ∷ c ∷ d ∷ rest) ≡ a * 2 ^ 24 + b * 2 ^ 16 + c * 2 ^ 8 + d
unfolding join_four
join_four-sum a b c d rest hb hc hd = omega (arith, one, two, three)
  where
    one : bit_or (a * 2 ^ 24) (b * 2 ^ 16) ≡ a * 2 ^ 24 + b * 2 ^ 16
    one = bit_or_disjoint 24 a (b * 2 ^ 16) (omega arith)

    two :
        bit_or (bit_or (a * 2 ^ 24) (b * 2 ^ 16)) (c * 2 ^ 8) ≡ a * 2 ^ 24 + b * 2 ^ 16 + c * 2 ^ 8
    two =
        ap (λ t. bit_or t (c * 2 ^ 8)) (one ∙ omega arith)
        ∙ bit_or_disjoint 16 (a * 2 ^ 8 + b) (c * 2 ^ 8) (omega arith)
        ∙ omega arith

    three :
        bit_or (bit_or (bit_or (a * 2 ^ 24) (b * 2 ^ 16)) (c * 2 ^ 8)) d
        ≡ a * 2 ^ 24 + b * 2 ^ 16 + c * 2 ^ 8 + d
    three =
        ap (λ t. bit_or t d) (two ∙ omega arith)
        ∙ bit_or_disjoint 8 (a * 2 ^ 16 + b * 2 ^ 8 + c) d (omega arith)
        ∙ omega arith

-- Joining the bytes of a 32-bit pattern gives the pattern back.
pub join-split_four : (w : ℕ) (rest : Bytes) → w < 2 ^ 32 → join_four (split_four w ++ rest) ≡ w
join-split_four w rest h =
    join_four-sum (w / 2 ^ 24 % 256) (w / 2 ^ 16 % 256) (w / 2 ^ 8 % 256) (w % 256) rest
      (omega arith) (omega arith) (omega arith)
    ∙ omega arith

-- A word below 2 ^ 31 is read as itself.
pub signed32_small : (w : ℕ) → w < 2 ^ 31 → signed32 w ≡ pos w
signed32_small w h = ground arith
