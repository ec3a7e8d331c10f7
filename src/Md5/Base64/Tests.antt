-- ===== src/Md5/Base64/Tests.antt =====
-- Texts in base 64. `enc64` writes one more '=' than the usual form.
use ccc_upgrade.Base.{◌≡◌, refl, [], ◌∷◌, arith}
use ccc_upgrade.Base.Bytes.{codes, ok}
use ccc_upgrade.Md5.Base64.{
  char_of, digit_of, group, digit0, digit1, digit2, digit3, enc64, flush, dec64_loop, dec64,
}
use ccc_upgrade.Md5.Base64.RoundTrip.{dec64-enc64}

four_lem : enc64 (codes "Man!") ≡ codes "TWFuIQ=="
unfolding enc64 char_of group digit0 digit1 digit2 digit3
four_lem = refl

three_lem : enc64 (codes "Man") ≡ codes "TWFu="
unfolding enc64 char_of group digit0 digit1 digit2 digit3
three_lem = refl

dec_lem : dec64 (codes "TWFu IQ") ≡ ok (codes "Man!")
unfolding dec64 dec64_loop digit_of flush
dec_lem = refl

dec64-enc64_example : dec64 (enc64 (0 ∷ 255 ∷ 16 ∷ 131 ∷ [])) ≡ ok (0 ∷ 255 ∷ 16 ∷ 131 ∷ [])
dec64-enc64_example = dec64-enc64 (0 ∷ 255 ∷ 16 ∷ 131 ∷ []) (omega arith)
