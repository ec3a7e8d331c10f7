-- ===== src/Md5/Tests.antt =====
-- Sums that are known, and a file that is read in two pieces.
use ccc_upgrade.Base.{◌≡◌, refl, [], ◌∷◌, arith}
use ccc_upgrade.Base.Bytes.{codes, ok, store, load}
use ccc_upgrade.Md5.{
  encode, padding, mix, md5_step, md5_steps, md5_block, md5_blocks, md5, sum_loop, sum, hex_text,
}
use ccc_upgrade.Md5.Message.{digest_of}
use ccc_upgrade.Md5.Chunks.{sum-digest}

abc_lem : sum ((97 ∷ 98 ∷ 99 ∷ []) ∷ []) ≡ ok (codes "900150983CD24FB0D6963F7D28E17F72")
unfolding sum sum_loop md5 md5_blocks md5_block md5_steps md5_step mix store load encode padding
abc_lem = refl

empty_lem : sum [] ≡ ok (codes "D41D8CD98F00B204E9800998ECF8427E")
unfolding sum sum_loop md5 md5_blocks md5_block md5_steps md5_step mix store load encode padding
empty_lem = refl

sum-digest_example :
    sum ((97 ∷ []) ∷ (98 ∷ 99 ∷ []) ∷ []) ≡ ok (hex_text (digest_of (97 ∷ 98 ∷ 99 ∷ [])))
sum-digest_example =
    sum-digest ((97 ∷ []) ∷ (98 ∷ 99 ∷ []) ∷ [])
      (omega arith, omega arith, (omega arith, omega arith, tt))
