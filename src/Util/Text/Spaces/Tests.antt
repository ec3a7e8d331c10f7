-- ===== src/Util/Text/Spaces/Tests.antt =====
-- Strings with leading spaces.
use ccc_upgrade.Base.{ℕ, ◌≤◌, ◌<◌, ◌≡◌, refl, ◌⊎◌, some, ◌++◌, arith, replicate}
use ccc_upgrade.Base.Bytes.{Bytes, codes, ok, fault}
use ccc_upgrade.Util.Text.Spaces.{
  space, behind_spaces, strcpy_down, trim_left_space, trim_left_space_lem,
}

short_lem : trim_left_space (some (codes "    ab")) ≡ ok (some (codes "ab"))
unfolding trim_left_space behind_spaces strcpy_down
short_lem = refl

trim_left_space_lem_example :
    let text : Bytes = replicate 1 space ++ codes "ab" in
    ((◌≡◌ {A = ℕ} 1 0) × (trim_left_space (some text) ≡ ok (some text)))
    ⊎ ((2 < 1) × (trim_left_space (some text) ≡ ok (some (codes "ab"))))
    ⊎ ((0 < 1) × (1 ≤ 2) × (trim_left_space (some text) ≡ fault))
trim_left_space_lem_example = trim_left_space_lem 1 (codes "ab") (λ e. omega arith)
