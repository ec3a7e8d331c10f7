-- ===== src/Util/Text/Spaces.antt =====
-- src/utils/util_func.c: `trim_left_space`, which moves a string within its own block.
mod Tests
use ccc_upgrade.Base.{
  ℕ, zero, suc, ◌+◌, ◌-◌, ◌≤◌, ◌<◌, ◌≡◌, refl, ap, ◌∙◌, ◌≢◌, ◌⊎◌, inl, inr, false, Option, none,
  some, [], ◌∷◌, ◌++◌, arith, leb, ◌==◌, if◌then◌else◌, Bool-cases, length, replicate,
  length-append, length-replicate,
}
use ccc_upgrade.Base.Bytes.{Bytes, Run, ok, fault, ◌>>=◌}

abbrev pub space : ℕ
space = 0x20

-- Where the loop stops.
unfoldable pub behind_spaces : Bytes → Bytes
behind_spaces [] = []
behind_spaces (c ∷ cs) = if c == space then behind_spaces cs else c ∷ cs

-- `strcpy(srcstr, p)` with `p` behind `srcstr` by `gap`: undefined behaviour where the string with its
-- NUL is longer than the gap, so that the two overlap.
unfoldable pub strcpy_down : ℕ → Bytes → Run Bytes
strcpy_down gap rest = if leb gap (length rest) then fault else ok rest

-- The string that is left.
unfoldable pub trim_left_space : Option Bytes → Run (Option Bytes)
trim_left_space none = ok none
trim_left_space (some srcstr) =
    let rest = behind_spaces srcstr in
    let gap = length srcstr - length rest in
    if length srcstr == 0
    then ok (some srcstr)
    else if gap == 0
    then ok (some srcstr)
    else (do moved ← strcpy_down gap rest; ok (some moved))

-- A text of which no leading space can be taken.
abbrev pub StartsFull : Bytes → Type 0
StartsFull [] = Unit {0}
StartsFull (c ∷ cs) = c ≢ space

behind_spaces_lem :
    (gap : ℕ) (rest : Bytes) → StartsFull rest → behind_spaces (replicate gap space ++ rest) ≡ rest
unfolding behind_spaces
behind_spaces_lem zero [] h = refl
behind_spaces_lem zero (c ∷ cs) h = let other : (c == space) ≡ false = ground arith in rw other refl
behind_spaces_lem (suc gap) rest h = behind_spaces_lem gap rest h

-- A string of `gap` spaces and a rest that begins with none: without spaces nothing happens; with more
-- spaces than the rest has bytes the rest is left; and otherwise, as for one space before a word, the
-- copy overlaps with itself, which is undefined behaviour.
pub trim_left_space_lem :
    (gap : ℕ) (rest : Bytes)
    → StartsFull rest
    → let text : Bytes = replicate gap space ++ rest in
      ((gap ≡ 0) × (trim_left_space (some text) ≡ ok (some text)))
      ⊎ ((length rest < gap) × (trim_left_space (some text) ≡ ok (some rest)))
      ⊎ ((0 < gap) × (gap ≤ length rest) × (trim_left_space (some text) ≡ fault))
unfolding trim_left_space strcpy_down
trim_left_space_lem gap rest h =
    let text : Bytes = replicate gap space ++ rest in
    let stop = behind_spaces_lem gap rest h in
    let sized : length text ≡ gap + length rest =
      length-append (replicate gap space) rest
      ∙ ap (λ n. n + length rest) (length-replicate gap space) in
    elim (Bool-cases (leb gap 0)) [
      | inl zero_gap ↦ inl (ground arith, rw stop (ground arith))
      | inr some_gap ↦ elim (Bool-cases (leb gap (length rest))) [
        | inl over ↦ inr (inr (ground arith, ground arith, rw stop (ground arith)))
        | inr free ↦ inr (inl (ground arith, rw stop (ground arith)))
      ]
    ]
