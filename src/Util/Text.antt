-- ===== src/Util/Text.antt =====
-- src/utils/util_func.c: functions on C strings, which are lists of bytes without NUL, and directories.
pub mod Paths
pub mod Spaces
mod Tests
use ccc_upgrade.Base.{
  ℕ, zero, suc, ◌+◌, ◌-◌, Bool, true, false, ◌&&◌, ◌||◌, Option, none, some, [], ◌∷◌, ◌++◌, ltb,
  leb, ◌==◌, if◌then◌else◌, length, get_or, take,
}
use ccc_upgrade.Base.Bytes.{Bytes, Run, ok, ◌>>=◌, store}
use ccc_upgrade.Util.Os.{Os}

abbrev pub slash : ℕ
slash = 47

-- `strncasecmp(x, y, n) == 0`
abbrev pub lower : ℕ → ℕ
lower c = if leb 65 c && leb c 90 then c + 32 else c

unfoldable pub same_nocase : ℕ → Bytes → Bytes → Bool
same_nocase zero xs ys = true
same_nocase (suc n) [] [] = true
same_nocase (suc n) [] (y ∷ ys) = false
same_nocase (suc n) (x ∷ xs) [] = false
same_nocase (suc n) (x ∷ xs) (y ∷ ys) = lower x == lower y && same_nocase n xs ys

-- The result points into `srcstr`; it is the string from there on.
pub find_nocase : Bytes → Bytes → Option Bytes
find_nocase [] substr = none
find_nocase (c ∷ cs) substr =
    if same_nocase (length substr) (c ∷ cs) substr then some (c ∷ cs) else find_nocase cs substr

pub util_strcasestr : Option Bytes → Option Bytes → Option Bytes
util_strcasestr none substr = none
util_strcasestr (some srcstr) none = none
util_strcasestr (some srcstr) (some substr) =
    if length substr == 0 || length srcstr == 0 then none else find_nocase srcstr substr

-- `rindex(s, '/')`, and one further: what stands behind the last slash.
pub behind_slash : Bytes → Option Bytes
behind_slash [] = none
behind_slash (b ∷ bs) = elim (behind_slash bs) [
  | some title ↦ some title
  | none ↦ if b == slash then some bs else none
]

pub util_get_file_title : Option Bytes → Option Bytes
util_get_file_title none = none
util_get_file_title (some []) = none
util_get_file_title (some (b ∷ bs)) = elim (behind_slash (b ∷ bs)) [
  | none ↦ some (b ∷ bs)
  | some title ↦ some title
]

-- `size` bytes at `dest`; the string is closed behind its last byte.
pub util_strncpy : Option Bytes → Option Bytes → ℕ → Run (Option Bytes)
util_strncpy none srcstr size = ok none
util_strncpy (some dest) none size = ok (some dest)
util_strncpy (some dest) (some srcstr) size =
    if size == 0 || length srcstr == 0 then ok (some dest) else (do
      let len : ℕ = if ltb size (length srcstr) then size else length srcstr
      dest ← store 0 (take len srcstr) dest
      dest ← store len (0 ∷ []) dest
      ok (some dest))

abbrev pub ends_with_slash : Bytes → Bool
ends_with_slash s = get_or s (length s - 1) 0 == slash

abbrev pub with_slash : Bytes → Bytes
with_slash s = if ends_with_slash s then s else s ++ (slash ∷ [])

module _ {W : Type 0} (os : Os W) where
  -- A string of `size` bytes with its NUL, if there is memory for it.
  abbrev pub alloc : ℕ → Bytes → W → Option Bytes × W
  alloc size result w = let (got, w') = os.malloc size w in (if got then some result else none, w')

  pub util_strcpy : Option Bytes → W → Option Bytes × W
  util_strcpy none w = (none, w)
  util_strcpy (some srcstr) w =
      if length srcstr == 0 then (none, w) else alloc (length srcstr + 1) srcstr w

  pub util_strcat : Option Bytes → Option Bytes → W → Option Bytes × W
  util_strcat none srcstr2 w = (none, w)
  util_strcat (some srcstr1) none w = (none, w)
  util_strcat (some srcstr1) (some srcstr2) w =
      if length srcstr1 == 0 || length srcstr2 == 0
      then (none, w)
      else alloc (length srcstr1 + length srcstr2 + 1) (srcstr1 ++ srcstr2) w

  unfoldable pub util_dir_append : Option Bytes → Option Bytes → W → Option Bytes × W
  util_dir_append none newdir w = (none, w)
  util_dir_append (some srcdir) none w = (none, w)
  util_dir_append (some srcdir) (some newdir) w =
      if length srcdir == 0 || length newdir == 0
      then (none, w)
      else alloc (length srcdir + 1 + length newdir + 1) (with_slash srcdir ++ newdir) w

  abbrev pub util_file_is_exist : Bytes → W → Bool × W
  util_file_is_exist pathname w = os.access pathname w

  -- The body of the loop of `util_create_dir` at a slash.
  pub make_directory : Bytes → W → Bool × W
  make_directory path w =
      let (found, w') = os.access path w in if found then (true, w') else os.mkdir path w'

  pub visit : ℕ → Bytes → W → Bool × W
  visit k dirname w =
      if get_or dirname k 0 == slash then make_directory (take k dirname) w else (true, w)

  -- The rounds of the loop from `k` on, `n` of them.
  pub create_loop : ℕ → ℕ → Bytes → W → Bool × W
  create_loop zero k dirname w = (true, w)
  create_loop (suc n) k dirname w =
      let (made, w') = visit k dirname w in
      elim made [ false ↦ (false, w') | true ↦ create_loop n (k + 1) dirname w' ]

  pub util_create_dir : Option Bytes → W → Bool × W
  util_create_dir none w = (false, w)
  util_create_dir (some pathname) w =
      if length pathname == 0
      then (false, w)
      else let (got, w') = os.malloc (length pathname + 2) w in
        if got
        then create_loop (length (with_slash pathname) - 1) 1 (with_slash pathname) w'
        else (false, w')
