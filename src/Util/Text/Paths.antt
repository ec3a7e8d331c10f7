-- ===== src/Util/Text/Paths.antt =====
-- Paths: a file's title comes back from its path, and a directory is there after it was created.
use ccc_upgrade.Base.{
  false_is_true, ℕ, zero, suc, ◌+◌, ◌-◌, ◌≤◌, ◌<◌, ◌≡◌, refl, ap, subst, ◌∙◌, ◌≢◌, inl, inr, true,
  false, ◌||◌, none, some, [], ◌∷◌, ◌++◌, append_assoc, arith, ltb, ◌==◌, if◌then◌else◌, ==_iff,
  Bool-cases, length, get_or, take, drop, All, length-append, length-take,
}
use ccc_upgrade.Base.Bytes.{store_fits, Bytes, fault, store, store_short, store_within}
use ccc_upgrade.Util.Os.{Os}
use ccc_upgrade.Util.Text.{
  visit, slash, behind_slash, util_get_file_title, util_strncpy, with_slash, ends_with_slash,
  util_dir_append, make_directory, create_loop, util_create_dir,
}
use native.Mathlib.Decide.{dec_lt}

behind_slash-none : (title : Bytes) → All (λ b. b ≢ slash) title → behind_slash title ≡ none
unfolding behind_slash
behind_slash-none [] h = refl
behind_slash-none (b ∷ bs) h = rw (behind_slash-none bs h.1) (ground (arith, h.0))

behind_slash-append :
    (front title : Bytes)
    → All (λ b. b ≢ slash) title
    → behind_slash (front ++ (slash ∷ title)) ≡ some title
unfolding behind_slash
behind_slash-append [] title h = rw (behind_slash-none title h)
behind_slash-append (b ∷ front) title h = rw (behind_slash-append front title h)

split_last : (s : Bytes) (k : ℕ) → suc k ≡ length s → s ≡ take k s ++ (get_or s k 0 ∷ [])
split_last [] k e = absurd (omega (arith, e))
split_last (b ∷ []) zero e = refl
split_last (b ∷ []) (suc k) e = absurd (omega (arith, e))
split_last (b ∷ c ∷ bs) zero e = absurd (omega (arith, e))
split_last (b ∷ c ∷ bs) (suc k) e = ap (λ t. b ∷ t) (split_last (c ∷ bs) k (omega (arith, e)))

-- A directory with a slash is something and a slash.
with_slash_split :
    (dir : Bytes) → 0 < length dir → (front : Bytes) × (with_slash dir ≡ front ++ (slash ∷ []))
with_slash_split dir h = elim (Bool-cases (ends_with_slash dir)) [
  | inl e ↦ (
    take (length dir - 1) dir,
    rw e (
        split_last dir (length dir - 1) (omega arith)
        ∙ ap (λ b. take (length dir - 1) dir ++ (b ∷ [])) ((==_iff _ _).0 e)),
  )
  | inr e ↦ (dir, rw e)
]

title_of :
    (s title : Bytes)
    → 0 < length s
    → behind_slash s ≡ some title
    → util_get_file_title (some s) ≡ some title
unfolding util_get_file_title
title_of [] title h e = absurd (omega arith)
title_of (b ∷ bs) title h e = rw (e, util_get_file_title)

-- The path that is made of a directory and a title without slashes, where `malloc` delivers, has this
-- title as its file title again.
pub util_get_file_title-dir_append :
    {W : Type 0} (os : Os W) (dir title : Bytes) (w w1 : W)
    → 0 < length dir
    → 0 < length title
    → All (λ b. b ≢ slash) title
    → os.malloc (length dir + 1 + length title + 1) w ≡ (true, w1)
    → (path : Bytes) × (util_dir_append os (some dir) (some title) w ≡ (some path, w1))
      × (util_get_file_title (some path) ≡ some title)
unfolding util_dir_append
util_get_file_title-dir_append os dir title w w1 hd ht clean got =
    let (front, split) = with_slash_split dir hd in
    let path : Bytes = with_slash dir ++ title in
    let here : path ≡ front ++ (slash ∷ title) =
      ap (λ s. s ++ title) split ∙ append_assoc front (slash ∷ []) title in
    let no_dir : (length dir == 0) ≡ false = ground arith in
    let no_title : (length title == 0) ≡ false = ground arith in
    (
      path,
      rw (no_dir, no_title, got),
      title_of path title (omega (arith, length-append {0} (with_slash dir) title))
          (ap behind_slash here ∙ behind_slash-append front title clean),
    )

-- `util_strncpy` writes the NUL one byte behind a block of `size` bytes when the string is as long as the
-- block or longer.
pub util_strncpy_overrun :
    (dest srcstr : Bytes) (size : ℕ)
    → length dest ≡ size
    → 0 < size
    → size ≤ length srcstr
    → util_strncpy (some dest) (some srcstr) size ≡ fault
unfolding util_strncpy
util_strncpy_overrun dest srcstr size exact some_room long =
    let some_text : (size == 0 || length srcstr == 0) ≡ false = ground arith in
    let cut : (if ltb size (length srcstr) then size else length srcstr) ≡ size = ground arith in
    let text : Bytes = take size srcstr in
    let sized : length text ≡ size = omega (arith, length-take {0} size srcstr) in
    let stored = store_fits 0 text dest (omega (arith, sized)) in
    let block : Bytes = text ++ drop (0 + length text) dest in
    let over : store size (0 ∷ []) block ≡ fault =
      store_short size (0 ∷ []) block (omega (arith, (store_within 0 text dest stored).0)) in
    rw (some_text, cut, stored, over)

-- The files that are there.
module _ {W : Type 0} (os : Os W) (Exists : Bytes → W → Type 0)
    (access_found : (p : Bytes) (w : W) → (os.access p w).0 ≡ true → Exists p (os.access p w).1)
    (mkdir_made : (p : Bytes) (w : W) → (os.mkdir p w).0 ≡ true → Exists p (os.mkdir p w).1)
    (access_keeps : (p q : Bytes) (w : W) → Exists q w → Exists q (os.access p w).1)
    (mkdir_keeps : (p q : Bytes) (w : W) → Exists q w → Exists q (os.mkdir p w).1) where
  make_directory-Exists :
      (p : Bytes) (w : W) → (make_directory os p w).0 ≡ true → Exists p (make_directory os p w).1
  unfolding make_directory
  make_directory-Exists p w h = elim (Bool-cases (os.access p w).0) [
    | inl found ↦ rw found (access_found p w found)
    | inr missing ↦ rw missing (mkdir_made p (os.access p w).1 (rw missing at h))
  ]

  make_directory_keeps : (p q : Bytes) (w : W) → Exists q w → Exists q (make_directory os p w).1
  unfolding make_directory
  make_directory_keeps p q w h = elim (Bool-cases (os.access p w).0) [
    | inl found ↦ rw found (access_keeps p q w h)
    | inr missing ↦ rw missing (mkdir_keeps p q (os.access p w).1 (access_keeps p q w h))
  ]

  visit-Exists :
      (k : ℕ) (dirname : Bytes) (w : W)
      → get_or dirname k 0 ≡ slash
      → (visit os k dirname w).0 ≡ true
      → Exists (take k dirname) (visit os k dirname w).1
  unfolding visit
  visit-Exists k dirname w at h =
      let here : (get_or dirname k 0 == slash) ≡ true = (==_iff _ _).1 at in
      rw here (make_directory-Exists (take k dirname) w (rw here at h))

  visit_keeps : (k : ℕ) (dirname q : Bytes) (w : W) → Exists q w → Exists q (visit os k dirname w).1
  unfolding visit
  visit_keeps k dirname q w h = elim (Bool-cases (get_or dirname k 0 == slash)) [
    | inl e ↦ rw e (make_directory_keeps (take k dirname) q w h)
    | inr e ↦ rw e h
  ]

  create_loop_keeps :
      (n k : ℕ) (dirname q : Bytes) (w : W) → Exists q w → Exists q (create_loop os n k dirname w).1
  unfolding create_loop
  create_loop_keeps zero k dirname q w h = h
  create_loop_keeps (suc n) k dirname q w h = elim (Bool-cases (visit os k dirname w).0) [
    | inl e ↦
        rw (create_loop, e)
          (create_loop_keeps n (k + 1) dirname q (visit os k dirname w).1
            (visit_keeps k dirname q w h))
    | inr e ↦ rw (create_loop, e) (visit_keeps k dirname q w h)
  ]

  create_loop-Exists :
      (n k j : ℕ) (dirname : Bytes) (w : W)
      → (create_loop os n k dirname w).0 ≡ true
      → k ≤ j
      → j < k + n
      → get_or dirname j 0 ≡ slash
      → Exists (take j dirname) (create_loop os n k dirname w).1
  unfolding create_loop
  create_loop-Exists zero k j dirname w h low high at = absurd (omega arith)
  create_loop-Exists (suc n) k j dirname w h low high at =
      elim (Bool-cases (visit os k dirname w).0) [
        | inr e ↦ false_is_true (rw (create_loop, e) at h)
        | inl e ↦ elim (dec_lt k j) [
          | yes later ↦
              rw (create_loop, e)
                (create_loop-Exists n (k + 1) j dirname (visit os k dirname w).1
                  (rw (create_loop, e) at h) (omega arith) (omega arith) at)
          | no now ↦
              let same : k ≡ j = omega arith in
              let found : Exists (take k dirname) (visit os k dirname w).1 =
                visit-Exists k dirname w (rw same at) e in
              rw (create_loop, e)
                (create_loop_keeps n (k + 1) dirname (take j dirname) (visit os k dirname w).1
                  (subst (λ x. Exists (take x dirname) (visit os k dirname w).1) same found))
        ]
      ]

  -- After a successful `util_create_dir` the directory is there, and so is every directory on the
  -- way to it: each part of the path that ends before a slash. It is assumed that a path which
  -- `access` finds is there, that one which `mkdir` makes is there, and that neither removes one.
  pub util_create_dir-Exists :
      (pathname : Bytes) (j : ℕ) (w : W)
      → (util_create_dir os (some pathname) w).0 ≡ true
      → 1 ≤ j
      → j < length (with_slash pathname)
      → get_or (with_slash pathname) j 0 ≡ slash
      → Exists (take j (with_slash pathname)) (util_create_dir os (some pathname) w).1
  unfolding util_create_dir
  util_create_dir-Exists pathname j w h low high at = elim (Bool-cases (length pathname == 0)) [
    | inl e ↦ false_is_true (rw e at h)
    | inr e ↦ elim (Bool-cases (os.malloc (length pathname + 2) w).0) [
      | inr f ↦ false_is_true (rw (e, f) at h)
      | inl f ↦
          rw (e, f)
            (create_loop-Exists (length (with_slash pathname) - 1) 1 j (with_slash pathname)
              (os.malloc (length pathname + 2) w).1 (rw (e, f) at h) low (omega arith) at)
    ]
  ]
