-- ===== src/Configure.antt =====
-- src/configure/configure.c: the password that a client logs in with, and the directory for uploads.
use ccc_upgrade.Base.{
  ℕ, ◌+◌, ◌≡◌, refl, sym, ap₂, subst, ◌↔◌, inl, inr, Bool, true, false, ◌&&◌, Option, none, some,
  [], ◌∷◌, ◌++◌, arith, ◌==◌, ==_iff, Bool-cases, Option-cases, length,
}
use ccc_upgrade.Base.Bytes.{Bytes, codes}
use ccc_upgrade.Util.Os.{Os}
use ccc_upgrade.Util.Text.{util_dir_append, with_slash}

-- `strcmp` of two strings is 0.
pub same_string : Bytes → Bytes → Bool
same_string [] [] = true
same_string [] (y ∷ ys) = false
same_string (x ∷ xs) [] = false
same_string (x ∷ xs) (y ∷ ys) = x == y && same_string xs ys

abbrev pub password : Bytes
password = codes "jikongupgrade"

pub check_login : Bytes → Bool
check_login login_info = same_string login_info password

pub same_string-eq : (xs ys : Bytes) → same_string xs ys ≡ true → xs ≡ ys
unfolding same_string
same_string-eq [] [] h = refl
same_string-eq [] (y ∷ ys) h = cc
same_string-eq (x ∷ xs) [] h = cc
same_string-eq (x ∷ xs) (y ∷ ys) h = elim (Bool-cases (x == y)) [
  | inl e ↦ ap₂ (λ z zs. z ∷ zs) ((==_iff x y).0 e) (same_string-eq xs ys (rw e at h))
  | inr e ↦ ground (arith, h)
]

pub same_string_self : (xs : Bytes) → same_string xs xs ≡ true
unfolding same_string
same_string_self [] = refl
same_string_self (x ∷ xs) = rw ((==_iff x x).1 refl) (same_string_self xs)

-- The program accepts exactly one login string.
pub check_login_iff :
    (login_info : Bytes) → (check_login login_info ≡ true) ↔ (login_info ≡ password)
unfolding check_login
check_login_iff login_info = (
  same_string-eq login_info password,
  λ e. subst (λ x. same_string x password ≡ true) (sym e) (same_string_self password),
)

-- `close_configure` on `l_workdir_upgrade`, which is given back.
unfoldable pub close_configure : Option Bytes → Option Bytes
close_configure none = none
close_configure (some workdir) = none

module _ {X : Type 0} (os : Os X) (getcwd : X → Option Bytes × X) where
  -- `util_get_upgrade_dir`: "upgrade" in the working directory. The C library's own memory for the
  -- latter is given back.
  unfoldable pub util_get_upgrade_dir : X → Option Bytes × X
  util_get_upgrade_dir x =
      let (current_dir, x') = getcwd x in util_dir_append os current_dir (some (codes "upgrade")) x'

  -- `load_configure`, with the new `l_workdir_upgrade`.
  unfoldable pub load_configure : X → Bool × (Option Bytes × X)
  load_configure x =
      let (workdir, x') = util_get_upgrade_dir x in
      (elim workdir [ none ↦ false | some path ↦ true ], (workdir, x'))

  -- Where the configuration is loaded, the directory for uploads is the working directory, a slash if it
  -- does not end in one, and "upgrade".
  pub load_configure-path :
      (x : X) {dir : Option Bytes} {x' : X}
      → load_configure x ≡ (true, (dir, x'))
      → (cwd : Bytes) × ((getcwd x).0 ≡ some cwd) × (dir ≡ some (with_slash cwd ++ codes "upgrade"))
  unfolding load_configure util_get_upgrade_dir util_dir_append
  load_configure-path x h = elim (Option-cases (getcwd x).0) [
    | inl e ↦ cc (rw e at h)
    | inr (cwd, e) ↦ (cwd, e, path_of cwd (rw (load_configure, e) at h))
  ]
    where
      path_of :
          (cwd : Bytes) {dir : Option Bytes} {x2 : X}
          → let (found, x1) = util_dir_append os (some cwd) (some (codes "upgrade")) (getcwd x).1 in
            ◌≡◌ {A = Bool × (Option Bytes × X)}
              (elim found [ none ↦ false | some path ↦ true ], (found, x1))
              (true, (dir, x2))
            → dir ≡ some (with_slash cwd ++ codes "upgrade")
      path_of cwd h = ground arith

  -- Where the working directory has a name and there is memory, the configuration is loaded.
  pub load_configure-loads :
      (x : X) (c : ℕ) (cs : Bytes)
      → (getcwd x).0 ≡ some (c ∷ cs)
      → ((n : ℕ) (y : X) → (os.malloc n y).0 ≡ true)
      → (load_configure x).0 ≡ true
  unfolding load_configure util_get_upgrade_dir util_dir_append
  load_configure-loads x c cs named there =
      let empty : (length (c ∷ cs) == 0) ≡ false = ground arith in
      rw (load_configure, named, empty, there (length (c ∷ cs) + 1 + 7 + 1) (getcwd x).1) refl
