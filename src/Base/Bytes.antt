-- ===== src/Base/Bytes.antt =====
-- Memory blocks and C strings as lists of bytes, and runs that may be undefined behaviour.
use mathlib.Core.Path.{refl}
use Prim.Native.Nat.{ℕ, ◌+◌, ◌<◌, ◌≤◌}
use Prim.Native.Char.{code}
use Prim.Native.String.{String}
use mathlib.Core.List.{List, [], ◌∷◌, ◌++◌, append_assoc}
use mathlib.Core.Path.{◌≡◌, ap, sym, ◌∙◌}
use native.Mathlib.Omega.{arith}
use mathlib.Core.Option.{Option, none, some}
use ccc_upgrade.Base.Tests.{leb, ◌==◌, if◌then◌else◌, le→leb, lt→not_leb}
use mathlib.Core.Logic.{◌⊎◌, inl, inr}
use mathlib.Core.Bool.{true}
use ccc_upgrade.Base.Lists.{
  length-drop, length-take, length, take, drop, length-append, take-append_left, drop-append_left,
  take-append-drop, drop-drop,
}

abbrev pub Bytes : Type 0
Bytes = List ℕ

abbrev pub IsByte : ℕ → Type 0
IsByte b = b < 256

-- The bytes of an ASCII literal.
abbrev pub codes : String → Bytes
codes String.[] = []
codes (String.◌∷◌ c s) = code c ∷ codes s

-- `fault` is undefined behaviour: a write out of a block, a use of a dangling or null pointer.
pub data Run (A : Type 0) : Type 0 where
  ok : A → Run A
  fault : Run A

infixl 5 ◌>>=◌ ◌>>◌
abbrev pub ◌>>=◌ : {A B : Type 0} → Run A → (A → Run B) → Run B
ok a >>= f = f a
fault >>= f = fault

abbrev pub ◌>>◌ : {A B : Type 0} → Run A → Run B → Run B
m >> k = m >>= λ _. k

-- `memcpy(block + off, src, length src)`: a fault if the bytes leave the block.
unfoldable pub store : ℕ → Bytes → Bytes → Run Bytes
store off src block =
    if leb (off + length src) (length block)
    then ok (take off block ++ (src ++ drop (off + length src) block))
    else fault

-- The same through a pointer that may be null; nothing is written if there is nothing to copy.
unfoldable pub store_at : ℕ → Bytes → Option Bytes → Run (Option Bytes)
unfolding store
store_at off [] block = ok block
store_at off (b ∷ bs) none = fault
store_at off (b ∷ bs) (some block) = do block' ← store off (b ∷ bs) block; ok (some block')

-- `memcpy(dst, src, n)` reads `n` bytes of a block.
unfoldable pub load : ℕ → Bytes → Run Bytes
load n block = if leb n (length block) then ok (take n block) else fault

-- What a C function sees of a block that is used as a string: the bytes before the first NUL.
unfoldable pub c_string : Bytes → Bytes
c_string [] = []
c_string (b ∷ bs) = if b == 0 then [] else b ∷ c_string bs

-- A block split at the place of a write: the write replaces the middle part.
pub store-append :
    (off : ℕ) (front old back src : Bytes)
    → off ≡ length front
    → length src ≡ length old
    → store off src (front ++ (old ++ back)) ≡ ok (front ++ (src ++ back))
unfolding store
store-append off front old back src e l =
    let fits : leb (off + length src) (length (front ++ (old ++ back))) ≡ true =
      le→leb (off + length src) (length (front ++ (old ++ back)))
        (omega (arith, length-append {0} front (old ++ back), length-append {0} old back)) in
    let rest : drop (off + length src) (front ++ (old ++ back)) ≡ back =
      ap (λ t. drop (off + length src) t) (sym (append_assoc front old back))
      ∙ drop-append_left (front ++ old) back (off + length src)
          (omega (arith, length-append {0} front old)) in
    rw (fits, rest, take-append_left front (old ++ back) off e)

pub store_short :
    (off : ℕ) (src block : Bytes) → length block < off + length src → store off src block ≡ fault
unfolding store
store_short off src block h = rw (lt→not_leb _ _ h)

-- A block is its parts: `n` bytes, then `m`, then the rest.
pub split_block :
    (n m : ℕ) (block : Bytes)
    → block ≡ take n block ++ (take m (drop n block) ++ drop (n + m) block)
split_block n m block =
    sym (take-append-drop n block)
    ∙ ap (λ t. take n block ++ t)
        (sym (take-append-drop m (drop n block))
          ∙ ap (λ t. take m (drop n block) ++ t) (drop-drop n m block))

pub Run-cases : {A : Type 0} (r : Run A) → (r ≡ fault) ⊎ ((a : A) × (r ≡ ok a))
Run-cases (ok a) = inr (a, refl)
Run-cases fault = inl refl

-- Inversion of a bind that is defined.
pub >>=-eq-ok :
    {A B : Type 0} (run : Run A) (rest : A → Run B) {end : B}
    → (run >>= rest) ≡ ok end
    → (x : A) × (run ≡ ok x) × (rest x ≡ ok end)
>>=-eq-ok (ok x) rest e = (x, refl, e)
>>=-eq-ok fault rest e = cc

-- A write that is defined keeps the size of the block, and stays inside it.
pub store_within :
    (off : ℕ) (src block : Bytes) {block' : Bytes}
    → store off src block ≡ ok block'
    → (length block' ≡ length block) × (off + length src ≤ length block)
unfolding store
store_within off src block h = ground (
  arith,
  length-append {0} (take off block) (src ++ drop (off + length src) block),
  length-append {0} src (drop (off + length src) block),
  length-take {0} off block,
  length-drop {0} (off + length src) block,
)

pub store_fits :
    (off : ℕ) (src block : Bytes)
    → off + length src ≤ length block
    → store off src block ≡ ok (take off block ++ (src ++ drop (off + length src) block))
unfolding store
store_fits off src block h = rw (le→leb (off + length src) (length block) h)

pub load_fits : (n : ℕ) (block : Bytes) → n ≤ length block → load n block ≡ ok (take n block)
unfolding load
load_fits n block h = rw (le→leb n (length block) h)

-- A copy to the front of a block that is large enough.
pub store_at_front :
    (src block : Bytes)
    → length src ≤ length block
    → store_at 0 src (some block) ≡ ok (some (src ++ drop (length src) block))
unfolding store_at store
store_at_front [] block h = refl
store_at_front (b ∷ bs) block h = ground arith

pub ok_inv : {A : Type 0} {x y : A} → ok x ≡ ok y → x ≡ y
ok_inv h = cc
