-- ===== src/Base/Holds.antt =====
-- What holds of the result of a run, if it is defined: one rule for each way to build a run.
use mathlib.Core.Path.{subst, ◌≡◌, refl}
use mathlib.Core.Bool.{Bool, true, false}
use mathlib.Core.Option.{Option, none, some}
use ccc_upgrade.Base.Tests.{if◌then◌else◌}
use ccc_upgrade.Base.Bytes.{Run, ok, fault, ◌>>=◌}

pub data Holds {A : Type 0} (Q : A → Type 0) : Run A → Type 0 where
  returns : {a : A} → Q a → Holds Q (ok a)
  undefined : Holds Q fault

pub Holds-ok : {A : Type 0} {Q : A → Type 0} {r : Run A} {a : A} → Holds Q r → r ≡ ok a → Q a
Holds-ok {Q = Q} (returns {a = b} q) e = subst Q (cc) q
Holds-ok undefined e = cc

-- A run that is not known keeps what is known of every result of it.
pub Holds-run : {A : Type 0} {Q : A → Type 0} (r : Run A) → ((a : A) → r ≡ ok a → Q a) → Holds Q r
Holds-run (ok a) h = returns (h a refl)
Holds-run fault h = undefined

pub Holds-bind :
    {A B : Type 0} (Q : A → Type 0) {R : B → Type 0} (r : Run A) (k : A → Run B)
    → Holds Q r
    → ((a : A) → Q a → Holds R (k a))
    → Holds R (r >>= k)
Holds-bind Q (ok a) k (returns q) next = next a q
Holds-bind Q fault k undefined next = undefined

-- The rest of a run behind a step that does not touch the state.
pub Holds-pure :
    {A B : Type 0} {R : B → Type 0} (r : Run A) (k : A → Run B)
    → ((a : A) → Holds R (k a))
    → Holds R (r >>= k)
Holds-pure (ok a) k next = next a
Holds-pure fault k next = undefined

pub Holds-if :
    {A : Type 0} {Q : A → Type 0} (b : Bool) (r s : Run A)
    → Holds Q r
    → Holds Q s
    → Holds Q (if b then r else s)
Holds-if true r s hr hs = hr
Holds-if false r s hr hs = hs

pub Holds-option :
    {A B : Type 0} {Q : B → Type 0} (o : Option A) (r : Run B) (k : A → Run B)
    → Holds Q r
    → ((a : A) → Holds Q (k a))
    → Holds Q (elim o [ none ↦ r | some a ↦ k a ])
Holds-option none r k hr hk = hr
Holds-option (some a) r k hr hk = hk a
