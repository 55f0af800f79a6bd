-- ===== src/Base/Failing.antt =====
-- Code that may raise one exception: `none` is raised, and `require` is a guard.
use mathlib.Core.Path.{◌≡◌, refl}
use mathlib.Core.Bool.{Bool, true, false}
use mathlib.Core.Option.{Option, none, some}

infixl 5 ◌>>=◌ ◌>>◌
abbrev pub ◌>>=◌ {ℓ κ} : {A : Type ℓ} {B : Type κ} → Option A → (A → Option B) → Option B
none >>= f = none
some a >>= f = f a

abbrev pub ◌>>◌ {ℓ} : {B : Type ℓ} → Option (Unit {0}) → Option B → Option B
m >> k = m >>= λ _. k

abbrev pub require : Bool → Option (Unit {0})
require true = some tt
require false = none

-- A guard that stands before an exception-free rest.
pub then_require {ℓ} :
    {B : Type ℓ} (b : Bool) (k : Option B) {x : B}
    → (require b >> k) ≡ some x
    → (b ≡ true) × (k ≡ some x)
then_require true k h = (refl, h)
then_require false k h = cc

pub then_some {ℓ κ} :
    {A : Type ℓ} {B : Type κ} (o : Option A) (k : A → Option B) {x : B}
    → (o >>= k) ≡ some x
    → (a : A) × (o ≡ some a) × (k a ≡ some x)
then_some none k h = cc
then_some (some a) k h = (a, refl, h)

pub require-true : (b : Bool) → require b ≡ some tt → b ≡ true
require-true true h = refl
require-true false h = cc
