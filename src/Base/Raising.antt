-- ===== src/Base/Raising.antt =====
-- Code that may raise one of several exceptions: a value, or what was raised.
use mathlib.Core.Path.{◌≡◌, refl}
use mathlib.Core.Bool.{Bool, true, false}
use mathlib.Core.Option.{Option, none, some}

-- The exceptions that some handler tells apart, and `other_error` for all the rest.
pub data Error : Type 0 where
  value_error attribute_error not_implemented_error assertion_error other_error : Error

pub data Result {ℓ} (A : Type ℓ) : Type ℓ where
  ok : A → Result A
  raised : Error → Result A

infixl 5 ◌>>=◌ ◌>>◌
abbrev pub ◌>>=◌ {ℓ κ} : {A : Type ℓ} {B : Type κ} → Result A → (A → Result B) → Result B
ok a >>= f = f a
raised e >>= f = raised e

abbrev pub ◌>>◌ {ℓ} : {B : Type ℓ} → Result (Unit {0}) → Result B → Result B
m >> k = m >>= λ _. k

abbrev pub require : Bool → Error → Result (Unit {0})
require true e = ok tt
require false e = raised e

abbrev pub found {ℓ} : {A : Type ℓ} → Option A → Error → Result A
found none e = raised e
found (some a) e = ok a

pub ok-injective {ℓ} : {A : Type ℓ} (a b : A) → ok a ≡ ok b → a ≡ b
ok-injective a b h = cc

pub then_require {ℓ} :
    {B : Type ℓ} (b : Bool) (e : Error) (k : Result B) {x : B}
    → (require b e >> k) ≡ ok x
    → (b ≡ true) × (k ≡ ok x)
then_require true e k h = (refl, h)
then_require false e k h = cc

pub then_ok {ℓ κ} :
    {A : Type ℓ} {B : Type κ} (r : Result A) (k : A → Result B) {x : B}
    → (r >>= k) ≡ ok x
    → (a : A) × (r ≡ ok a) × (k a ≡ ok x)
then_ok (ok a) k h = (a, refl, h)
then_ok (raised e) k h = cc

pub then_found {ℓ κ} :
    {A : Type ℓ} {B : Type κ} (o : Option A) (e : Error) (k : A → Result B) {x : B}
    → (found o e >>= k) ≡ ok x
    → (a : A) × (o ≡ some a) × (k a ≡ ok x)
then_found none e k h = cc
then_found (some a) e k h = (a, refl, h)
