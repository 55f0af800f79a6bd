-- ===== src/Control/Outcome.antt =====
-- How a step of scripts/ci/ppu_ci_command.py ends, and what GitHub answers.
use vllm_sail.Base.{ℕ, Bool, true, false, ◌≡◌, refl}

-- `rejected` is the exception `Rejected`, `failed` every other one.
pub data Outcome {ℓ} (A : Type ℓ) : Type ℓ where
  done : A → Outcome A
  rejected : Outcome A
  failed : Outcome A

-- An answer, an HTTP error with its status, or a failure without one.
pub data Reply {ℓ} (A : Type ℓ) : Type ℓ where
  answer : A → Reply A
  http_error : ℕ → Reply A
  broken : Reply A

infixl 5 ◌>>=◌ ◌>>◌
abbrev pub ◌>>=◌ {ℓ κ} : {A : Type ℓ} {B : Type κ} → Outcome A → (A → Outcome B) → Outcome B
done a >>= f = f a
rejected >>= f = rejected
failed >>= f = failed

abbrev pub ◌>>◌ {ℓ} : {B : Type ℓ} → Outcome (Unit {0}) → Outcome B → Outcome B
m >> k = m >>= λ _. k

abbrev pub require : Bool → Outcome (Unit {0})
require true = done tt
require false = rejected

-- An answer that no handler is there for.
abbrev pub expect {ℓ} : {A : Type ℓ} → Reply A → Outcome A
expect (answer a) = done a
expect (http_error code) = failed
expect broken = failed

pub then_require {ℓ} :
    {B : Type ℓ} (b : Bool) (k : Outcome B) {x : B}
    → (require b >> k) ≡ done x
    → (b ≡ true) × (k ≡ done x)
then_require true k h = (refl, h)
then_require false k h = cc

pub then_done {ℓ κ} :
    {A : Type ℓ} {B : Type κ} (o : Outcome A) (k : A → Outcome B) {x : B}
    → (o >>= k) ≡ done x
    → (a : A) × (o ≡ done a) × (k a ≡ done x)
then_done (done a) k h = (a, refl, h)
then_done rejected k h = cc
then_done failed k h = cc

pub done-injective {ℓ} : {A : Type ℓ} (a b : A) → done a ≡ done b → a ≡ b
done-injective a b h = cc

pub expect-answer {ℓ} : {A : Type ℓ} (r : Reply A) (a : A) → expect r ≡ done a → r ≡ answer a
expect-answer (answer b) a h = cc
expect-answer (http_error code) a h = cc
expect-answer broken a h = cc
