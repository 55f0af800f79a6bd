-- ===== src/Patch/Monad.antt =====
-- Statements of vllm_sail/patch/utils.py: they change the process, and end with a value or an
-- exception. What was changed before an exception stays changed.
use vllm_sail.Base.{suc, String, Bool, true, false, Option, none, some, if◌then◌else◌}
use vllm_sail.Patch.Heap.{Ref, Cell, World, put_attribute, put_cell}

pub data Error : Type 0 where
  value_error type_error runtime_error attribute_error import_error key_error : Error

pub data Result {ℓ} (A : Type ℓ) : Type ℓ where
  ok : A → Result A
  raised : Error → Result A

abbrev pub M : Type 0 → Type 0
M A = World → Result A × World

abbrev pub follow : {A B : Type 0} → Result A × World → (A → M B) → Result B × World
follow (ok a, w) f = f a w
follow (raised e, w) f = (raised e, w)

infixl 5 ◌>>=◌ ◌>>◌
abbrev pub ◌>>=◌ : {A B : Type 0} → M A → (A → M B) → M B
◌>>=◌ m f w = follow (m w) f

abbrev pub ◌>>◌ : {B : Type 0} → M (Unit {0}) → M B → M B
m >> k = m >>= λ _. k

abbrev pub return : {A : Type 0} → A → M A
return a w = (ok a, w)

abbrev pub raise : {A : Type 0} → Error → M A
raise e w = (raised e, w)

abbrev pub require : Bool → Error → M (Unit {0})
require true e = return tt
require false e = raise e

abbrev pub found : {A : Type 0} → Option A → Error → M A
found none e = raise e
found (some a) e = return a

-- `setattr`, which may raise what the caller says.
abbrev pub set_attribute : Ref → String → Ref → Error → M (Unit {0})
set_attribute r name v e w =
    if w.python.settable r name then (ok tt, put_attribute w r name v) else (raised e, w)

-- A new object.
abbrev pub allocate : Cell → M Ref
allocate c w = (ok w.fresh, record (put_cell w w.fresh c) { fresh = suc w.fresh })
