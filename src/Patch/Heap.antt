-- ===== src/Patch/Heap.antt =====
-- The Python objects that vllm_sail/patch/utils.py reads and changes, with their identities, and
-- the record that it keeps of each patch.
use vllm_sail.Base.{ℕ, String, Bool, Option, none, some, List, [], ◌∷◌}
use vllm_sail.Base.{◌==◌, nat_eq, if◌then◌else◌}
use vllm_sail.Base.Names.{Names, lookup, insert}

-- The identity of an object: what `is` compares.
abbrev pub Ref : Type 0
Ref = ℕ

-- What the code asks of an object's type. `null` is Python's `None`, `plain` any object that the
-- code treats alike (functions, kernels, values). In a marker `none` is `_MISSING`.
pub data Cell : Type 0 where
  null : Cell
  plain : Cell
  module_object : Cell
  class_object : Cell
  static_method : Ref → Cell
  class_method : Ref → Cell
  property_object : (fget fset fdel doc : Ref) → Cell
  marker : Names (Option Ref) → Cell

-- `PatchRecord.kind`
pub data Kind : Type 0 where
  module_kind class_kind value_kind : Kind

pub record PatchRecord : Type 0 where
  pub target : String
  pub reason : String
  pub affected_versions : String
  pub remove_when : String
  pub kind : Kind
  pub was_missing : Bool
  pub original_source : Option String

-- What the code asks of Python and cannot change: the objects whose `__dict__` an attribute is looked
-- up in behind an object's own (the rest of a class's method resolution order, or that of an
-- instance's class), which module an import path gives, whether an attribute of an object can be
-- set, an object's `__name__` (empty where it has none), the text that `inspect.getsource` finds, and
-- `==` of two objects.
pub record Python : Type 0 where
  pub bases : Ref → List Ref
  pub imports : String → Option Ref
  pub settable : Ref → String → Bool
  pub name_of : Ref → String
  pub source_of : Ref → Option String
  pub equal : Ref → Ref → Bool

-- The process. `own` is an object's `__dict__`.
pub record World : Type 0 where
  pub cell : Ref → Cell
  pub own : Ref → Names Ref
  pub fresh : Ref
  pub registry : List PatchRecord
  pub python : Python

abbrev pub update {ℓ} : {A : Type ℓ} → (Ref → A) → Ref → A → Ref → A
update f r a q = if q == r then a else f q

-- The first `__dict__` of the row that has the name.
unfoldable pub lookup_bases : (Ref → Names Ref) → List Ref → String → Option Ref
lookup_bases own [] name = none
lookup_bases own (r ∷ rest) name = elim (lookup name (own r)) [
  | some v ↦ some v
  | none ↦ lookup_bases own rest name
]

-- `inspect.getattr_static(r, name)`, and `getattr(r, name)` where no descriptor answers.
unfoldable pub get_attribute : World → Ref → String → Option Ref
get_attribute w r name = elim (lookup name (w.own r)) [
  | some v ↦ some v
  | none ↦ lookup_bases w.own (w.python.bases r) name
]

-- `setattr(r, name, v)` where it succeeds.
unfoldable pub put_attribute : World → Ref → String → Ref → World
put_attribute w r name v = record w { own = update w.own r (insert name v (w.own r)) }

unfoldable pub put_cell : World → Ref → Cell → World
put_cell w r c = record w { cell = update w.cell r c }
