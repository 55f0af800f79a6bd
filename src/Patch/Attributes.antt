-- ===== src/Patch/Attributes.antt =====
-- What the two installation paths of vllm_sail/patch/utils.py share: metadata, markers, guards and
-- descriptors.
use vllm_sail.Base.{String, Bool, true, false, ◌||◌, not, Option, none, some, [], ◌∷◌}
use vllm_sail.Base.{◌++◌, ◌==◌, nat_eq}
use vllm_sail.Base.Names.{insert}
use vllm_sail.Patch.Path.{is_nonblank}
use vllm_sail.Patch.Heap.{
  Ref, Cell, null, static_method, class_method, property_object, marker, PatchRecord, World,
  get_attribute, put_cell,
}
use vllm_sail.Patch.Monad.{
  value_error, type_error, runtime_error, attribute_error, ok, M, ◌>>=◌, ◌>>◌, return, raise,
  require, set_attribute, allocate,
}

-- `PATCH_MARKER`
abbrev pub patch_marker : String
patch_marker = "__vllm_sail_patch__"

-- The keyword arguments that every patch carries.
pub record Metadata : Type 0 where
  pub reason : String
  pub affected_versions : String
  pub remove_when : String

unfoldable pub validate_metadata : Metadata → M (Unit {0})
unfolding is_nonblank
validate_metadata m = do
  require (is_nonblank m.reason) value_error
  require (is_nonblank m.affected_versions) value_error
  require (is_nonblank m.remove_when) value_error

-- The dict that holds a replacement's originals: the marker that `getattr` finds, else a new one.
unfoldable pub marker_of_cell : Ref → Cell → M Ref
marker_of_cell r null = allocate (marker [])
marker_of_cell r (marker _) = return r
marker_of_cell r _ = raise type_error

unfoldable pub find_marker : Ref → M Ref
unfolding marker_of_cell get_attribute
find_marker replacement w = elim (get_attribute w replacement patch_marker) [
  | none ↦ allocate (marker []) w
  | some r ↦ marker_of_cell r (w.cell r) w
]

-- `original_attributes[full_target_name] = original_attribute`
abbrev pub with_entry : String → Option Ref → Cell → Cell
with_entry name original (marker entries) = marker (insert name original entries)
with_entry name original c = c

abbrev pub add_entry : Ref → String → Option Ref → M (Unit {0})
add_entry d name original w = (ok tt, put_cell w d (with_entry name original (w.cell d)))

unfoldable pub record_original_attribute : Ref → String → Option Ref → M (Unit {0})
unfolding find_marker put_cell insert
record_original_attribute replacement full_target_name original = do
  d ← find_marker replacement
  add_entry d full_target_name original
  set_attribute replacement patch_marker d type_error

-- `none` is `_MISSING`.
unfoldable pub original_read : Option Ref → Bool → M (Option Ref)
original_read (some v) allow_missing = return (some v)
original_read none true = return none
original_read none false = raise attribute_error

unfoldable pub read_original_attribute : Ref → String → Bool → M (Option Ref)
unfolding get_attribute original_read
read_original_attribute owner name allow_missing w =
    original_read (get_attribute w owner name) allow_missing w

abbrev is_null : Cell → Bool
is_null null = true
is_null _ = false

-- `getattr(r, PATCH_MARKER, None) is not None`
unfoldable pub is_marked : World → Ref → Bool
unfolding get_attribute
is_marked w r = elim (get_attribute w r patch_marker) [
  | none ↦ false
  | some d ↦ not (is_null (w.cell d))
]

unfoldable pub raise_if_already_patched : Ref → Ref → M (Unit {0})
unfolding is_marked
raise_if_already_patched original replacement w =
    require (not (original == replacement || is_marked w original)) runtime_error w

abbrev unwrap_cell : Ref → Cell → Ref
unwrap_cell r (static_method f) = f
unwrap_cell r (class_method f) = f
unwrap_cell r (property_object fget fset fdel doc) = fget
unwrap_cell r _ = r

unfoldable pub unwrap_class_descriptor : World → Ref → Ref
unwrap_class_descriptor w r = unwrap_cell r (w.cell r)

abbrev source_of_cell : World → Ref → Cell → Option String
source_of_cell w r null = none
source_of_cell w r _ = w.python.source_of (unwrap_class_descriptor w r)

unfoldable pub capture_source : World → Option Ref → Option String
unfolding unwrap_class_descriptor
capture_source w none = none
capture_source w (some r) = source_of_cell w r (w.cell r)

-- `PATCH_REGISTRY.append`
abbrev pub append_record : PatchRecord → M (Unit {0})
append_record p w = (ok tt, record w { registry = w.registry ++ (p ∷ []) })
