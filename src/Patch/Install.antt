-- ===== src/Patch/Install.antt =====
-- The two installation paths of vllm_sail/patch/utils.py, `_patch_module_attribute` and
-- `_patch_class_method`.
use vllm_sail.Base.{String, ◌<>◌, Bool, true, false, ◌&&◌, not, Option, none, some, List, [], ◌∷◌}
use vllm_sail.Base.{nat_eq, string_eq, if◌then◌else◌}
use vllm_sail.Base.Names.{lookup}
use vllm_sail.Patch.Path.{is_nonempty, split_dot, rpartition_dot}
use vllm_sail.Patch.Heap.{
  Ref, Cell, class_object, static_method, class_method, property_object, Kind, module_kind,
  class_kind, PatchRecord, World, get_attribute,
}
use vllm_sail.Patch.Monad.{
  value_error, type_error, attribute_error, import_error, ok, raised, M, ◌>>=◌, ◌>>◌, return,
  require, found, set_attribute, allocate,
}
use vllm_sail.Patch.Attributes.{
  Metadata, validate_metadata, record_original_attribute, read_original_attribute,
  raise_if_already_patched, unwrap_class_descriptor, capture_source, append_record,
}

-- `importlib.import_module`
abbrev pub import_module : String → M Ref
import_module path w = found (w.python.imports path) import_error w

-- The guard runs only where something is replaced.
abbrev pub guard_original : Option Ref → Ref → M (Unit {0})
guard_original none replacement = return tt
guard_original (some original) replacement = raise_if_already_patched original replacement

abbrev pub is_missing : Option Ref → Bool
is_missing none = true
is_missing (some _) = false

abbrev pub new_record : String → Metadata → Kind → Option Ref → Option String → PatchRecord
new_record target m kind original source = record {
  target = target;
  reason = m.reason;
  affected_versions = m.affected_versions;
  remove_when = m.remove_when;
  kind = kind;
  was_missing = is_missing original;
  original_source = source;
}

-- The steps after the guard, which the two paths share: `holder` is the object that keeps the
-- marker, `installed` what the owner gets.
unfoldable pub commit :
    Ref → String → String → Metadata → Kind → Option Ref → Option String → Ref → Ref → M Ref
unfolding record_original_attribute
commit owner name full m kind original source holder installed = do
  record_original_attribute holder full original
  set_attribute owner name installed attribute_error
  append_record (new_record full m kind original source)
  return installed

abbrev pub resolved_name : World → Option String → Ref → String
resolved_name w none replacement = w.python.name_of replacement
resolved_name w (some name) replacement =
    if is_nonempty name then name else w.python.name_of replacement

-- `install_module_patch`, for the name that it has resolved.
unfoldable pub install_module_at : String → String → Bool → Metadata → Ref → M Ref
unfolding validate_metadata read_original_attribute raise_if_already_patched capture_source commit
install_module_at path name allow_missing m replacement = do
  require (is_nonempty name) value_error
  target ← import_module path
  let full = path <> ("." <> name)
  validate_metadata m
  original ← read_original_attribute target name allow_missing
  guard_original original replacement
  λ w.
      commit target name full m module_kind original (capture_source w original) replacement
        replacement w

unfoldable pub patch_module_attribute : String → Option String → Bool → Metadata → Ref → M Ref
unfolding install_module_at is_nonempty
patch_module_attribute path name allow_missing m replacement = do
  require (is_nonempty path) value_error
  λ w. install_module_at path (resolved_name w name replacement) allow_missing m replacement w

-- What `getattr` gives where it finds `v` in the object: a class answers a static method with its
-- function.
abbrev pub bound : Cell → Cell → Ref → Ref
bound class_object (static_method f) v = f
bound owner found_cell v = v

unfoldable pub resolve_names : List String → Ref → M Ref
unfolding get_attribute
resolve_names [] r w = (ok r, w)
resolve_names (name ∷ names) r w = elim (get_attribute w r name) [
  | none ↦ (raised attribute_error, w)
  | some v ↦ resolve_names names (bound (w.cell r) (w.cell v) v) w
]

abbrev pub is_class : Cell → Bool
is_class class_object = true
is_class _ = false

unfoldable pub resolve_target_class : Ref → String → M Ref
unfolding resolve_names split_dot
resolve_target_class target path = do
  r ← resolve_names (split_dot path) target
  λ w. require (is_class (w.cell r)) type_error w
  return r

abbrev pub is_descriptor : Cell → Bool
is_descriptor (static_method _) = true
is_descriptor (class_method _) = true
is_descriptor (property_object _ _ _ _) = true
is_descriptor _ = false

-- A replacement with the descriptor of the original.
unfoldable pub rebuild : Cell → Cell → Ref → M Ref
rebuild (static_method _) c implementation = allocate (static_method implementation)
rebuild (class_method _) c implementation = allocate (class_method implementation)
rebuild (property_object fget fset fdel doc) c implementation =
    allocate (property_object implementation fset fdel doc)
rebuild _ c implementation = require (not (is_descriptor c)) type_error >> return implementation

unfoldable pub build_class_attribute : Option Ref → Ref → Ref → M Ref
unfolding rebuild
build_class_attribute none attribute implementation w = (ok attribute, w)
build_class_attribute (some original) attribute implementation w =
    rebuild (w.cell original) (w.cell attribute) implementation w

-- An additive patch shadows a name that only a base class has.
abbrev pub shadowed : Bool → Option Ref → Option Ref → Option Ref
shadowed true original none = none
shadowed _ original _ = original

abbrev pub guard_class : World → Option Ref → Ref → M (Unit {0})
guard_class w none implementation = return tt
guard_class w (some original) implementation =
    raise_if_already_patched (unwrap_class_descriptor w original) implementation

-- The steps of `install_class_patch` from its guard on, for the original that it has settled on.
unfoldable pub replace_class_attribute :
    Ref → String → String → Metadata → Option Ref → Ref → Ref → World → M Ref
unfolding raise_if_already_patched unwrap_class_descriptor build_class_attribute commit
    capture_source
replace_class_attribute class name full m original attribute implementation w = do
  guard_class w original implementation
  installed ← build_class_attribute original attribute implementation
  commit class name full m class_kind original (capture_source w original) implementation installed

-- `install_class_patch`, for the implementation that it has unwrapped.
unfoldable pub install_class_at :
    String → String → String → String → Bool → Metadata → Ref → Ref → M Ref
unfolding resolve_target_class validate_metadata read_original_attribute replace_class_attribute
    lookup
install_class_at path attribute_path class_path name allow_missing m attribute implementation = do
  target ← import_module path
  class ← resolve_target_class target class_path
  let full = path <> ("." <> attribute_path)
  validate_metadata m
  seen ← read_original_attribute class name allow_missing
  λ w.
      replace_class_attribute class name full m
        (shadowed allow_missing seen (lookup name (w.own class))) attribute implementation w w

unfoldable pub class_path_parts : Option (String × String) → Option (String × String)
unfolding is_nonempty
class_path_parts none = none
class_path_parts (some (class_path, name)) =
    if is_nonempty class_path && is_nonempty name then some (class_path, name) else none

unfoldable pub patch_class_method : String → String → Bool → Metadata → Ref → M Ref
unfolding class_path_parts rpartition_dot install_class_at
patch_class_method path attribute_path allow_missing m attribute = do
  (class_path, name) ← found (class_path_parts (rpartition_dot attribute_path)) value_error
  λ w.
      install_class_at path attribute_path class_path name allow_missing m attribute
        (unwrap_class_descriptor w attribute) w
