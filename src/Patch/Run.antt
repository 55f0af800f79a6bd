-- ===== src/Patch/Run.antt =====
-- The entry points of vllm_sail/patch/utils.py: `patch`, `patch_value` and `original_of`.
use vllm_sail.Base.{String, ◌<>◌, Bool, true, Option, none, some}
use vllm_sail.Base.{if◌then◌else◌}
use vllm_sail.Base.Names.{lookup}
use vllm_sail.Patch.Path.{is_nonempty, has_dot}
use vllm_sail.Patch.Heap.{Ref, Cell, marker, value_kind, World, get_attribute}
use vllm_sail.Patch.Monad.{
  type_error, runtime_error, attribute_error, key_error, Result, ok, raised, M, ◌>>=◌, ◌>>◌, return,
  require, set_attribute,
}
use vllm_sail.Patch.Attributes.{
  Metadata, patch_marker, validate_metadata, read_original_attribute, append_record,
}
use vllm_sail.Patch.Install.{patch_module_attribute, patch_class_method, import_module}

abbrev pub dispatch : String → Option String → Bool → Metadata → Ref → M Ref
dispatch path none allow_missing m r = patch_module_attribute path none allow_missing m r
dispatch path (some name) allow_missing m r =
    if has_dot name
    then patch_class_method path name allow_missing m r
    else patch_module_attribute path (some name) allow_missing m r

-- `patch(path, name, ...)(replacement)`
unfoldable pub patch : String → Option String → Bool → Metadata → Ref → M Ref
unfolding patch_module_attribute patch_class_method has_dot
patch path name allow_missing m replacement = do
  require (is_nonempty path) type_error
  dispatch path name allow_missing m replacement

keep_equal : Ref → Ref → M Ref
keep_equal original value w =
    if w.python.equal original value then (ok original, w) else (raised runtime_error, w)

-- The end of `patch_value`, by what the module already has.
unfoldable pub install_value : Ref → String → String → Metadata → Ref → Option Ref → M Ref
unfolding keep_equal
install_value target name full m value (some original) = keep_equal original value
install_value target name full m value none = do
  set_attribute target name value attribute_error
  append_record (record {
    target = full;
    reason = m.reason;
    affected_versions = m.affected_versions;
    remove_when = m.remove_when;
    kind = value_kind;
    was_missing = true;
    original_source = none;
  })
  return value

unfoldable pub patch_value : String → String → Ref → Bool → Metadata → M Ref
unfolding validate_metadata read_original_attribute install_value
patch_value path name value allow_missing m = do
  target ← import_module path
  let full = path <> ("." <> name)
  validate_metadata m
  original ← read_original_attribute target name allow_missing
  install_value target name full m value original

abbrev pub entry_of : String → Cell → Result Ref
entry_of full (marker entries) = elim (lookup full entries) [
  | some (some original) ↦ ok original
  | some none ↦ raised key_error
  | none ↦ raised key_error
]
entry_of full _ = raised key_error

unfoldable pub original_of : World → Ref → String → Result Ref
unfolding get_attribute lookup
original_of w replacement full = elim (get_attribute w replacement patch_marker) [
  | none ↦ raised key_error
  | some d ↦ entry_of full (w.cell d)
]
