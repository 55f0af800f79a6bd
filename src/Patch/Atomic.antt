-- ===== src/Patch/Atomic.antt =====
-- A patch that raises: what vllm_sail/patch/utils.py leaves then.
use vllm_sail.Base.{
  String, ◌<>◌, ◌≡◌, refl, ap, inl, inr, Bool, true, false, ◌||◌, not, Option, none, some,
}
use vllm_sail.Base.{List, [], ◌∷◌, ◌==◌, Bool-cases, Option-cases, nat_eq}
use vllm_sail.Base.Names.{lookup}
use vllm_sail.Patch.Path.{is_nonempty, is_nonblank, rpartition_dot, has_dot, split_dot}
use vllm_sail.Patch.Heap.{
  Ref, Cell, null, static_method, class_method, property_object, marker, Kind, module_kind,
  class_kind, World, get_attribute, put_cell,
}
use vllm_sail.Patch.Monad.{
  Error, value_error, type_error, runtime_error, attribute_error, import_error, raised, require,
  found,
}
use vllm_sail.Patch.Attributes.{
  Metadata, patch_marker, validate_metadata, find_marker, marker_of_cell, add_entry,
  record_original_attribute, read_original_attribute, original_read, raise_if_already_patched,
  capture_source, unwrap_class_descriptor, is_marked,
}
use vllm_sail.Patch.Install.{
  commit, install_module_at, patch_module_attribute, install_class_at, patch_class_method,
  replace_class_attribute, resolved_name, guard_original, guard_class, import_module, resolve_names,
  resolve_target_class, rebuild, build_class_attribute, bound, is_class, is_descriptor,
  class_path_parts, shadowed,
}
use vllm_sail.Patch.Run.{patch, patch_value, dispatch, install_value}
use vllm_sail.Patch.Commit.{ok-ne-raised}
use vllm_sail.Patch.Quiet.{
  Frame, Frame-refl, Quiet, Fails, Quiet-bind, Fails-bind, Quiet-return, Quiet-raise, Quiet-require,
  Quiet-found, Quiet-allocate, Quiet-set_marker, Quiet-read, Fails-read, Fails-set,
}

Quiet-marker_of_cell : (r : Ref) (c : Cell) → Quiet (marker_of_cell r c)
unfolding marker_of_cell
Quiet-marker_of_cell r null = Quiet-allocate _
Quiet-marker_of_cell r (marker es) = Quiet-return r
Quiet-marker_of_cell r _ = Quiet-raise type_error

Quiet-find_marker : (r : Ref) → Quiet (find_marker r)
unfolding find_marker
Quiet-find_marker r = record {
  frame = λ w. elim (Option-cases (get_attribute w r patch_marker)) [
    | inl absent ↦ rw (absent, find_marker) ((Quiet-allocate _).frame w)
    | inr (m, present) ↦ rw (present, find_marker) ((Quiet-marker_of_cell m (w.cell m)).frame w)
  ];
}

Quiet-record_original_attribute :
    (r : Ref) (full : String) (o : Option Ref) → Quiet (record_original_attribute r full o)
unfolding record_original_attribute put_cell
Quiet-record_original_attribute r full o = Quiet-bind (Quiet-find_marker r) λ d.
    Quiet-bind {m = add_entry d full o}
      (record { frame = λ w. record { registry_is = refl; reads = λ q k ne. refl } })
      λ _. Quiet-set_marker r d type_error

Fails-commit :
    (owner : Ref) (name full : String) (m : Metadata) (k : Kind) (o : Option Ref)
    (source : Option String) (holder installed : Ref)
    → Fails (commit owner name full m k o source holder installed)
unfolding commit
Fails-commit owner name full m k o source holder installed =
    Fails-bind (Quiet-record_original_attribute holder full o)
      λ _. Fails-set owner name installed attribute_error _ (λ w v x h. cc)

Quiet-validate_metadata : (m : Metadata) → Quiet (validate_metadata m)
unfolding validate_metadata
Quiet-validate_metadata m = Quiet-bind (Quiet-require (is_nonblank m.reason) value_error) λ _.
    Quiet-bind (Quiet-require (is_nonblank m.affected_versions) value_error)
      λ _. Quiet-require (is_nonblank m.remove_when) value_error

Quiet-original_read : (o : Option Ref) (allow : Bool) → Quiet (original_read o allow)
unfolding original_read
Quiet-original_read (some v) allow = Quiet-return (some v)
Quiet-original_read none true = Quiet-return none
Quiet-original_read none false = Quiet-raise attribute_error

Quiet-read_original_attribute :
    (owner : Ref) (name : String) (allow : Bool) → Quiet (read_original_attribute owner name allow)
unfolding read_original_attribute
Quiet-read_original_attribute owner name allow =
    Quiet-read (λ w. original_read (get_attribute w owner name) allow)
      (λ u. Quiet-original_read _ allow)

Quiet-raise_if_already_patched :
    (original replacement : Ref) → Quiet (raise_if_already_patched original replacement)
unfolding raise_if_already_patched
Quiet-raise_if_already_patched original replacement =
    Quiet-read (λ w. require (not (original == replacement || is_marked w original)) runtime_error)
      (λ u. Quiet-require _ _)

Quiet-guard_original : (o : Option Ref) (r : Ref) → Quiet (guard_original o r)
Quiet-guard_original none r = Quiet-return tt
Quiet-guard_original (some o) r = Quiet-raise_if_already_patched o r

Quiet-import : (path : String) → Quiet (import_module path)
Quiet-import path =
    Quiet-read (λ w. found (w.python.imports path) import_error) (λ u. Quiet-found _ _)

Fails-install_module_at :
    (path name : String) (allow : Bool) (m : Metadata) (r : Ref)
    → Fails (install_module_at path name allow m r)
unfolding install_module_at
Fails-install_module_at path name allow m r =
    Fails-bind (Quiet-require (is_nonempty name) value_error) λ _.
      Fails-bind (Quiet-import path) λ target. Fails-bind (Quiet-validate_metadata m) λ _.
        Fails-bind (Quiet-read_original_attribute target name allow) λ o.
          Fails-bind (Quiet-guard_original o r) λ _.
            Fails-read
              (λ w.
                commit target name (path <> ("." <> name)) m module_kind o (capture_source w o) r r)
              (λ u. Fails-commit _ _ _ _ _ _ _ _ _)

Fails-patch_module_attribute :
    (path : String) (name : Option String) (allow : Bool) (m : Metadata) (r : Ref)
    → Fails (patch_module_attribute path name allow m r)
unfolding patch_module_attribute
Fails-patch_module_attribute path name allow m r =
    Fails-bind (Quiet-require (is_nonempty path) value_error) λ _.
      Fails-read (λ w. install_module_at path (resolved_name w name r) allow m r)
        (λ u. Fails-install_module_at path _ allow m r)

Quiet-resolve_names : (names : List String) (r : Ref) → Quiet (resolve_names names r)
unfolding resolve_names
Quiet-resolve_names [] r = Quiet-return r
Quiet-resolve_names (name ∷ names) r = record {
  frame = λ w. elim (Option-cases (get_attribute w r name)) [
    | inl absent ↦ rw (absent, resolve_names) Frame-refl
    | inr (v, present) ↦
        rw (present, resolve_names)
          ((Quiet-resolve_names names (bound (w.cell r) (w.cell v) v)).frame w)
  ];
}

Quiet-resolve_target_class : (r : Ref) (path : String) → Quiet (resolve_target_class r path)
unfolding resolve_target_class
Quiet-resolve_target_class r path = Quiet-bind (Quiet-resolve_names (split_dot path) r) λ c.
    Quiet-bind {m = λ w. require (is_class (w.cell c)) type_error w}
      (Quiet-read (λ w. require (is_class (w.cell c)) type_error) (λ u. Quiet-require _ _))
      λ _. Quiet-return c

Quiet-rebuild : (o c : Cell) (r : Ref) → Quiet (rebuild o c r)
unfolding rebuild
Quiet-rebuild (static_method _) c r = Quiet-allocate _
Quiet-rebuild (class_method _) c r = Quiet-allocate _
Quiet-rebuild (property_object _ s d t) c r = Quiet-allocate _
Quiet-rebuild _ c r =
    Quiet-bind (Quiet-require (not (is_descriptor c)) type_error) λ _. Quiet-return r

Quiet-build_class_attribute : (o : Option Ref) (a r : Ref) → Quiet (build_class_attribute o a r)
unfolding build_class_attribute
Quiet-build_class_attribute none a r = Quiet-return a
Quiet-build_class_attribute (some o) a r =
    Quiet-read (λ w. rebuild (w.cell o) (w.cell a) r) (λ u. Quiet-rebuild _ _ r)

Quiet-guard_class : (w : World) (o : Option Ref) (r : Ref) → Quiet (guard_class w o r)
Quiet-guard_class w none r = Quiet-return tt
Quiet-guard_class w (some o) r = Quiet-raise_if_already_patched _ r

Fails-replace_class_attribute :
    (class : Ref) (name full : String) (m : Metadata) (o : Option Ref) (r i : Ref) (w : World)
    → Fails (replace_class_attribute class name full m o r i w)
unfolding replace_class_attribute
Fails-replace_class_attribute class name full m o r i w = Fails-bind (Quiet-guard_class w o i) λ _.
    Fails-bind (Quiet-build_class_attribute o r i)
      λ installed. Fails-commit class name full m class_kind o (capture_source w o) i installed

Fails-install_class_at :
    (path attribute_path class_path name : String) (allow : Bool) (m : Metadata) (r i : Ref)
    → Fails (install_class_at path attribute_path class_path name allow m r i)
unfolding install_class_at
Fails-install_class_at path attribute_path class_path name allow m r i =
    Fails-bind (Quiet-import path) λ target.
      Fails-bind (Quiet-resolve_target_class target class_path) λ class.
        Fails-bind (Quiet-validate_metadata m) λ _.
          Fails-bind (Quiet-read_original_attribute class name allow) λ seen.
            Fails-read
              (λ w.
                replace_class_attribute class name (path <> ("." <> attribute_path)) m
                  (shadowed allow seen (lookup name (w.own class))) r i w)
              (λ w. Fails-replace_class_attribute class name _ m _ r i w)

Fails-patch_class_method :
    (path attribute_path : String) (allow : Bool) (m : Metadata) (r : Ref)
    → Fails (patch_class_method path attribute_path allow m r)
unfolding patch_class_method
Fails-patch_class_method path attribute_path allow m r =
    Fails-bind (Quiet-found (class_path_parts (rpartition_dot attribute_path)) value_error)
      λ (class_path, name).
        Fails-read
          (λ w.
            install_class_at path attribute_path class_path name allow m r
              (unwrap_class_descriptor w r))
          (λ w. Fails-install_class_at path attribute_path class_path name allow m r _)

Fails-dispatch :
    (path : String) (name : Option String) (allow : Bool) (m : Metadata) (r : Ref)
    → Fails (dispatch path name allow m r)
Fails-dispatch path none allow m r = Fails-patch_module_attribute path none allow m r
Fails-dispatch path (some name) allow m r = elim (Bool-cases (has_dot name)) [
  | inl dotted ↦ rw dotted (Fails-patch_class_method path name allow m r)
  | inr bare ↦ rw bare (Fails-patch_module_attribute path (some name) allow m r)
]

-- A patch that raises, for whatever reason and on whatever path, leaves the registry as it was, and
-- every attribute of every object but the markers.
pub patch-raised :
    (path : String) (name : Option String) (allow : Bool) (m : Metadata) (r : Ref) (w v : World)
    {e : Error}
    → patch path name allow m r w ≡ (raised e, v)
    → Frame w v
unfolding patch
patch-raised path name allow m r w v h =
    (Fails-bind (Quiet-require (is_nonempty path) type_error)
        (λ _. Fails-dispatch path name allow m r)).frame
      w v h

Fails-install_value :
    (target : Ref) (name full : String) (m : Metadata) (a : Ref) (o : Option Ref)
    → Fails (install_value target name full m a o)
unfolding install_value
Fails-install_value target name full m a (some o) = record {
  frame = λ w v h. elim (Bool-cases (w.python.equal o a)) [
    | inl same ↦ absurd (ok-ne-raised (rw same at h))
    | inr other ↦ let q : w ≡ v = ap (λ p. p.1) (rw other at h) in rw (← q) Frame-refl
  ];
}
Fails-install_value target name full m a none =
    Fails-set target name a attribute_error _ (λ w v x h. cc)

-- A `patch_value` that raises, for whatever reason, leaves the registry as it was, and every attribute
-- of every object but the markers.
pub patch_value-raised :
    (path name : String) (a : Ref) (allow : Bool) (m : Metadata) (w v : World) {e : Error}
    → patch_value path name a allow m w ≡ (raised e, v)
    → Frame w v
unfolding patch_value
patch_value-raised path name a allow m w v h =
    (Fails-bind (Quiet-import path) λ target. Fails-bind (Quiet-validate_metadata m) λ _.
        Fails-bind (Quiet-read_original_attribute target name allow)
          λ o. Fails-install_value target name (path <> ("." <> name)) m a o).frame
      w v h
