-- ===== src/Patch/Module.antt =====
-- `_patch_module_attribute` of vllm_sail/patch/utils.py, where it ends well, and a second patch.
use vllm_sail.Base.{String, ◌<>◌, ◌≡◌, ap, ◌∙◌, ◌≢◌, ◌⊎◌, Bool, true, false, none, some}
use vllm_sail.Base.{[], ◌∷◌, ◌++◌, arith, nat_eq}
use vllm_sail.Base.Names.{lookup}
use vllm_sail.Patch.Path.{is_nonempty, has_dot}
use vllm_sail.Patch.Heap.{Ref, Python, module_kind, World, get_attribute}
use vllm_sail.Patch.Monad.{value_error, type_error, runtime_error, ok, raised}
use vllm_sail.Patch.Attributes.{
  Metadata, patch_marker, read_original_attribute, original_read, raise_if_already_patched,
  capture_source, is_marked,
}
use vllm_sail.Patch.Install.{
  commit, install_module_at, patch_module_attribute, new_record, resolved_name,
}
use vllm_sail.Patch.Run.{patch, dispatch, original_of}
use vllm_sail.Patch.Steps.{
  IsDocumented, then_require, then_import_module, then_validate_metadata,
  then_read_original_attribute, then_guard_original, validate_metadata_lem,
}
use vllm_sail.Patch.Commit.{Committed, commit-Committed}
use vllm_sail.Patch.Installed.{
  noted_original, get_attribute-Committed, lookup-Committed_other, original_of-Committed,
  is_marked-Committed,
}

-- What an installation in a module that ends well has met and done.
pub record ModulePatched (path name : String) (allow : Bool) (m : Metadata) (replacement : Ref)
    (w v : World) (result : Ref) : Type 0 where
  pub target : Ref
  pub target_is : w.python.imports path ≡ some target
  pub importable : is_nonempty path ≡ true
  pub documented : IsDocumented m
  pub allowed : (allow ≡ true) ⊎ (get_attribute w target name ≢ none)
  pub result_is : result ≡ replacement
  pub committed :
      Committed target name
        (path <> ("." <> name))
        (get_attribute w target name)
        (new_record
          (path <> ("." <> name))
          m
          module_kind
          (get_attribute w target name)
          (capture_source w (get_attribute w target name)))
        replacement
        replacement
        w
        v

install_module_at-ModulePatched :
    (path name : String) (allow : Bool) (m : Metadata) (r : Ref) (w v : World) (x : Ref)
    → is_nonempty path ≡ true
    → install_module_at path name allow m r w ≡ (ok x, v)
    → ModulePatched path name allow m r w v x
unfolding install_module_at
install_module_at-ModulePatched path name allow m r w v x importable h =
    let (_, h1) = then_require w (is_nonempty name) value_error _ h in
    let (t, target_is, h2) = then_import_module w path _ h1 in
    let (documented, h3) = then_validate_metadata w m _ h2 in
    let (allowed, h4) = then_read_original_attribute w t name allow _ h3 in
    let o = get_attribute w t name in
    let full = path <> ("." <> name) in
    let h5 =
      then_guard_original w o r (λ u. commit t name full m module_kind o (capture_source u o) r r u)
        h4 in
    let (result_is, committed) =
      commit-Committed t name full m module_kind o (capture_source w o) r r w v h5 in
    record {
      target = t;
      target_is = target_is;
      importable = importable;
      documented = documented;
      allowed = allowed;
      result_is = result_is;
      committed = committed;
    }

pub patch-ModulePatched :
    (path name : String) (allow : Bool) (m : Metadata) (r : Ref) (w v : World) (x : Ref)
    → has_dot name ≡ false
    → is_nonempty name ≡ true
    → patch path (some name) allow m r w ≡ (ok x, v)
    → ModulePatched path name allow m r w v x
unfolding patch patch_module_attribute
patch-ModulePatched path name allow m r w v x bare named h =
    let (_, h1) =
      then_require w (is_nonempty path) type_error (dispatch path (some name) allow m r) h in
    let h2 : patch_module_attribute path (some name) allow m r w ≡ (ok x, v) = rw bare at h1 in
    let (importable, h3) =
      then_require w (is_nonempty path) value_error
        (λ u. install_module_at path (resolved_name u (some name) r) allow m r u) h2 in
    install_module_at-ModulePatched path name allow m r w v x importable (rw named at h3)

-- The outcome of a module-level patch.
pub record ModuleInstalled (path name : String) (allow : Bool) (m : Metadata) (r : Ref)
    (w v : World) (x : Ref) : Type 0 where
  pub target : Ref
  pub target_is : w.python.imports path ≡ some target
  pub result_is : x ≡ r
  pub reads : get_attribute v target name ≡ some r
  pub original_is :
      original_of v r (path <> ("." <> name)) ≡ noted_original (get_attribute w target name)
  pub registry_is :
      v.registry
      ≡ w.registry
        ++ (new_record
              (path <> ("." <> name))
              m
              module_kind
              (get_attribute w target name)
              (capture_source w (get_attribute w target name))
            ∷ [])
  pub others :
      (o : Ref) (k : String)
      → k ≢ patch_marker
      → (o ≢ target) ⊎ (k ≢ name)
      → lookup k (v.own o) ≡ lookup k (w.own o)
  pub documented : IsDocumented m
  pub allowed : (allow ≡ true) ⊎ (get_attribute w target name ≢ none)

-- A module-level patch that ends well has set the attribute of the imported module to the
-- replacement, unchanged, has made `original_of` answer with what stood there before (a KeyError
-- where nothing did), has put one record with its metadata at the end of the registry, and has
-- changed no other attribute of any object but the markers. Its metadata were not blank, and it was
-- allowed to add the attribute or found one.
pub patch-module_ok :
    (path name : String) (allow : Bool) (m : Metadata) (r : Ref) (w v : World) (x : Ref)
    → has_dot name ≡ false
    → is_nonempty name ≡ true
    → name ≢ patch_marker
    → patch path (some name) allow m r w ≡ (ok x, v)
    → ModuleInstalled path name allow m r w v x
patch-module_ok path name allow m r w v x bare named ne h =
    let p = patch-ModulePatched path name allow m r w v x bare named h in
    let c = p.committed in
    record {
      target = p.target;
      target_is = p.target_is;
      result_is = p.result_is;
      reads = get_attribute-Committed _ _ _ _ _ _ _ w v c;
      original_is = original_of-Committed _ _ _ _ _ _ _ w v c ne;
      registry_is = c.registry_is;
      others = lookup-Committed_other _ _ _ _ _ _ _ w v c;
      documented = p.documented;
      allowed = p.allowed;
    }

raise_if_already_patched_marked :
    (original replacement : Ref) (w : World)
    → is_marked w original ≡ true
    → raise_if_already_patched original replacement w ≡ (raised runtime_error, w)
unfolding raise_if_already_patched
raise_if_already_patched_marked original replacement w h = ground arith

patch_bare :
    (path name : String) (allow : Bool) (m : Metadata) (r : Ref) (w : World)
    → is_nonempty path ≡ true
    → has_dot name ≡ false
    → is_nonempty name ≡ true
    → patch path (some name) allow m r w ≡ install_module_at path name allow m r w
unfolding patch patch_module_attribute
patch_bare path name allow m r w importable bare named = simp (importable, bare, named)

install_module_at_marked :
    (path name : String) (allow : Bool) (m : Metadata) (r : Ref) (w : World) (t o : Ref)
    → is_nonempty name ≡ true
    → w.python.imports path ≡ some t
    → IsDocumented m
    → get_attribute w t name ≡ some o
    → is_marked w o ≡ true
    → install_module_at path name allow m r w ≡ (raised runtime_error, w)
unfolding install_module_at read_original_attribute original_read
install_module_at_marked path name allow m r w t o named imported d reads marked = rw named (
    rw imported (
      rw (validate_metadata_lem m w d)
        (rw reads (rw (raise_if_already_patched_marked o r w marked)))))

-- After a module-level patch that ended well, every further patch of the same attribute, with
-- whatever replacement and documented metadata, raises RuntimeError and changes nothing.
pub patch-patched :
    (path name : String) (allow allow' : Bool) (m m' : Metadata) (r r' : Ref) (w v : World)
    (x : Ref)
    → has_dot name ≡ false
    → is_nonempty name ≡ true
    → name ≢ patch_marker
    → IsDocumented m'
    → patch path (some name) allow m r w ≡ (ok x, v)
    → patch path (some name) allow' m' r' v ≡ (raised runtime_error, v)
patch-patched path name allow allow' m m' r r' w v x bare named ne d h =
    let p = patch-ModulePatched path name allow m r w v x bare named h in
    let c = p.committed in
    let imported : v.python.imports path ≡ some p.target =
      ap (λ (q : Python). q.imports path) c.python_is ∙ p.target_is in
    let reads = get_attribute-Committed _ _ _ _ _ _ _ w v c in
    let marked = is_marked-Committed _ _ _ _ _ _ _ w v c ne in
    patch_bare path name allow' m' r' v p.importable bare named
    ∙ install_module_at_marked path name allow' m' r' v p.target r named imported d reads marked
