-- ===== src/Patch/Descriptor.antt =====
-- `patch` of vllm_sail/patch/utils.py on a dotted path, from the entry point to the class.
use vllm_sail.Base.{
  String, ◌<>◌, ◌≡◌, refl, sym, ap, ◌∙◌, ◌≢◌, ◌⊎◌, inl, inr, Bool, true, ◌||◌, Option, none, some,
}
use vllm_sail.Base.{[], ◌∷◌, ◌++◌, arith, nat_eq, Option-cases}
use Prim.Native.Char.{Char}
use vllm_sail.Base.Names.{Names, lookup}
use vllm_sail.Patch.Path.{is_nonempty, has_dot, is_dot, rpartition_dot, rpartition_step}
use vllm_sail.Patch.Heap.{Ref, class_kind, World, get_attribute}
use vllm_sail.Patch.Monad.{ok}
use vllm_sail.Patch.Attributes.{Metadata, patch_marker, capture_source, unwrap_class_descriptor}
use vllm_sail.Patch.Install.{
  replace_class_attribute, install_class_at, patch_class_method, resolve_target_class, shadowed,
  class_path_parts, new_record,
}
use vllm_sail.Patch.Run.{patch, original_of}
use vllm_sail.Patch.Steps.{then_import_module, then_validate_metadata, then_read_original_attribute}
use vllm_sail.Patch.Installed.{noted_original, lookup-Committed_other, original_of-Committed}
use vllm_sail.Patch.Class.{
  KeepsAttribute, ClassReplaced, replace_class_attribute-ClassReplaced, then_resolve_target_class,
}
use vllm_sail.Patch.Installed.{lookup-Committed}

-- A text that has a last dot has a dot.
has_dot-rpartition_step :
    (c : Char) (s : String) (o : Option (String × String)) {p : String × String}
    → (o ≢ none → has_dot s ≡ true)
    → rpartition_step c s o ≡ some p
    → (is_dot c || has_dot s) ≡ true
unfolding rpartition_step
has_dot-rpartition_step c s (some _) more h =
    let e : has_dot s ≡ true = more (λ e. cc) in rw e (ground arith)
has_dot-rpartition_step c s none more h = ground arith

has_dot-rpartition_dot :
    (s : String) {p : String × String} → rpartition_dot s ≡ some p → has_dot s ≡ true
unfolding rpartition_dot has_dot
has_dot-rpartition_dot String.[] h = cc
has_dot-rpartition_dot (String.◌∷◌ c s) h =
    has_dot-rpartition_step c s (rpartition_dot s)
      (λ ne. elim (Option-cases (rpartition_dot s)) [
        | inl absent ↦ absurd (ne absent)
        | inr (q, present) ↦ has_dot-rpartition_dot s present
      ])
      h

patch_dotted :
    (path full_name class_path name : String) (allow : Bool) (m : Metadata) (r : Ref) (w : World)
    → is_nonempty path ≡ true
    → rpartition_dot full_name ≡ some (class_path, name)
    → is_nonempty class_path ≡ true
    → is_nonempty name ≡ true
    → patch path (some full_name) allow m r w
      ≡ install_class_at path full_name class_path name allow m r (unwrap_class_descriptor w r) w
unfolding patch patch_class_method class_path_parts
patch_dotted path full_name class_path name allow m r w importable parts classed named =
    simp (importable, has_dot-rpartition_dot full_name parts, parts, classed, named)

install_class_at-ClassReplaced :
    (path full_name class_path name : String) (allow : Bool) (m : Metadata) (r i : Ref)
    (w v : World) (x : Ref)
    → install_class_at path full_name class_path name allow m r i w ≡ (ok x, v)
    → (t : Ref) × (class : Ref) × (w.python.imports path ≡ some t)
      × (resolve_target_class t class_path w ≡ (ok class, w))
      × ClassReplaced class name
          (path <> ("." <> full_name))
          m
          (shadowed allow (get_attribute w class name) (lookup name (w.own class)))
          r
          i
          w
          v
          x
unfolding install_class_at
install_class_at-ClassReplaced path full_name class_path name allow m r i w v x h =
    let (t, imported, h1) = then_import_module w path _ h in
    let (class, resolved, h2) = then_resolve_target_class w t class_path _ h1 in
    let (_, h3) = then_validate_metadata w m _ h2 in
    let (_, h4) =
      then_read_original_attribute w class name allow
        (λ seen u.
          replace_class_attribute class name (path <> ("." <> full_name)) m
            (shadowed allow seen (lookup name (u.own class))) r i u u)
        h3 in
    (
      t,
      class,
      imported,
      resolved,
      replace_class_attribute-ClassReplaced class name (path <> ("." <> full_name)) m _ r i w v x
          h4,
    )

-- The outcome of a class patch: `original` is what it replaced.
pub record ClassInstalled (path full_name class_path name : String) (allow : Bool) (m : Metadata)
    (r : Ref) (w v : World) (x : Ref) : Type 0 where
  pub target : Ref
  pub class : Ref
  pub original : Option Ref
  pub target_is : w.python.imports path ≡ some target
  pub class_is : resolve_target_class target class_path w ≡ (ok class, w)
  pub original_is :
      original ≡ shadowed allow (get_attribute w class name) (lookup name (w.own class))
  pub reads : lookup name (v.own class) ≡ some x
  pub keeps : KeepsAttribute w v original r (unwrap_class_descriptor w r) x
  pub noted :
      original_of v (unwrap_class_descriptor w r) (path <> ("." <> full_name))
      ≡ noted_original original
  pub registry_is :
      v.registry
      ≡ w.registry
        ++ (new_record
              (path <> ("." <> full_name))
              m
              class_kind
              original
              (capture_source w original)
            ∷ [])
  pub others :
      (o : Ref) (k : String)
      → k ≢ patch_marker
      → (o ≢ class) ⊎ (k ≢ name)
      → lookup k (v.own o) ≡ lookup k (w.own o)

-- A class patch that ends well has resolved the class in the imported module, and has set the
-- class's own attribute. What it replaced is the attribute that a static lookup found, or nothing
-- where additions are allowed and the class itself has no such name: then the class gets the
-- replacement as it is. Otherwise the descriptor kind of the original is kept: a static or class
-- method is one again, a property keeps its setter, deleter and doc, and all else becomes the
-- unwrapped implementation. `original_of` the implementation answers with the original (a KeyError
-- where there was none), the registry has one more record, and no other attribute of any object but
-- the markers has changed, so a base class that had the name keeps its own.
pub patch-class_ok :
    (path full_name class_path name : String) (allow : Bool) (m : Metadata) (r : Ref) (w v : World)
    (x : Ref)
    → is_nonempty path ≡ true
    → rpartition_dot full_name ≡ some (class_path, name)
    → is_nonempty class_path ≡ true
    → is_nonempty name ≡ true
    → name ≢ patch_marker
    → patch path (some full_name) allow m r w ≡ (ok x, v)
    → ClassInstalled path full_name class_path name allow m r w v x
patch-class_ok path full_name class_path name allow m r w v x importable parts classed named ne h =
    let i = unwrap_class_descriptor w r in
    let (t, class, imported, resolved, c) =
      install_class_at-ClassReplaced path full_name class_path name allow m r i w v x (
        sym (patch_dotted path full_name class_path name allow m r w importable parts classed named)
        ∙ h) in
    let o = shadowed allow (get_attribute w class name) (lookup name (w.own class)) in
    let p = new_record (path <> ("." <> full_name)) m class_kind o (capture_source w o) in
    record {
      target = t;
      class = class;
      original = o;
      target_is = imported;
      class_is = resolved;
      original_is = refl;
      reads = lookup-Committed _ _ _ _ _ _ _ c.built v c.committed;
      keeps = c.keeps;
      noted = original_of-Committed _ _ _ _ _ _ _ c.built v c.committed ne;
      registry_is = c.committed.registry_is ∙ ap (λ l. l ++ (p ∷ [])) c.registry_is;
      others = λ o k other apart.
          lookup-Committed_other _ _ _ _ _ _ _ c.built v c.committed o k other apart
          ∙ ap (λ (f : Ref → Names Ref). lookup k (f o)) c.own_is;
    }
