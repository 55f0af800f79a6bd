-- ===== src/Patch/Value.antt =====
-- `patch_value` of vllm_sail/patch/utils.py, and a second one at the same place.
use vllm_sail.Base.{String, ◌<>◌, ◌≡◌, refl, sym, ap, ◌∙◌, inl, inr, Bool, Option, none, some}
use vllm_sail.Base.{arith, nat_eq, Bool-cases, if◌then◌else◌}
use vllm_sail.Base.Names.{Names, lookup, insert, lookup-insert_self}
use vllm_sail.Patch.Heap.{Ref, Python, World, get_attribute, put_attribute, update}
use vllm_sail.Patch.Monad.{runtime_error, ok, raised}
use vllm_sail.Patch.Attributes.{Metadata, read_original_attribute, original_read}
use vllm_sail.Patch.Run.{patch_value, install_value}
use vllm_sail.Patch.Steps.{
  IsDocumented, then_import_module, then_validate_metadata, then_read_original_attribute,
  validate_metadata_lem,
}
use vllm_sail.Patch.Commit.{ok-injective, ok-ne-raised}

keep_equal_lem :
    (t : Ref) (name full : String) (m : Metadata) (a o : Ref) (w : World)
    → install_value t name full m a (some o) w
      ≡ (if w.python.equal o a then (ok o, w) else (raised runtime_error, w))
unfolding install_value
keep_equal_lem t name full m a o w = refl

get_attribute_of_own :
    (u : World) (t a : Ref) (name : String)
    → lookup name (u.own t) ≡ some a
    → get_attribute u t name ≡ some a
unfolding get_attribute
get_attribute_of_own u t a name h = rw (h, get_attribute)

lookup-update :
    (f : Ref → Names Ref) (t a : Ref) (name : String)
    → lookup name (update f t (insert name a (f t)) t) ≡ some a
lookup-update f t a name = ground (arith, lookup-insert_self name a (f t))

read_original_attribute-some :
    (t o : Ref) (name : String) (allow : Bool) (w : World)
    → get_attribute w t name ≡ some o
    → read_original_attribute t name allow w ≡ (ok (some o), w)
unfolding read_original_attribute original_read
read_original_attribute-some t o name allow w h = rw h

-- A value installed where nothing was, or an equal one found.
record ValueStands (t : Ref) (name : String) (w v : World) (x : Ref) : Type 0 where
  stands : get_attribute v t name ≡ some x
  python_is : v.python ≡ w.python

install_value-ValueStands :
    (t : Ref) (name full : String) (m : Metadata) (a : Ref) (o : Option Ref) (w v : World) (x : Ref)
    → get_attribute w t name ≡ o
    → install_value t name full m a o w ≡ (ok x, v)
    → ValueStands t name w v x
unfolding install_value put_attribute
install_value-ValueStands t name full m a (some o) w v x e h =
    elim (Bool-cases (w.python.equal o a)) [
      | inl same ↦
          let (p, q) = ok-injective o x (rw same at h) in
          record { stands = rw (← p, ← q) e; python_is = rw (← q) }
      | inr other ↦ absurd (ok-ne-raised (sym (rw other at h)))
    ]
install_value-ValueStands t name full m a none w v x e h =
    elim (Bool-cases (w.python.settable t name)) [
      | inl settable ↦
          let (p, q) = ok-injective a x (rw settable at h) in
          record {
            stands = rw (← p, ← q) (get_attribute_of_own _ t a name (lookup-update w.own t a name));
            python_is = rw (← q);
          }
      | inr refused ↦ absurd (ok-ne-raised (sym (rw refused at h)))
    ]

-- A `patch_value` that ends well leaves an attribute: afterwards every further one at the same place
-- with documented metadata gives back that attribute where it is equal to the new value, raises
-- RuntimeError where it is not, and changes nothing either way.
pub patch_value-patch_value :
    (path name : String) (a b : Ref) (allow allow' : Bool) (m m' : Metadata) (w v : World) (x : Ref)
    → IsDocumented m'
    → patch_value path name a allow m w ≡ (ok x, v)
    → patch_value path name b allow' m' v
      ≡ (if v.python.equal x b then (ok x, v) else (raised runtime_error, v))
unfolding patch_value
patch_value-patch_value path name a b allow allow' m m' w v x d h =
    let (t, imported, h1) = then_import_module w path _ h in
    let (_, h2) = then_validate_metadata w m _ h1 in
    let full = path <> ("." <> name) in
    let (_, h3) =
      then_read_original_attribute w t name allow (λ o. install_value t name full m a o) h2 in
    let s = install_value-ValueStands t name full m a (get_attribute w t name) w v x refl h3 in
    again t s.stands (ap (λ (q : Python). q.imports path) s.python_is ∙ imported)
  where
    again :
        (t : Ref)
        → get_attribute v t name ≡ some x
        → v.python.imports path ≡ some t
        → patch_value path name b allow' m' v
          ≡ (if v.python.equal x b then (ok x, v) else (raised runtime_error, v))
    again t stands imported = rw imported (
        rw (validate_metadata_lem m' v d) (
          rw (read_original_attribute-some t x name allow' v stands)
            (keep_equal_lem t name (path <> ("." <> name)) m' b x v)))
