-- ===== src/Patch/Steps.antt =====
-- Inversion of the first statements of an installation: a statement that only tests or reads, in
-- front of a rest that ends well, leaves the process as it was.
use vllm_sail.Base.{
  String, ◌≡◌, refl, ◌≢◌, ◌⊎◌, inl, inr, Bool, true, false, ◌||◌, not, Option, none, some,
}
use vllm_sail.Base.{arith, ◌==◌, nat_eq}
use vllm_sail.Patch.Path.{is_nonblank}
use vllm_sail.Patch.Heap.{Ref, World, get_attribute}
use vllm_sail.Patch.Monad.{
  Error, value_error, runtime_error, import_error, ok, M, ◌>>=◌, ◌>>◌, require, found,
}
use vllm_sail.Patch.Attributes.{
  Metadata, validate_metadata, read_original_attribute, original_read, raise_if_already_patched,
  is_marked,
}
use vllm_sail.Patch.Install.{import_module, guard_original}

-- Which texts make metadata valid.
pub record IsDocumented (m : Metadata) : Type 0 where
  pub reason_is : is_nonblank m.reason ≡ true
  pub affected_versions_is : is_nonblank m.affected_versions ≡ true
  pub remove_when_is : is_nonblank m.remove_when ≡ true

pub validate_metadata_lem :
    (m : Metadata) (w : World) → IsDocumented m → validate_metadata m w ≡ (ok tt, w)
unfolding validate_metadata
validate_metadata_lem m w d = rw d.reason_is (rw d.affected_versions_is (rw d.remove_when_is))

module _ {B : Type 0} (w : World) {x : B} {v : World} where
  pub then_require :
      (b : Bool) (e : Error) (k : M B)
      → (require b e >> k) w ≡ (ok x, v)
      → (b ≡ true) × (k w ≡ (ok x, v))
  then_require true e k h = (refl, h)
  then_require false e k h = cc

  pub then_found :
      {A : Type 0} (o : Option A) (e : Error) (k : A → M B)
      → (found o e >>= k) w ≡ (ok x, v)
      → (a : A) × (o ≡ some a) × (k a w ≡ (ok x, v))
  then_found none e k h = cc
  then_found (some a) e k h = (a, refl, h)

  pub then_import_module :
      (path : String) (k : Ref → M B)
      → (import_module path >>= k) w ≡ (ok x, v)
      → (t : Ref) × (w.python.imports path ≡ some t) × (k t w ≡ (ok x, v))
  then_import_module path k h = then_found (w.python.imports path) import_error k h

  pub then_validate_metadata :
      (m : Metadata) (k : M B)
      → (validate_metadata m >> k) w ≡ (ok x, v)
      → IsDocumented m × (k w ≡ (ok x, v))
  unfolding validate_metadata
  then_validate_metadata m k h =
      tests (is_nonblank m.reason) (is_nonblank m.affected_versions) (is_nonblank m.remove_when)
        refl refl refl h
    where
      tests :
          (a b c : Bool)
          → is_nonblank m.reason ≡ a
          → is_nonblank m.affected_versions ≡ b
          → is_nonblank m.remove_when ≡ c
          → ((require a value_error >> (require b value_error >> require c value_error)) >> k) w
            ≡ (ok x, v)
          → IsDocumented m × (k w ≡ (ok x, v))
      tests true true true p q r h =
          (record { reason_is = p; affected_versions_is = q; remove_when_is = r }, h)
      tests true true false p q r h = cc
      tests true false c p q r h = cc
      tests false b c p q r h = cc

  then_original_read :
      (g : Option Ref) (allow : Bool) (k : Option Ref → M B)
      → (original_read g allow >>= k) w ≡ (ok x, v)
      → ((allow ≡ true) ⊎ (g ≢ none)) × (k g w ≡ (ok x, v))
  unfolding original_read
  then_original_read (some o) allow k h = (inr (λ e. cc), h)
  then_original_read none true k h = (inl refl, h)
  then_original_read none false k h = cc

  pub then_read_original_attribute :
      (t : Ref) (name : String) (allow : Bool) (k : Option Ref → M B)
      → (read_original_attribute t name allow >>= k) w ≡ (ok x, v)
      → ((allow ≡ true) ⊎ (get_attribute w t name ≢ none))
        × (k (get_attribute w t name) w ≡ (ok x, v))
  unfolding read_original_attribute
  then_read_original_attribute t name allow k h =
      then_original_read (get_attribute w t name) allow k h

  -- The guard lets an original through only where it is another object and has no marker.
  pub then_raise_if_already_patched :
      (original replacement : Ref) (k : M B)
      → (raise_if_already_patched original replacement >> k) w ≡ (ok x, v)
      → (original ≢ replacement) × (is_marked w original ≡ false) × (k w ≡ (ok x, v))
  unfolding raise_if_already_patched
  then_raise_if_already_patched original replacement k h =
      let (p, q) =
        then_require (not (original == replacement || is_marked w original)) runtime_error k h in
      (ground arith, ground arith, q)

  pub then_guard_original :
      (o : Option Ref) (replacement : Ref) (k : M B)
      → (guard_original o replacement >> k) w ≡ (ok x, v)
      → k w ≡ (ok x, v)
  then_guard_original none r k h = h
  then_guard_original (some o) r k h = (then_raise_if_already_patched o r k h).2
