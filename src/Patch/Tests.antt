-- ===== src/Patch/Tests.antt =====
-- A small process: a module with a function, a constant and a class that has a static method, and
-- three replacements. The theorems about patches at it.
use vllm_sail.Base.{◌≡◌, refl, true, false, none, some}
use vllm_sail.Base.{[], ◌∷◌, ◌==◌, nat_eq, string_eq, if◌then◌else◌}
use vllm_sail.Base.Names.{lookup}
use vllm_sail.Patch.Path.{is_nonblank}
use vllm_sail.Patch.Heap.{
  plain, module_object, class_object, static_method, Python, World, lookup_bases, put_attribute,
}
use vllm_sail.Patch.Monad.{raised, runtime_error, attribute_error}
use vllm_sail.Patch.Attributes.{Metadata}
use vllm_sail.Patch.Steps.{IsDocumented}
use vllm_sail.Patch.Quiet.{Frame}
use vllm_sail.Patch.Run.{patch, patch_value}
use vllm_sail.Patch.Atomic.{patch-raised, patch_value-raised}
use vllm_sail.Patch.Module.{ModuleInstalled, patch-module_ok, patch-patched}
use vllm_sail.Patch.Descriptor.{ClassInstalled, patch-class_ok}
use vllm_sail.Patch.Value.{patch_value-patch_value}

-- 1 is the module, 2 the class, 3 its function, 4 the static method of 5, 6 a constant.
abbrev python : Python
python = record {
  bases = λ r. [];
  imports = λ path. if path == "m" then some 1 else none;
  settable = λ r name. true;
  name_of = λ r. "f";
  source_of = λ r. some "def f(): ...";
  equal = λ a b. a == b;
}

abbrev before : World
before = record {
  cell = λ r.
      if r == 1
      then module_object
      else if r == 2
      then class_object
      else if r == 4
      then static_method 5
      else plain;
  own = λ r.
      if r == 1 then ("C", 2) ∷ ("f", 3) ∷ ("K", 6) ∷ [] else if r == 2 then ("s", 4) ∷ [] else [];
  fresh = 20;
  registry = [];
  python = python;
}

abbrev documented : Metadata
documented = record { reason = "why"; affected_versions = ">=0.31"; remove_when = "upstream" }

documented-IsDocumented : IsDocumented documented
unfolding is_nonblank
documented-IsDocumented = record {
  reason_is = refl;
  affected_versions_is = refl;
  remove_when_is = refl;
}

-- The process after the function is replaced, and after the static method is.
abbrev patched : World
patched = (patch "m" (some "f") false documented 10 before).1

abbrev class_patched : World
class_patched = (patch "m" (some "C.s") false documented 11 before).1

patch-module_ok_example : ModuleInstalled "m" "f" false documented 10 before patched 10
unfolding patch string_eq nat_eq lookup_bases put_attribute
patch-module_ok_example =
    patch-module_ok "m" "f" false documented 10 before patched 10 refl refl (λ e. cc) refl

patch-patched_example :
    patch "m" (some "f") true documented 12 patched ≡ (raised runtime_error, patched)
unfolding patch string_eq nat_eq lookup_bases put_attribute
patch-patched_example =
    patch-patched "m" "f" false true documented documented 10 12 before patched 10 refl refl
      (λ e. cc) documented-IsDocumented refl

patch-class_ok_example :
    ClassInstalled "m" "C.s" "C" "s" false documented 11 before class_patched 20
unfolding patch string_eq nat_eq lookup_bases put_attribute
patch-class_ok_example =
    patch-class_ok "m" "C.s" "C" "s" false documented 11 before class_patched 20 refl refl refl refl
      (λ e. cc) refl

patch-raised_example : Frame before (patch "m" (some "gone") false documented 10 before).1
unfolding patch string_eq nat_eq lookup_bases put_attribute
patch-raised_example =
    patch-raised "m" (some "gone") false documented 10 before
      (patch "m" (some "gone") false documented 10 before).1 {e = attribute_error} refl

patch_value-raised_example : Frame before (patch_value "m" "K" 7 false documented before).1
unfolding patch_value string_eq nat_eq lookup_bases put_attribute lookup
patch_value-raised_example =
    patch_value-raised "m" "K" 7 false documented before
      (patch_value "m" "K" 7 false documented before).1 {e = runtime_error} refl

patch_value-patch_value_example :
    let v = (patch_value "m" "L" 7 true documented before).1 in
    patch_value "m" "L" 8 false documented v ≡ (raised runtime_error, v)
unfolding patch_value string_eq nat_eq lookup_bases put_attribute lookup
patch_value-patch_value_example =
    patch_value-patch_value "m" "L" 7 8 true false documented documented before
      (patch_value "m" "L" 7 true documented before).1 7 documented-IsDocumented refl
