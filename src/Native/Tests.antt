-- ===== src/Native/Tests.antt =====
-- A manifest of two entries, a source tree with two headers, a file of bindings, and the theorems at
-- them.
use vllm_sail.Base.{String, true, false, none, some, ◌≡◌, refl, ◌||◌, ◌↔◌, ◌<>◌}
use vllm_sail.Base.{
  List, [], ◌∷◌, ◌==◌, string_eq, nat_eq, option_eq, contains, all, arith, Bool-cases, inl, inr,
  if◌then◌else◌,
}
use vllm_sail.Native.Manifest.{Entry, Manifest, Raw, load}
use vllm_sail.Native.Sound.{IsSound, load-IsSound}
use vllm_sail.Native.Division.{Divides, load-Divides}
use vllm_sail.Native.Closure.{Tree, Closure, resolve, check_sources, closure_paths}
use vllm_sail.Native.Render.{ExcludedOp, quote, escape}
use vllm_sail.Native.Quoted.{all_plain, read_basic, read_basic-escape}
use vllm_sail.Base.Sorting.{IsDistinct}
use vllm_sail.Native.Manifest.{all_ops}
use vllm_sail.Native.Prune.{Patterns, Pruner, Tiers, owner_of, concat, prune}
use vllm_sail.Native.Kept.{prune-unchanged}
use vllm_sail.Native.Declared.{is_undeclared, prune-excluded}
use vllm_sail.Base.Names.{lookup}
use vllm_sail.Native.Grown.{IsWithin}
use vllm_sail.Native.Closed.{IsClosed, all-contains}
use vllm_sail.Native.Reached.{Reached, StaysInside, closure_paths-Reached, closure_paths-ends}
use mathlib.Core.Option.{some-injective, none-ne-some}
use vllm_sail.Base.Sorting.{put_in_order, add, str_ltb}
use vllm_sail.Select.Config.{starts_with}

abbrev entry_a : Entry
entry_a = record { path = "csrc/a.cu"; tier = "ported"; hazards = []; ops = "a" ∷ []; notes = "" }

abbrev entry_b : Entry
entry_b = record {
  path = "csrc/b.cu";
  tier = "later";
  hazards = "cutlass" ∷ [];
  ops = "b" ∷ "c" ∷ [];
  notes = "";
}

abbrev raw : Raw
raw = record {
  schema = some 1;
  upstream_ref = "v1";
  tiers = ("ported", "compiled now") ∷ ("later", "not yet") ∷ [];
  hazards = ("cutlass", "needs CUTLASS") ∷ [];
  compiled_tiers = "ported" ∷ [];
  entry = entry_a ∷ entry_b ∷ [];
  drop_includes = [];
  prune_bindings = "csrc/a.cu" ∷ [];
  rename_extension = [];
  replace_text = ("csrc/a.cu", some (("x", some "y") ∷ [])) ∷ [];
}

abbrev manifest : Manifest
manifest = record {
  upstream_ref = "v1";
  tiers = ("ported", "compiled now") ∷ ("later", "not yet") ∷ [];
  hazards = ("cutlass", "needs CUTLASS") ∷ [];
  compiled_tiers = "ported" ∷ [];
  entries = entry_a ∷ entry_b ∷ [];
  drop_includes = [];
  prune_bindings = "csrc/a.cu" ∷ [];
  rename_extension = [];
  replace_text = ("csrc/a.cu", some (("x", some "y") ∷ [])) ∷ [];
}

loaded : load (λ s. s) (some raw) ≡ some manifest
unfolding load string_eq nat_eq option_eq
loaded = refl

load-IsSound_example : IsSound manifest
load-IsSound_example = load-IsSound (λ s. s) (some raw) manifest loaded

load-Divides_example : (chosen : List Entry) × Divides manifest chosen
load-Divides_example = load-Divides (λ s. s) (some raw) manifest loaded

-- a.cu includes a.h, which stands beside it; a.h includes b.h, from csrc, and an unknown file.
abbrev files : List String
files = "csrc/a.cu" ∷ "csrc/a.h" ∷ "csrc/b.h" ∷ []

abbrev tree : Tree
tree = record {
  is_file = contains files;
  includes = λ rel.
      if rel == "csrc/a.cu"
      then "a.h" ∷ []
      else if rel == "csrc/a.h"
      then "b.h" ∷ "c.h" ∷ []
      else [];
  parent = λ rel. "csrc";
  join = λ root name. root <> "/" <> name;
  relative = λ target. some target;
}

abbrev closure : Closure
closure = record {
  sources = "csrc/a.cu" ∷ [];
  headers = "csrc/a.h" ∷ "csrc/b.h" ∷ [];
  unresolved = "c.h" ∷ [];
  left = [];
}

closed : closure_paths 4 tree ("csrc/a.cu" ∷ []) ≡ some closure
unfolding closure_paths string_eq put_in_order add str_ltb
closed = refl

resolve-is_file :
    (t : Tree) (include rel target : String)
    → resolve t include rel ≡ some target
    → t.is_file target ≡ true
unfolding resolve
resolve-is_file t include rel target h =
    let own = t.join (t.parent rel) include in
    let common = t.join "csrc" include in
    elim (Bool-cases (t.is_file own)) [
      | inl a ↦ let e : own ≡ target = some-injective own target (rw a at h) in rw (← e) a
      | inr a ↦ elim (Bool-cases (t.is_file common)) [
        | inl b ↦
            let e : common ≡ target = some-injective common target (rw b at (rw a at h)) in
            rw (← e) b
        | inr b ↦ absurd (none-ne-some target (rw b at (rw a at h)))
      ]
    ]

inside : StaysInside tree ("csrc/a.cu" ∷ [])
unfolding starts_with nat_eq string_eq
inside rel include target r given e =
    let file : contains files target ≡ true = resolve-is_file tree include rel target e in
    (target, refl, all-contains (λ f. starts_with f "csrc/") files target refl file)

within : IsWithin tree files
within rel include target found e f =
    let same : target ≡ found = some-injective target found f in
    rw (← same) (resolve-is_file tree include rel target e)

closure_paths-Reached_example :
    ((contains closure.sources "csrc/b.h" || contains closure.headers "csrc/b.h") ≡ true)
    ↔ Reached tree ("csrc/a.cu" ∷ []) "csrc/b.h"
closure_paths-Reached_example =
    closure_paths-Reached tree ("csrc/a.cu" ∷ []) files within 4 (omega arith) closure closed
      "csrc/b.h"

closure_paths-ends_example :
    (c : Closure) × (closure_paths 4 tree ("csrc/a.cu" ∷ []) ≡ some c)
    × IsClosed tree ("csrc/a.cu" ∷ []) c
unfolding check_sources string_eq
closure_paths-ends_example =
    closure_paths-ends tree ("csrc/a.cu" ∷ []) inside files 4 within refl (omega arith)

-- `"a\"b\\"` behind its opening quote, and a line end behind it.
read_basic-escape_example :
    read_basic false (escape "a\"b\\" <> String.◌∷◌ quote "x") ≡ some ("a\"b\\", "x")
unfolding all_plain nat_eq
read_basic-escape_example = read_basic-escape "a\"b\\" "x" refl

-- Every line of a block is a statement of its own, whose operation is the whole line.
abbrev patterns : Patterns
patterns = record {
  block = λ line. if line == "BLOCK {" then some "ns" else none;
  call = λ text. some "def";
  strings = λ text. text ∷ [];
  without_strings = λ text. ";";
  op_name = λ text. some text;
  strip = λ text. text;
  partition = λ text. (text, "");
  mentions = λ word text. false;
}

abbrev tiers : Tiers
tiers = record {
  entries = entry_a ∷ entry_b ∷ [];
  compiled = "ported" ∷ [];
  hazards = ("cutlass", "needs CUTLASS") ∷ [];
}

abbrev pruner : Pruner
pruner = record { excluded = []; unclaimed = []; dropped = 0 }

abbrev excluded_b : ExcludedOp
excluded_b = record {
  namespace = "ns";
  name = "b";
  schema = "b";
  kind = "compute";
  tier = "later";
  reason = "needs CUTLASS";
}

abbrev pruner_b : Pruner
pruner_b = record { excluded = (("ns", "b"), excluded_b) ∷ []; unclaimed = []; dropped = 1 }

abbrev pruned_lines : List String
pruned_lines = "x" ∷ "BLOCK {" ∷ "a" ∷ "}" ∷ []

pruned :
    prune patterns tiers ("x" ∷ "BLOCK {" ∷ "a" ∷ "b" ∷ "}" ∷ []) pruner
    ≡ some (pruned_lines, pruner_b)
unfolding prune string_eq nat_eq owner_of lookup starts_with
pruned = refl

-- A statement of two lines.
abbrev long : Patterns
long = record patterns {
  without_strings = λ text. if text == "a" then "" else ";";
  op_name = λ text. some "a";
}

abbrev long_lines : List String
long_lines = "BLOCK {" ∷ "a" ∷ ";" ∷ "}" ∷ []

abbrev long_out : List String
long_out = "BLOCK {" ∷ "a;" ∷ "}" ∷ []

unpruned : prune long tiers long_lines pruner ≡ some (long_out, pruner)
unfolding prune string_eq nat_eq owner_of lookup starts_with
unpruned = refl

prune-unchanged_example : concat long_out ≡ concat long_lines
prune-unchanged_example = prune-unchanged long tiers long_lines long_out pruner pruner unpruned refl

distinct : IsDistinct (all_ops (entry_a ∷ entry_b ∷ []))
unfolding string_eq
distinct = (refl, (refl, (refl, tt)))

prune-excluded_example : all (is_undeclared patterns tiers) ((("ns", "b"), excluded_b) ∷ []) ≡ true
prune-excluded_example =
    prune-excluded patterns tiers ("x" ∷ "BLOCK {" ∷ "a" ∷ "b" ∷ "}" ∷ []) pruned_lines pruner
      pruner_b distinct pruned refl
