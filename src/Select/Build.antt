-- ===== src/Select/Build.antt =====
-- `build_fingerprint` and `validate_changes` of scripts/ci/ppu_ops_select.py.
use Prim.Native.Char.{code}
use vllm_sail.Base.{ℕ, String, Bool, true, false, not, ◌&&◌, ◌||◌, Option, none, some}
use vllm_sail.Base.{List, [], ◌∷◌, ◌==◌, string_eq, nat_eq, option_eq, all, select, if◌then◌else◌}
use vllm_sail.Base.Names.{Names, lookup}
use vllm_sail.Base.Sorting.{sorted_set}
use vllm_sail.Base.Failing.{◌>>=◌, ◌>>◌, require}
use vllm_sail.Select.Formats.{strings, is_safe_path, is_sha256, is_nonempty, digest_image, sha}
use vllm_sail.Select.Environment.{Fingerprint}

-- `text.split(";")`, the first word separately.
split_semicolons : String → String × List String
unfolding nat_eq
split_semicolons String.[] = (String.[], [])
split_semicolons (String.◌∷◌ c s) =
    let (word, words) = split_semicolons s in
    if code c == b';' then (String.[], word ∷ words) else (String.◌∷◌ c word, words)

-- `sorted(set(filter(None, text.split(";")))) or None`
abbrev or_none : List String → Option (List String)
or_none [] = none
or_none (x ∷ xs) = some (x ∷ xs)

architectures : String → Option (List String)
unfolding split_semicolons sorted_set
architectures s =
    let (word, words) = split_semicolons s in
    or_none (sorted_set (select is_nonempty (word ∷ words)))

-- `diagnostics.get(key, "")`
abbrev text_of : Option String → String
text_of none = ""
text_of (some s) = s

hash_of : Option String → Option String
unfolding is_sha256
hash_of o = if is_sha256 (text_of o) then some (text_of o) else none

-- `wheels` is `wheel_manifest.get("commits", {})`.
unfoldable pub build_fingerprint :
    Names String → Names String → String → String → String → Option Fingerprint
unfolding lookup option_eq string_eq hash_of architectures sha digest_image
build_fingerprint diagnostics wheels tested_sha expected_vllm_commit build_image = do
  _ ← sha tested_sha
  _ ← sha expected_vllm_commit
  _ ← digest_image build_image
  require (lookup "status" diagnostics == some "succeeded")
  require (lookup "vllm_commit" diagnostics == some expected_vllm_commit)
  require (lookup "vllm" wheels == some expected_vllm_commit)
  require (lookup "vllm_sail_commit" diagnostics == some tested_sha)
  require (lookup "vllm-sail" wheels == some tested_sha)
  require (lookup "build_image" diagnostics == some build_image)
  some (record {
    sdk_sha256 = hash_of (lookup "sdk_sha256" diagnostics);
    torch_sha256 = hash_of (lookup "torch_sha256" diagnostics);
    pytorch_sail_arch = architectures (text_of (lookup "pytorch_sail_arch" diagnostics));
    build_image = build_image;
    vllm_commit = expected_vllm_commit;
  })

pub record Changes : Type 0 where
  pub schema : ℕ
  pub base_sha : Option String
  pub head_sha : Option String
  pub tested_sha : String
  pub complete : Bool
  pub paths : List String
  pub reason : Option String

abbrev pub is_some : {A : Type 0} → Option A → Bool
is_some none = false
is_some (some a) = true

unfoldable pub optional_sha : Option String → Option (Unit {0})
unfolding sha
optional_sha none = some tt
optional_sha (some s) = sha s >>= λ _. some tt

unfoldable pub validate_changes : Changes → Option (Unit {0})
unfolding sha optional_sha strings is_safe_path option_eq nat_eq
validate_changes c = do
  require (c.schema == 1)
  _ ← sha c.tested_sha
  optional_sha c.base_sha
  optional_sha c.head_sha
  paths ← strings c.paths
  require (all (is_safe_path false) paths)
  require (
      if c.complete
      then is_some c.base_sha && is_some c.head_sha && not (is_some c.reason)
      else c.reason == some "no_pr_context" || c.reason == some "incomplete_diff")
