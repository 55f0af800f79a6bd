-- ===== src/Native/Manifest.antt =====
-- The kernel corpus manifest, vllm_sail/native/manifest.py. Every failure is a `ManifestError`, which is
-- `none` here. The texts and lists of the TOML file have their types already, and a key that is
-- missing has the empty value, as the code's `or` gives it.
use vllm_sail.Base.{ℕ, String, Bool, true, false, not, ◌&&◌, Option, none, some}
use vllm_sail.Base.{
  List, [], ◌∷◌, ◌++◌, map, ◌==◌, string_eq, nat_eq, option_eq, contains, all, select,
}
use vllm_sail.Base.Names.{Names}
use vllm_sail.Base.Sorting.{sorted_set}
use vllm_sail.Base.Failing.{◌>>=◌, ◌>>◌, require}

pub record Entry : Type 0 where
  pub path : String
  pub tier : String
  pub hazards : List String
  pub ops : List String
  pub notes : String

-- Of `replace_text`, what is no table, and a value that is no text, is `none`.
pub record Manifest : Type 0 where
  pub upstream_ref : String
  pub tiers : Names String
  pub hazards : Names String
  pub compiled_tiers : List String
  pub entries : List Entry
  pub drop_includes : List String
  pub prune_bindings : List String
  pub rename_extension : Names String
  pub replace_text : Names (Option (Names (Option String)))

abbrev pub keys {ℓ} : {V : Type ℓ} → Names V → List String
keys d = map (λ e. e.0) d

-- `of_tier`
unfoldable pub of_tier : Manifest → List String → Option (List Entry)
unfolding string_eq
of_tier m tiers = do
  require (all (contains (keys m.tiers)) tiers)
  some (select (λ e. contains tiers e.tier) m.entries)

-- `compiled`
unfoldable pub compiled : Manifest → Option (List Entry)
unfolding of_tier
compiled m = of_tier m m.compiled_tiers

-- `excluded`
unfoldable pub excluded : Manifest → List Entry
unfolding string_eq
excluded m = select (λ e. not (contains m.compiled_tiers e.tier)) m.entries

-- `op for e in chosen for op in e.ops`
abbrev pub all_ops : List Entry → List String
all_ops [] = []
all_ops (e ∷ es) = e.ops ++ all_ops es

-- `ops`, of chosen entries.
unfoldable pub ops : List Entry → List String
unfolding sorted_set
ops chosen = sorted_set (all_ops chosen)

-- `excluded_ops`
unfoldable pub excluded_ops : Manifest → List String
unfolding ops excluded
excluded_ops m = ops (excluded m)

abbrev pub all_hazards : List Entry → List String
all_hazards [] = []
all_hazards (e ∷ es) = e.hazards ++ all_hazards es

-- `hazards_of`
unfoldable pub hazards_of : List Entry → List String
unfolding sorted_set
hazards_of chosen = sorted_set (all_hazards chosen)

-- The parsed file. `schema` is `none` where it is no number.
pub record Raw : Type 0 where
  pub schema : Option ℕ
  pub upstream_ref : String
  pub tiers : Names String
  pub hazards : Names String
  pub compiled_tiers : List String
  pub entry : List Entry
  pub drop_includes : List String
  pub prune_bindings : List String
  pub rename_extension : Names String
  pub replace_text : Names (Option (Names (Option String)))

abbrev pub is_empty {ℓ} : {A : Type ℓ} → List A → Bool
is_empty [] = true
is_empty (x ∷ xs) = false

-- `seen.add(x)` for each of some texts, none of which may be seen already.
unfoldable pub claim : List String → List String → Option (List String)
unfolding string_eq
claim seen [] = some seen
claim seen (x ∷ xs) = require (not (contains seen x)) >> claim (x ∷ seen) xs

-- `_check_unique`, from the paths seen and the operations owned so far.
unfoldable pub check_unique : List String → List String → List Entry → Option (Unit {0})
unfolding claim string_eq
check_unique seen_paths owner [] = some tt
check_unique seen_paths owner (e ∷ es) = do
  require (not (contains seen_paths e.path))
  owned ← claim owner e.ops
  check_unique (e.path ∷ seen_paths) owned es

-- `_check_compiled`
unfoldable pub check_compiled : List String → List Entry → Option (Unit {0})
unfolding string_eq
check_compiled tiers es =
    require (all (λ e. not (contains tiers e.tier && contains e.hazards "cutlass")) es)

abbrev pub is_text : Option String → Bool
is_text none = false
is_text (some t) = true

abbrev pub is_edit : String × Option String → Bool
is_edit (before, after) = not (before == "") && is_text after

-- The checks of one table of `replace_text`.
abbrev pub is_replacement : Option (Names (Option String)) → Bool
is_replacement none = false
is_replacement (some edits) = not (is_empty edits) && all is_edit edits

-- `strip` is `str.strip`, of which nothing is assumed.
module _ (strip : String → String) where
  -- `_entry`
  unfoldable pub entry : Names String → Names String → Entry → Option Entry
  unfolding string_eq
  entry tiers hazards item = do
    require (not (strip item.path == ""))
    require (contains (keys tiers) item.tier)
    require (all (contains (keys hazards)) item.hazards)
    some (record item { path = strip item.path })

  unfoldable pub entries : Names String → Names String → List Entry → Option (List Entry)
  unfolding entry
  entries tiers hazards [] = some []
  entries tiers hazards (item ∷ items) = do
    e ← entry tiers hazards item
    es ← entries tiers hazards items
    some (e ∷ es)

  -- `load`, of a file that is parsed; `none` is one that is missing or no TOML.
  unfoldable pub load : Option Raw → Option Manifest
  unfolding entries check_unique check_compiled nat_eq option_eq string_eq
  load none = none
  load (some raw) = do
    require (raw.schema == some 1)
    require (not (strip raw.upstream_ref == ""))
    require (not (is_empty raw.tiers))
    require (not (is_empty raw.compiled_tiers))
    require (all (contains (keys raw.tiers)) raw.compiled_tiers)
    es ← entries raw.tiers raw.hazards raw.entry
    require (not (is_empty es))
    check_unique [] [] es
    check_compiled raw.compiled_tiers es
    require (all (λ r. is_replacement (r.1)) raw.replace_text)
    require (all (contains (map (λ e. e.path) es)) raw.prune_bindings)
    some (record {
      upstream_ref = strip raw.upstream_ref;
      tiers = raw.tiers;
      hazards = raw.hazards;
      compiled_tiers = raw.compiled_tiers;
      entries = es;
      drop_includes = raw.drop_includes;
      prune_bindings = raw.prune_bindings;
      rename_extension = raw.rename_extension;
      replace_text = raw.replace_text;
    })
