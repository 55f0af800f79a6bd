-- ===== src/Select/Choice.antt =====
-- `select_tests` of scripts/ci/ppu_ops_select.py. A set is the list of what was added to it, and is
-- sorted where the code sorts it.
mod Loop
pub mod Exact
use vllm_sail.Base.{String, Bool, true, false, not, ◌&&◌, ◌||◌, Option, none, some}
use vllm_sail.Base.{
  List, [], ◌∷◌, ◌++◌, map, ◌==◌, string_eq, contains, any, all, select, if◌then◌else◌,
}
use vllm_sail.Base.Sorting.{sorted, sorted_set}
use vllm_sail.Base.Failing.{◌>>=◌, ◌>>◌, require}
use vllm_sail.Select.Formats.{is_safe_path}
use vllm_sail.Select.Config.{Config, TestItem, is_runnable}
unfoldable pub use Loop.*

pub data Mode : Type 0 where
  full_mode subset_mode none_mode : Mode

pub record Choice : Type 0 where
  pub mode : Mode
  pub test_ids : List String
  pub files : List String
  pub reasons : List String
  pub matched_rule_ids : List String
  pub unmapped_files : List String

abbrev pub catalog_ids : Config → List String
catalog_ids c = map (λ t. t.id) c.test_catalog

abbrev pub runnable_ids : Config → List String
runnable_ids c = map (λ t. t.id) (select (is_runnable c) c.test_catalog)

abbrev is_empty : List String → Bool
is_empty [] = true
is_empty (x ∷ xs) = false

abbrev pub mode_of : Bool → List String → Mode
mode_of true ids = full_mode
mode_of false [] = none_mode
mode_of false (x ∷ xs) = subset_mode

-- `reasons or {"no_device_changes"}`
abbrev or_no_changes : List String → List String
or_no_changes [] = "no_device_changes" ∷ []
or_no_changes (x ∷ xs) = x ∷ xs

-- What the code does behind its loop over the paths.
unfoldable pub conclude : Config → Choosing → Choice
unfolding string_eq sorted sorted_set
conclude c s =
    let chosen = if s.full then catalog_ids c else s.selected in
    let ids = sorted_set (select (contains (runnable_ids c)) chosen) in
    let reasons =
      if any (λ i. not (contains (runnable_ids c) i)) chosen
      then "insufficient_devices" ∷ s.reasons
      else s.reasons in
    record {
      mode = mode_of s.full ids;
      test_ids = ids;
      files = sorted (map (λ t. t.test) (select (λ t. contains ids t.id) c.test_catalog));
      reasons = sorted_set (or_no_changes reasons);
      matched_rule_ids = sorted_set s.matched;
      unmapped_files = sorted_set s.unmapped;
    }

-- The state in which the loop starts.
abbrev pub initial : Bool → Bool → Bool → Choosing
initial diff_complete force_full environment_matches = record {
  selected = [];
  reasons =
      (if force_full then "forced_full" ∷ [] else [])
      ++ ((if diff_complete then [] else "incomplete_diff" ∷ [])
          ++ (if environment_matches then [] else "environment_changed" ∷ []));
  matched = [];
  unmapped = [];
  full = force_full || not diff_complete || not environment_matches;
}

unfoldable pub select_tests :
    (String → String → Bool) → Config → List String → Bool → Bool → Bool → Option Choice
unfolding conclude scan is_safe_path sorted_set
select_tests glob c paths diff_complete force_full environment_matches = do
  require (all (is_safe_path false) paths)
  some (
      conclude c
        (scan glob c (sorted_set paths) (initial diff_complete force_full environment_matches)))
