-- ===== src/Runner/Evidence.antt =====
-- The checks of scripts/ci/ppu_ops_runner.py on what one test file leaves, and the selection that a
-- board runs.
use Prim.Native.Char.{code}
use vllm_sail.Base.{ℕ, String, ◌<>◌, Bool, true, false, not, Option, some}
use vllm_sail.Base.{
  List, [], ◌∷◌, ◌++◌, map, ◌==◌, Eq, string_eq, nat_eq, option_eq, list_eq, find_first,
  if◌then◌else◌,
}
use vllm_sail.Base.Sorting.{sorted, sorted_set}
use vllm_sail.Base.Failing.{◌>>=◌, ◌>>◌, require}
use vllm_sail.Select.Config.{Config}
use vllm_sail.Select.Choice.{Mode, catalog_ids}
use vllm_sail.Select.Routes.{Group, MatrixEntry, route_tests, group_eq, matrix_eq}
use vllm_sail.Select.Selection.{Selection}
use vllm_sail.Select.Validate.{mode_eq}
use vllm_sail.Runner.Nodes.{
  Entry, NodeReport, PosixPaths, split_colons, last_of, validate_node_report,
}

-- A JUnit document: whether some case failed, erred or was skipped, and each case's `classname` and
-- `name`, joined by a line feed, which neither has.
pub record JUnit : Type 0 where
  pub has_bad_case : Bool
  pub cases : List String

-- What a test file leaves: its node report, whether its log holds something, its JUnit document.
pub record Evidence : Type 0 where
  pub report : NodeReport
  pub has_log : Bool
  pub junit : JUnit

-- `parts[0][:-3].replace("/", ".")`
drop_suffix : String → String
drop_suffix String.[] = String.[]
drop_suffix (String.◌∷◌ a String.[]) = String.[]
drop_suffix (String.◌∷◌ a (String.◌∷◌ b String.[])) = String.[]
drop_suffix (String.◌∷◌ a (String.◌∷◌ b (String.◌∷◌ c String.[]))) = String.[]
drop_suffix (String.◌∷◌ a (String.◌∷◌ b (String.◌∷◌ c (String.◌∷◌ d s)))) =
    String.◌∷◌ a (drop_suffix (String.◌∷◌ b (String.◌∷◌ c (String.◌∷◌ d s))))

dotted : String → String
unfolding nat_eq
dotted String.[] = String.[]
dotted (String.◌∷◌ c s) =
    let rest = dotted s in if code c == b'/' then "." <> rest else String.◌∷◌ c rest

-- `".".join(words[:-1])` behind a first word.
abbrev join_all_but_last : String → List String → String
join_all_but_last first [] = first
join_all_but_last first (w ∷ []) = first
join_all_but_last first (w ∷ x ∷ ws) = join_all_but_last (first <> ("." <> w)) (x ∷ ws)

-- The case that JUnit has for a node.
unfoldable pub case_of : String → String
unfolding split_colons drop_suffix dotted
case_of node =
    let (word, words) = split_colons node in
    join_all_but_last (dotted (drop_suffix word)) words <> ("\n" <> last_of word words)

unfoldable pub validate_file_evidence : PosixPaths → Evidence → Entry → String → Option NodeReport
unfolding validate_node_report case_of sorted list_eq string_eq
validate_file_evidence x v e board = do
  validate_node_report x v.report e board
  require v.has_log
  require (not v.junit.has_bad_case)
  require (sorted v.junit.cases == sorted (map case_of v.report.applicable))
  some v.report

-- The selection that is run: the original one, or with all tests of a board whose environment is
-- not the one that was qualified.
pub record Effective : Type 0 where
  pub schema : ℕ
  pub original_selection_sha256 : String
  pub original_mode : Mode
  pub expanded_boards : List String
  pub groups : List Group
  pub matrix : List MatrixEntry
  pub test_ids : List String
  pub files : List String

Effective-discrete : Discrete Effective
unfolding mode_eq group_eq matrix_eq
Effective-discrete = hlevel (
  string_eq.dec,
  nat_eq.dec,
  mode_eq.dec,
  (list_eq ⦃e = string_eq⦄).dec,
  (list_eq ⦃e = group_eq⦄).dec,
  (list_eq ⦃e = matrix_eq⦄).dec,
)

instance unfoldable pub effective_eq : Eq Effective
unfolding Effective-discrete
effective_eq = record { dec = Effective-discrete }

abbrev concat : List (List String) → List String
concat [] = []
concat (xs ∷ xss) = xs ++ concat xss

unfoldable pub replace_group : String → Group → List Group → List Group
unfolding string_eq
replace_group board replacement groups =
    map (λ g. if g.board == board then replacement else g) groups

-- `groups`, where the board's tests are expanded: `next` raises where no group is the board's.
unfoldable pub expanded_groups : Config → List Group → String → Option (List Group)
unfolding route_tests replace_group string_eq
expanded_groups c groups board = do
  routes ← route_tests c (catalog_ids c)
  replacement ← find_first (λ g. g.board == board) routes.groups
  some (replace_group board replacement groups)

abbrev pub effective_groups : Config → List Group → String → Bool → Option (List Group)
effective_groups c groups board true = expanded_groups c groups board
effective_groups c groups board false = some groups

abbrev pub new_effective :
    (String → String) → Selection → String → String → Bool → List Group → Effective
new_effective checksum original bytes board expanded groups = record {
  schema = 1;
  original_selection_sha256 = checksum bytes;
  original_mode = original.choice.mode;
  expanded_boards = if expanded then board ∷ [] else [];
  groups = groups;
  matrix = original.routes.matrix;
  test_ids = sorted_set (concat (map (λ g. g.test_ids) groups));
  files = sorted_set (concat (map (λ g. g.files) groups));
}

unfoldable pub effective_selection :
    (String → String) → Config → Selection → String → String → Bool → Option Effective
unfolding expanded_groups sorted_set
effective_selection checksum c original bytes board expanded =
    effective_groups c original.routes.groups board expanded >>= λ groups.
    some (new_effective checksum original bytes board expanded groups)
