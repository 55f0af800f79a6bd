-- ===== src/Select/Routes.antt =====
-- `validate_profiles` and `route_tests` of scripts/ci/ppu_ops_select.py.
pub mod Partition
use vllm_sail.Base.{ℕ, String, Bool, true, false, not, ◌&&◌, ◌||◌, Option, none, some, ◌<>◌}
use vllm_sail.Base.{
  List, [], ◌∷◌, ◌++◌, map, ◌==◌, Eq, string_eq, nat_eq, list_eq, contains, any, all, select,
  if◌then◌else◌,
}
use vllm_sail.Base.Sorting.{sorted, sorted_set}
use vllm_sail.Base.Failing.{◌>>=◌, ◌>>◌, require}
use vllm_sail.Select.Config.{Config, Profile, TestItem, known_boards, runnable_boards}

-- `BOARDS[board]`, for a key of `BOARDS`.
abbrev board_name : String → String
board_name board = if board == "ppu10" then "OAM-810E" else "ZW-M890P"

abbrev is_subset : List String → List String → Bool
is_subset xs ys = all (contains ys) xs

is_valid_profile : Profile → Bool
unfolding string_eq nat_eq
is_valid_profile p =
    p.runner_group == "k8s-runner-group-cpu-thead"
    && p.node_selector == board_name p.board
    && p.nproc_per_node == 1
    && p.group_count == 1

unfoldable pub validate_profiles : List Profile → Option (Unit {0})
unfolding is_valid_profile
validate_profiles ps = do
  let boards = map (λ p. p.board) ps
  require (is_subset boards known_boards && is_subset known_boards boards)
  require (all is_valid_profile ps)

pub record Group : Type 0 where
  pub group_id : String
  pub board : String
  pub test_ids : List String
  pub files : List String

pub record MatrixEntry : Type 0 where
  pub group_id : String
  pub board : String
  pub nproc_per_node : ℕ

pub record Routes : Type 0 where
  pub groups : List Group
  pub matrix : List MatrixEntry

Group-discrete : Discrete Group
Group-discrete = hlevel (string_eq.dec, (list_eq ⦃e = string_eq⦄).dec)

MatrixEntry-discrete : Discrete MatrixEntry
MatrixEntry-discrete = hlevel (string_eq.dec, nat_eq.dec)

instance unfoldable pub group_eq : Eq Group
unfolding Group-discrete
group_eq = record { dec = Group-discrete }

instance unfoldable pub matrix_eq : Eq MatrixEntry
unfolding MatrixEntry-discrete
matrix_eq = record { dec = MatrixEntry-discrete }

-- `{t["id"]: t for t in catalog}.get(id)`: of two items with one id the later counts.
unfoldable pub by_id : String → List TestItem → Option TestItem
unfolding string_eq
by_id id [] = none
by_id id (t ∷ ts) = elim (by_id id ts) [
  | some u ↦ some u
  | none ↦ if id == t.id then some t else none
]

abbrev is_item : Option TestItem → Bool
is_item none = false
is_item (some t) = true

abbrev has_route : Option TestItem → Bool
has_route none = false
has_route (some t) = not (is_empty t.boards) && is_subset t.boards known_boards
  where
    is_empty : List String → Bool
    is_empty [] = true
    is_empty (b ∷ bs) = false

-- `board in runnable_boards(config, catalog[id])`
abbrev pub runs_item : Config → String → Option TestItem → Bool
runs_item c board none = false
runs_item c board (some t) = contains (runnable_boards c t) board

unfoldable pub runs_on : Config → String → String → Bool
unfolding by_id runnable_boards
runs_on c board id = runs_item c board (by_id id c.test_catalog)

abbrev file_of : Option TestItem → List String
file_of none = []
file_of (some t) = t.test ∷ []

abbrev files_of : Config → List String → List String
files_of c [] = []
files_of c (id ∷ ids) = file_of (by_id id c.test_catalog) ++ files_of c ids

abbrev pub ids_on : Config → List String → String → List String
ids_on c test_ids board = sorted_set (select (runs_on c board) test_ids)

abbrev new_group : Config → String → List String → Group
new_group c board ids = record {
  group_id = board <> "-0";
  board = board;
  test_ids = ids;
  files = sorted (files_of c ids);
}

abbrev group_of : Config → String → List String → List Group
group_of c board [] = []
group_of c board (id ∷ ids) = new_group c board (id ∷ ids) ∷ []

abbrev matrix_of : Group → MatrixEntry
matrix_of g = record { group_id = g.group_id; board = g.board; nproc_per_node = 1 }

unfoldable pub groups_for : Config → List String → List String → List Group
unfolding sorted sorted_set runs_on
groups_for c test_ids [] = []
groups_for c test_ids (board ∷ boards) =
    group_of c board (ids_on c test_ids board) ++ groups_for c test_ids boards

-- The boards are taken in the order of `sorted(BOARDS)`.
unfoldable pub route_tests : Config → List String → Option Routes
unfolding validate_profiles groups_for
route_tests c test_ids = do
  validate_profiles c.execution_profiles
  require (all (λ id. is_item (by_id id c.test_catalog)) test_ids)
  require (all (λ id. has_route (by_id id c.test_catalog)) test_ids)
  let groups = groups_for c test_ids known_boards
  some (record { groups = groups; matrix = map matrix_of groups })
