-- ===== src/Select/Config.antt =====
-- The test configuration that scripts/ci/ppu_ops_select.py reads, as `discover_catalog` leaves it.
use Prim.Native.Char.{code}
use vllm_sail.Base.{
  ℕ, nat_eq, String, Bool, true, false, ◌&&◌, ◌||◌, List, [], ◌∷◌, map, ◌==◌, string_eq,
}
use vllm_sail.Base.{leb, contains, any, select}
use vllm_sail.Base.Names.{Names}
use vllm_sail.Base.Sorting.{sorted}

-- The keys of `BOARDS`.
abbrev pub known_boards : List String
known_boards = "ppu10" ∷ "ppu15" ∷ []

pub record Rule : Type 0 where
  pub paths : List String
  pub prefixes : List String
  pub globs : List String

pub record SourceRule : Type 0 where
  pub id : String
  pub paths : List String
  pub test_ids : List String

-- `min_devices` is 1 where the item has none, and `board_overrides` has the boards of the functions
-- that differ.
pub record TestItem : Type 0 where
  pub id : String
  pub test : String
  pub boards : List String
  pub min_devices : ℕ
  pub board_overrides : Names (List String)
  pub requires : List String

-- `node_selector` is the value of its one entry, `board-type`.
pub record Profile : Type 0 where
  pub board : String
  pub runner_group : String
  pub node_selector : String
  pub nproc_per_node : ℕ
  pub group_count : ℕ

pub record Config : Type 0 where
  pub full : Rule
  pub no_effect : Rule
  pub source_to_tests : List SourceRule
  pub test_catalog : List TestItem
  pub execution_profiles : List Profile

-- `path.startswith(prefix)`
unfoldable pub starts_with : String → String → Bool
unfolding nat_eq
starts_with s String.[] = true
starts_with String.[] (String.◌∷◌ d t) = false
starts_with (String.◌∷◌ c s) (String.◌∷◌ d t) = code c == code d && starts_with s t

-- `matches`. `glob` is `fnmatch.fnmatchcase`, of which nothing is assumed.
unfoldable pub matches : (String → String → Bool) → String → Rule → Bool
unfolding string_eq starts_with
matches glob path rule =
    contains rule.paths path || any (starts_with path) rule.prefixes || any (glob path) rule.globs

-- `runnable_boards`
unfoldable pub runnable_boards : Config → TestItem → List String
unfolding string_eq sorted
runnable_boards c item = sorted (
    map (λ p. p.board)
      (select (λ p. contains item.boards p.board && leb item.min_devices p.nproc_per_node)
        c.execution_profiles))

abbrev pub is_runnable : Config → TestItem → Bool
is_runnable c item = elim (runnable_boards c item) [ [] ↦ false | b ∷ bs ↦ true ]
