-- ===== src/Runner/Nodes.antt =====
-- `validate_node_report` of tests/support/ppu_ci.py: what a test file reports of its nodes.
use Prim.Native.Char.{code}
use vllm_sail.Base.{ℕ, String, ◌<>◌, Bool, true, false, ◌&&◌, not, Option, none, some}
use vllm_sail.Base.{
  List, [], ◌∷◌, ◌++◌, map, ◌==◌, string_eq, nat_eq, option_eq, list_eq, contains, all,
  if◌then◌else◌,
}
use vllm_sail.Base.Names.{Names, lookup}
use vllm_sail.Base.Sorting.{sorted_set}
use vllm_sail.Base.Failing.{◌>>◌, require}
use vllm_sail.Select.Config.{starts_with}
pub use vllm_sail.Select.Config.{TestItem as Entry}

-- A duration: a finite number that is not negative, or anything else.
pub data Duration : Type 0 where
  seconds : ℕ → Duration
  not_a_time : Duration

pub record Phase : Type 0 where
  pub outcome : String
  pub wasxfail : Option String
  pub duration_seconds : Duration

-- The paths that the test process saw.
pub record Runtime : Type 0 where
  pub paths : Names String
  pub isolated_root : String
  pub checkout_root : String
  pub runtime_env_is_expected : Bool

pub record NodeReport : Type 0 where
  pub schema : ℕ
  pub board : String
  pub file : String
  pub status : String
  pub exitstatus : ℕ
  pub errors : List String
  pub collected : List String
  pub applicable : List String
  pub hardware_excluded : List String
  pub nodes : Names (Names Phase)
  pub runtime : Runtime

-- `PurePosixPath`: `is_absolute`, `".." in parts`, `is_relative_to` and `/`.
pub record PosixPaths : Type 0 where
  pub is_absolute : String → Bool
  pub has_parent : String → Bool
  pub is_relative_to : String → String → Bool
  pub join : String → String → String

-- `text.split("::")`, the first word separately.
unfoldable pub split_colons : String → String × List String
unfolding nat_eq
split_colons String.[] = (String.[], [])
split_colons (String.◌∷◌ c String.[]) = (String.◌∷◌ c String.[], [])
split_colons (String.◌∷◌ c (String.◌∷◌ d s)) =
    let behind = split_colons s in
    let onward = split_colons (String.◌∷◌ d s) in
    if code c == b':' && code d == b':'
    then (String.[], behind.0 ∷ behind.1)
    else (String.◌∷◌ c onward.0, onward.1)

abbrev pub last_of : String → List String → String
last_of word [] = word
last_of word (w ∷ ws) = last_of w ws

-- `text.split("[", 1)[0]`
unfoldable pub before_bracket : String → String
unfolding nat_eq
before_bracket String.[] = String.[]
before_bracket (String.◌∷◌ c s) =
    if code c == b'[' then String.[] else String.◌∷◌ c (before_bracket s)

unfoldable pub function_of : String → String
unfolding split_colons before_bracket
function_of node = let (word, words) = split_colons node in before_bracket (last_of word words)

abbrev pub is_subset : List String → List String → Bool
is_subset xs ys = all (contains ys) xs

abbrev pub same_set : List String → List String → Bool
same_set xs ys = is_subset xs ys && is_subset ys xs

abbrev pub keys_of {ℓ} : {V : Type ℓ} → Names V → List String
keys_of d = map (λ e. e.0) d

abbrev pub values_of {ℓ} : {V : Type ℓ} → Names V → List V
values_of d = map (λ e. e.1) d

abbrev is_ordered_set : List String → Bool
is_ordered_set xs = xs == sorted_set xs

abbrev pub is_empty : List String → Bool
is_empty [] = true
is_empty (x ∷ xs) = false

-- The three lists of nodes divide what was collected.
unfoldable pub is_division : NodeReport → Bool
unfolding string_eq list_eq sorted_set
is_division r =
    is_ordered_set r.collected
    && is_ordered_set r.applicable
    && is_ordered_set r.hardware_excluded
    && not (is_empty r.applicable)
    && same_set r.collected (r.applicable ++ r.hardware_excluded)
    && all (λ n. not (contains r.hardware_excluded n)) r.applicable

-- `entry["board_overrides"].get(function, entry["boards"])`
abbrev boards_of : Entry → Option (List String) → List String
boards_of e none = e.boards
boards_of e (some boards) = boards

-- A node is applicable just where the board is one of its boards.
unfoldable pub is_placed : Entry → String → NodeReport → String → Bool
unfolding function_of starts_with lookup string_eq
is_placed e board r node =
    starts_with node (e.test <> "::")
    && (if contains r.applicable node
        then contains (boards_of e (lookup (function_of node) e.board_overrides)) board
        else not (contains (boards_of e (lookup (function_of node) e.board_overrides)) board))

abbrev pub is_timed : Duration → Bool
is_timed (seconds n) = true
is_timed not_a_time = false

unfoldable pub has_passed : Phase → Bool
unfolding string_eq option_eq
has_passed p = p.outcome == "passed" && p.wasxfail == none && is_timed p.duration_seconds

abbrev phase_names : List String
phase_names = "setup" ∷ "call" ∷ "teardown" ∷ []

unfoldable pub phases_passed : Names Phase → Bool
unfolding has_passed string_eq
phases_passed phases = same_set (keys_of phases) phase_names && all has_passed (values_of phases)

-- `RUNTIME_MODULES`
abbrev runtime_modules : List String
runtime_modules =
    "torch" ∷ "vllm" ∷ "vllm_sail" ∷ "vllm_sail.envs" ∷ "vllm.platforms"
    ∷ "vllm_sail.native.extensions" ∷ "vllm_sail._C" ∷ "vllm_sail._moe_C" ∷ "vllm_sail._upstream_C"
    ∷ "vllm_sail._upstream_moe_C" ∷ []

module _ (x : PosixPaths) where
  is_installed : Runtime → Option String → Bool
  is_installed t none = false
  is_installed t (some path) =
      x.is_absolute path
      && not (x.has_parent path)
      && not (x.is_relative_to path t.isolated_root)
      && not (x.is_relative_to path t.checkout_root)

  -- The modules under test come from where they are installed, the helpers from the isolated tree.
  unfoldable pub is_isolated : Entry → Runtime → Bool
  unfolding is_installed lookup string_eq option_eq
  is_isolated e t =
      let required = e.requires ++ runtime_modules in
      is_subset (required ++ ("plugin" ∷ "conftest" ∷ [])) (keys_of t.paths)
      && x.is_absolute t.isolated_root
      && x.is_absolute t.checkout_root
      && not (x.is_relative_to t.isolated_root t.checkout_root)
      && all (λ name. is_installed t (lookup name t.paths)) required
      && lookup "plugin" t.paths == some (x.join t.isolated_root "tests/support/ppu_ci.py")
      && lookup "conftest" t.paths == some (x.join t.isolated_root "tests/conftest.py")
      && t.runtime_env_is_expected

  unfoldable pub validate_node_report : NodeReport → Entry → String → Option (Unit {0})
  unfolding is_division is_placed phases_passed is_isolated string_eq nat_eq
  validate_node_report r e board = do
    require (r.schema == 1 && r.board == board)
    require (r.file == e.test)
    require (r.status == "success" && r.exitstatus == 0 && is_empty r.errors)
    require (is_division r)
    require (all (is_placed e board r) r.collected)
    require (is_subset (keys_of e.board_overrides) (map function_of r.collected))
    require (same_set (keys_of r.nodes) r.applicable)
    require (all phases_passed (values_of r.nodes))
    require (is_isolated e r.runtime)
