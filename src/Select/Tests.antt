-- ===== src/Select/Tests.antt =====
-- A small configuration of tests and the theorems on selections at it.
use vllm_sail.Base.{String, ◌≡◌, refl, Bool, true, false, Option, none, some}
use vllm_sail.Base.{[], ◌∷◌, nat_eq, string_eq, option_eq, contains, any}
use vllm_sail.Base.Sorting.{put_in_order, str_ltb, add}
use vllm_sail.Base.{ℕ, List}
use vllm_sail.Select.Config.{TestItem, Config, Profile, runnable_boards}
use vllm_sail.Select.Choice.{Choice, none_mode, full_mode, select_tests}
use vllm_sail.Select.Choice.Exact.{
  asks_for, forces_full, is_full, select_tests-is_full, select_tests-test_ids,
}
use vllm_sail.Select.Routes.{Routes, route_tests}
use vllm_sail.Select.Selection.{Outside, Selection}
use vllm_sail.Select.Validate.{validate_selection}
use vllm_sail.Select.Trust.{IsTrusted, validate_selection-IsTrusted}
use vllm_sail.Select.Routes.Partition.{assigns, route_tests-assigns}

abbrev profile : String → String → Profile
profile board selector = record {
  board = board;
  runner_group = "k8s-runner-group-cpu-thead";
  node_selector = selector;
  nproc_per_node = 1;
  group_count = 1;
}

abbrev item : String → String → List String → ℕ → TestItem
item id test boards devices = record {
  id = id;
  test = test;
  boards = boards;
  min_devices = devices;
  board_overrides = [];
  requires = [];
}

abbrev pub config : Config
config = record {
  full = record { paths = "setup.py" ∷ []; prefixes = "csrc/" ∷ []; globs = [] };
  no_effect = record { paths = "README.md" ∷ []; prefixes = []; globs = [] };
  source_to_tests = record { id = "r"; paths = "a.py" ∷ []; test_ids = "one" ∷ "two" ∷ [] } ∷ [];
  test_catalog =
      item "one" "t/one.py" ("ppu10" ∷ "ppu15" ∷ []) 1
      ∷ item "two" "t/two.py" ("ppu15" ∷ []) 1
      ∷ item "big" "t/big.py" ("ppu15" ∷ []) 8
      ∷ [];
  execution_profiles = profile "ppu10" "OAM-810E" ∷ profile "ppu15" "ZW-M890P" ∷ [];
}

abbrev no_glob : String → String → Bool
no_glob path pattern = false

abbrev choice_of : Option Choice → Choice
choice_of (some ch) = ch
choice_of none = record {
  mode = none_mode;
  test_ids = [];
  files = [];
  reasons = [];
  matched_rule_ids = [];
  unmapped_files = [];
}

abbrev chosen : Choice
chosen = choice_of (select_tests no_glob config ("a.py" ∷ "README.md" ∷ []) true false true)

abbrev routes_of : Option Routes → Routes
routes_of (some r) = r
routes_of none = record { groups = []; matrix = [] }

abbrev routed : Routes
routed = routes_of (route_tests config ("one" ∷ "two" ∷ []))

select_tests-is_full_example : is_full chosen.mode ≡ false
unfolding select_tests string_eq nat_eq option_eq forces_full asks_for
select_tests-is_full_example =
    select_tests-is_full no_glob config ("a.py" ∷ "README.md" ∷ []) true false true chosen refl

select_tests-test_ids_example : contains chosen.test_ids "two" ≡ true
unfolding select_tests string_eq nat_eq option_eq forces_full asks_for runnable_boards put_in_order
    str_ltb add
select_tests-test_ids_example =
    select_tests-test_ids no_glob config ("a.py" ∷ "README.md" ∷ []) true false true chosen refl
      "two"

route_tests-assigns_example : any (assigns "ppu10" "two") routed.groups ≡ false
unfolding route_tests string_eq nat_eq put_in_order
route_tests-assigns_example =
    route_tests-assigns config ("one" ∷ "two" ∷ []) routed refl "ppu10" "two"

abbrev pub commit : String
commit = "0123456789abcdef0123456789abcdef01234567"

abbrev pub image : String
image = "i@sha256:0123456789abcdef0123456789abcdef0123456789abcdef0123456789abcdef"

abbrev pub outside : Outside
outside = record {
  glob = no_glob;
  lower = λ s. s;
  checksum = λ s. s;
  config_of = λ s. some config;
  environment_of = λ s. some (record {
    schema = 1;
    qualified = false;
    build = none;
    runtime_image = none;
    profiles = [];
    evidence = [];
  });
}

-- A full selection that a change of `setup.py` makes.
abbrev pub selection : Selection
selection = record {
  schema = 1;
  choice = record {
    mode = full_mode;
    test_ids = "one" ∷ "two" ∷ [];
    files = "t/one.py" ∷ "t/two.py" ∷ [];
    reasons = "environment_unqualified" ∷ "global_dependency" ∷ "insufficient_devices" ∷ [];
    matched_rule_ids = [];
    unmapped_files = [];
  };
  routes = routed;
  base_sha = some commit;
  head_sha = some commit;
  tested_sha = commit;
  changed_files = "setup.py" ∷ [];
  build_run_id = "7";
  config_sha256 = "config";
  environment_sha256 = "environment";
  build_fingerprint = record {
    sdk_sha256 = none;
    torch_sha256 = none;
    pytorch_sail_arch = none;
    build_image = image;
    vllm_commit = commit;
  };
  runtime_image = image;
}

validate_selection-IsTrusted_example : IsTrusted outside config selection routed
unfolding validate_selection route_tests string_eq nat_eq put_in_order add str_ltb
validate_selection-IsTrusted_example =
    validate_selection-IsTrusted outside selection "config" "environment" commit "7" image image
      commit config routed refl refl
