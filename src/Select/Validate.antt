-- ===== src/Select/Validate.antt =====
-- `validate_selection` of scripts/ci/ppu_ops_select.py.
use vllm_sail.Base.{String, Bool, true, false, not, ◌&&◌, Option, some}
use vllm_sail.Base.{
  List, [], ◌∷◌, ◌++◌, map, ◌==◌, Eq, string_eq, nat_eq, list_eq, option_eq, contains, all, select,
}
use vllm_sail.Base.Sorting.{sorted}
use vllm_sail.Base.Failing.{◌>>=◌, ◌>>◌, require}
use vllm_sail.Select.Formats.{strings, is_safe_path, digest_image, decimal, sha}
use vllm_sail.Select.Config.{Config}
use vllm_sail.Select.Choice.{
  Mode, full_mode, subset_mode, none_mode, Choice, runnable_ids, select_tests,
}
use vllm_sail.Select.Routes.{Routes, group_eq, matrix_eq, route_tests}
use vllm_sail.Select.Environment.{fingerprint_eq, validate_environment}
use vllm_sail.Select.Build.{is_some, optional_sha}
use vllm_sail.Select.Selection.{Outside, Selection, environment_matches}

-- `strings(value) == sorted(value)`
unfoldable pub ordered_strings : List String → Option (Unit {0})
unfolding strings sorted list_eq string_eq
ordered_strings xs = do ys ← strings xs; require (ys == sorted xs)

unfoldable pub check_lists : Choice → List String → Option (Unit {0})
unfolding ordered_strings is_safe_path
check_lists ch changed_files = do
  ordered_strings ch.test_ids
  ordered_strings ch.files
  ordered_strings ch.reasons
  ordered_strings ch.matched_rule_ids
  ordered_strings changed_files
  ordered_strings ch.unmapped_files
  require (all (is_safe_path false) (ch.files ++ (changed_files ++ ch.unmapped_files)))

-- `bool(test_ids)`
abbrev pub has_tests : List String → Bool
has_tests [] = false
has_tests (x ∷ xs) = true

abbrev pub mode_fits : Mode → List String → Bool
mode_fits full_mode ids = true
mode_fits subset_mode ids = has_tests ids
mode_fits none_mode ids = not (has_tests ids)

Mode-discrete : Discrete Mode
Mode-discrete = hlevel

instance unfoldable pub mode_eq : Eq Mode
unfolding Mode-discrete
mode_eq = record { dec = Mode-discrete }

abbrev pub same_choice : Choice → Choice → Bool
same_choice a b =
    a.mode == b.mode
    && a.test_ids == b.test_ids
    && a.files == b.files
    && a.reasons == b.reasons
    && a.matched_rule_ids == b.matched_rule_ids
    && a.unmapped_files == b.unmapped_files

-- What a selection that is not full needs. `repeated` is `select_tests` over the changed files.
unfoldable pub check_partial : Bool → Bool → Selection → Option Choice → Option (Unit {0})
unfolding list_eq string_eq
check_partial qualified matching s repeated = do
  require (qualified && matching)
  require (is_some s.base_sha && is_some s.head_sha)
  expected ← repeated
  require (same_choice s.choice expected)

-- The checks that depend on the mode.
unfoldable pub check_mode : Outside → Config → Bool → Bool → Selection → Mode → Option (Unit {0})
unfolding sorted check_partial select_tests list_eq string_eq
check_mode o c qualified matching s full_mode =
    require (s.choice.test_ids == sorted (runnable_ids c))
check_mode o c qualified matching s subset_mode =
    check_partial qualified matching s (select_tests o.glob c s.changed_files true false true)
check_mode o c qualified matching s none_mode =
    check_partial qualified matching s (select_tests o.glob c s.changed_files true false true)

-- `expected_files`
abbrev pub files_of_ids : Config → List String → List String
files_of_ids c ids = sorted (map (λ t. t.test) (select (λ t. contains ids t.id) c.test_catalog))

unfoldable pub validate_selection :
    Outside
    → Selection
    → String
    → String
    → String
    → String
    → String
    → String
    → String
    → Option Routes
unfolding validate_environment check_lists route_tests check_mode sha decimal digest_image
    optional_sha option_eq string_eq nat_eq list_eq group_eq matrix_eq fingerprint_eq
validate_selection o s config_bytes environment_bytes tested_sha build_run_id build_image
      runtime_image expected_vllm_commit =
    do
      require (s.schema == 1)
      tested ← sha tested_sha
      require (s.tested_sha == tested)
      run ← decimal build_run_id
      require (s.build_run_id == run)
      image ← digest_image runtime_image
      require (s.runtime_image == image)
      require (s.config_sha256 == o.checksum config_bytes)
      require (s.environment_sha256 == o.checksum environment_bytes)
      config ← o.config_of config_bytes
      environment ← o.environment_of environment_bytes
      qualified ← validate_environment o.lower environment
      optional_sha s.base_sha
      optional_sha s.head_sha
      check_lists s.choice s.changed_files
      routes ← route_tests config s.choice.test_ids
      require (s.routes.groups == routes.groups && s.routes.matrix == routes.matrix)
      require (s.choice.files == files_of_ids config s.choice.test_ids)
      require (mode_fits s.choice.mode s.choice.test_ids)
      build ← digest_image build_image
      require (s.build_fingerprint.build_image == build)
      commit ← sha expected_vllm_commit
      require (s.build_fingerprint.vllm_commit == commit)
      check_mode o config qualified
          (environment_matches true environment s.build_fingerprint runtime_image) s s.choice.mode
      some routes
