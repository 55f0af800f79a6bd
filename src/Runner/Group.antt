-- ===== src/Runner/Group.antt =====
-- `validate_group` and `validate_results` of scripts/ci/ppu_ops_runner.py: what the devices left is
-- checked against the plan.
use vllm_sail.Base.{ℕ, String, Bool, true, false, ◌&&◌, ◌||◌, not, Option, none, some}
use vllm_sail.Base.{
  List, [], ◌∷◌, map, ◌==◌, Eq, string_eq, nat_eq, option_eq, list_eq, all, find_first,
  if◌then◌else◌,
}
use vllm_sail.Base.Names.{Names}
use vllm_sail.Base.Sorting.{sorted}
use vllm_sail.Base.Failing.{◌>>=◌, ◌>>◌, require}
use vllm_sail.Select.Config.{Config}
use vllm_sail.Select.Choice.{Choice}
use vllm_sail.Select.Routes.{by_id, Group, Routes, group_eq, matrix_eq}
use vllm_sail.Select.Formats.{decimal}
use vllm_sail.Select.Environment.{
  Fingerprint, fingerprint_eq, RuntimeProfile, is_valid_runtime_profile,
}
use vllm_sail.Select.Build.{build_fingerprint}
use vllm_sail.Select.Selection.{Selection}
use vllm_sail.Select.Validate.{mode_eq}
use vllm_sail.Runner.Nodes.{Duration, is_timed, PosixPaths}
use vllm_sail.Runner.Evidence.{
  Evidence, Effective, effective_eq, validate_file_evidence, effective_selection,
}

-- The fields by which every report names its run.
pub record Identity : Type 0 where
  pub schema : ℕ
  pub run_id : String
  pub run_attempt : String
  pub group_id : String
  pub board : String
  pub tested_sha : String

pub record Summary : Type 0 where
  pub identity : Identity
  pub status : String
  pub failure_stage : Option String
  pub reason : Option String

-- The expansion flag is a Boolean here by its type.
pub record EnvironmentReport : Type 0 where
  pub identity : Identity
  pub profile : RuntimeProfile
  pub runtime_image : String
  pub expanded : Bool
  pub expansion_reason : Option String

pub record FileRecord : Type 0 where
  pub test_id : String
  pub file : String
  pub outcome : String
  pub duration_seconds : Duration

-- `phases` has the five fields; `none` is `null`.
pub record Timings : Type 0 where
  pub identity : Identity
  pub config_sha256 : String
  pub build_fingerprint : Fingerprint
  pub runtime_image : String
  pub nproc_per_node : ℕ
  pub phases : List (Option Duration)
  pub has_timing_error : Bool
  pub files : List FileRecord
  pub device_script_seconds : Option Duration

-- The directory of one group.
pub record Directory : Type 0 where
  pub summary : Summary
  pub environment : EnvironmentReport
  pub timings : Timings
  pub selection : Selection
  pub effective : Effective
  pub evidence : String → Option Evidence
  pub diagnostics : Names String
  pub wheels : Names String

-- What lies outside the script: `json.loads` of a selection, SHA-256, `str.lower` and paths.
pub record RunSetting : Type 0 where
  pub selection_of : String → Option Selection
  pub checksum : String → String
  pub lower : String → String
  pub posix : PosixPaths

Identity-discrete : Discrete Identity
Identity-discrete = hlevel (string_eq.dec, nat_eq.dec)

instance unfoldable pub identity_eq : Eq Identity
unfolding Identity-discrete
identity_eq = record { dec = Identity-discrete }

Choice-discrete : Discrete Choice
unfolding mode_eq
Choice-discrete = hlevel (mode_eq.dec, (list_eq ⦃e = string_eq⦄).dec)

Routes-discrete : Discrete Routes
unfolding group_eq matrix_eq
Routes-discrete = hlevel ((list_eq ⦃e = group_eq⦄).dec, (list_eq ⦃e = matrix_eq⦄).dec)

Selection-discrete : Discrete Selection
unfolding Choice-discrete Routes-discrete fingerprint_eq option_eq
Selection-discrete = hlevel (
  string_eq.dec,
  nat_eq.dec,
  Choice-discrete,
  Routes-discrete,
  fingerprint_eq.dec,
  (list_eq ⦃e = string_eq⦄).dec,
  (option_eq ⦃e = string_eq⦄).dec,
)

instance unfoldable pub selection_eq : Eq Selection
unfolding Selection-discrete
selection_eq = record { dec = Selection-discrete }

-- `(value is None and bool(timing_error)) or …`
abbrev pub phase_ok : Bool → Option Duration → Bool
phase_ok has_error none = has_error
phase_ok has_error (some d) = is_timed d

abbrev pub succeeded : Summary → Bool
succeeded s = s.status == "success" && s.failure_stage == none && s.reason == none

abbrev pub expansion_reason : Bool → Option String
expansion_reason expanded = if expanded then some "runtime_environment_changed" else none

abbrev pub plan_identity : Selection → Group → String → String → Identity
plan_identity original planned run attempt = record {
  schema = 1;
  run_id = run;
  run_attempt = attempt;
  group_id = planned.group_id;
  board = planned.board;
  tested_sha = original.tested_sha;
}

abbrev pub has_any : List String → Bool
has_any [] = false
has_any (g ∷ gs) = true

module _ (x : RunSetting) (c : Config) where
  -- The record of a test file, its entry in the catalog, and what the file left.
  unfoldable pub check_file : Directory → String → FileRecord → Option (Unit {0})
  unfolding validate_file_evidence by_id string_eq
  check_file d board r = do
    entry ← by_id r.test_id c.test_catalog
    require (r.file == entry.test && r.outcome == "success")
    require (is_timed r.duration_seconds)
    evidence ← d.evidence entry.id
    _ ← validate_file_evidence x.posix evidence entry board
    some tt

  unfoldable pub check_files : Directory → String → List FileRecord → Option (Unit {0})
  unfolding check_file
  check_files d board [] = some tt
  check_files d board (r ∷ rs) = check_file d board r >> check_files d board rs

  -- The checks behind the identities, in their order.
  unfoldable pub check_reports : Selection → String → Directory → Group → Bool → Option (Unit {0})
  unfolding check_files effective_selection is_valid_runtime_profile build_fingerprint selection_eq
      effective_eq fingerprint_eq option_eq list_eq string_eq nat_eq
  check_reports original bytes d planned require_success = do
    require (not require_success || succeeded d.summary)
    require (d.selection == original)
    require (is_valid_runtime_profile x.lower d.environment.profile)
    require (d.environment.runtime_image == original.runtime_image)
    require (d.environment.expansion_reason == expansion_reason d.environment.expanded)
    expected ← effective_selection x.checksum c original bytes planned.board d.environment.expanded
    require (d.effective == expected)
    group ← find_first (λ g. g.group_id == planned.group_id) d.effective.groups
    require (
        d.timings.config_sha256 == original.config_sha256
        && d.timings.build_fingerprint == original.build_fingerprint
        && d.timings.runtime_image == original.runtime_image)
    require (d.timings.nproc_per_node == 1)
    require (all (phase_ok d.timings.has_timing_error) d.timings.phases)
    require (map (λ r. r.test_id) d.timings.files == group.test_ids)
    check_files d planned.board d.timings.files
    fingerprint ←
        build_fingerprint d.diagnostics d.wheels original.tested_sha
          original.build_fingerprint.vllm_commit original.build_fingerprint.build_image
    require (fingerprint == original.build_fingerprint)

  -- `validate_group` behind the reading of the original selection.
  unfoldable pub validate_planned :
      Selection → String → Directory → String → String → Bool → Option String
  unfolding check_reports decimal identity_eq
  validate_planned original bytes d run_id run_attempt require_success = do
    let group_id = d.summary.identity.group_id
    planned ← find_first (λ g. g.group_id == group_id) original.routes.groups
    run ← decimal run_id
    attempt ← decimal run_attempt
    let identity = plan_identity original planned run attempt
    require (d.summary.identity == identity)
    require (d.environment.identity == identity)
    require (d.timings.identity == identity)
    check_reports original bytes d planned require_success
    some group_id

  unfoldable pub validate_group : String → Directory → String → String → Bool → Option String
  unfolding validate_planned
  validate_group bytes d run_id run_attempt require_success = x.selection_of bytes >>= λ original.
      validate_planned original bytes d run_id run_attempt require_success

  unfoldable pub validate_groups : String → List Directory → String → String → Option (List String)
  unfolding validate_group
  validate_groups bytes [] run_id run_attempt = some []
  validate_groups bytes (d ∷ ds) run_id run_attempt = do
    group_id ← validate_group bytes d run_id run_attempt true
    rest ← validate_groups bytes ds run_id run_attempt
    some (group_id ∷ rest)

  unfoldable pub validate_results : String → List Directory → String → String → Option (Unit {0})
  unfolding validate_groups sorted list_eq string_eq
  validate_results bytes directories run_id run_attempt = do
    original ← x.selection_of bytes
    let expected = map (λ g. g.group_id) original.routes.groups
    require (has_any expected)
    actual ← validate_groups bytes directories run_id run_attempt
    require (sorted actual == sorted expected)
