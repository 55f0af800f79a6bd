-- ===== src/Runner/Tests/Runs.antt =====
-- A pod in which all goes well. The theorem on the end of a run in it.
use vllm_sail.Base.{ℕ, String, ◌≡◌, refl, true, Option, none, some, [], ◌∷◌}
use vllm_sail.Base.{nat_eq, string_eq, option_eq, list_eq}
use vllm_sail.Base.Names.{Names}
use vllm_sail.Base.Sorting.{add, str_ltb, put_in_order}
use vllm_sail.Select.Tests.{commit, image, outside, selection as selected}
use vllm_sail.Select.Selection.{Selection}
use vllm_sail.Runner.Nodes.{seconds}
use vllm_sail.Runner.Group.{RunSetting, validate_group}
use vllm_sail.Runner.Inputs.{Artifact, read_inputs}
use vllm_sail.Runner.Pod.{Pod, Probe, Output, prepare}
use vllm_sail.Runner.Execute.{
  execute, stages, evidence_stage, read_stage, install_stage, preflight_stage, pytest_stage,
}
use vllm_sail.Runner.Ended.{Ends, execute-Ends}
use vllm_sail.Runner.Tests.{profile, evidence, identity, directory, setting}

abbrev probe : Probe
probe = record { run_id = "7"; run_attempt = "1"; group_id = "ppu10-0"; nonce = "n" }

abbrev pod : Pod
pod = record {
  has_nas = true;
  probe = some probe;
  is_copied = true;
  installs = true ∷ true ∷ true ∷ true ∷ [];
  is_observed = true;
  profile = some profile;
  exit_code = λ e. some 0;
  evidence = λ id. some evidence;
  duration = λ e. seconds 1;
  install_seconds = seconds 3;
  preflight_seconds = seconds 2;
  script_seconds = seconds 9;
}

abbrev hash : String
hash = "0123456789abcdef0123456789abcdef0123456789abcdef0123456789abcdef"

-- A plan whose build is known.
abbrev built : Selection
built = record selected {
  build_fingerprint = record {
    sdk_sha256 = some hash;
    torch_sha256 = some hash;
    pytorch_sail_arch = some ("ppu_10" ∷ "ppu_15" ∷ []);
    build_image = image;
    vllm_commit = commit;
  };
}

abbrev artifact : Artifact
artifact = record {
  raw = "raw";
  config_raw = "config";
  environment_raw = "environment";
  checkout_config = "config";
  checkout_environment = "environment";
  config_is_valid = λ c. true;
  verify = λ v s. some directory.wheels;
  diagnostics =
      ("sdk_sha256", hash)
      ∷ ("torch_sha256", hash)
      ∷ ("pytorch_sail_arch", "ppu_10;ppu_15")
      ∷ directory.diagnostics;
  selection_of = λ s. some built;
  matrix_of = λ s. none;
}

abbrev variables : Names String
variables =
    ("WHEELS_DIR", "/w")
    ∷ ("BUILD_MANIFEST_FILE", "/m")
    ∷ ("SELECTION_FILE", "/s")
    ∷ ("DEVICE_RESULTS_DIR", "/mnt/wl_nas/devops/7-1/ops-tests/ppu10-0")
    ∷ ("DEVICE_BOARD", "ppu10")
    ∷ ("DEVICE_GROUP_ID", "ppu10-0")
    ∷ ("EXPECTED_SAIL_COMMIT", commit)
    ∷ ("EXPECTED_VLLM_COMMIT", commit)
    ∷ ("EXPECTED_BUILD_RUN_ID", "7")
    ∷ ("EXPECTED_BUILD_IMAGE", image)
    ∷ ("CI_RUN_ID", "7")
    ∷ ("CI_RUN_ATTEMPT", "1")
    ∷ ("RUNTIME_IMAGE", image)
    ∷ []

abbrev empty : Output
empty = record {
  pod_probe = none;
  selection = none;
  diagnostics = none;
  wheels = none;
  environment = none;
  effective = none;
  evidence = λ id. none;
  timings = none;
  summary = none;
}

abbrev plan : RunSetting
plan = record setting { selection_of = λ s. some built }

execute-Ends_example :
    (code : ℕ) × (v : Output) × (execute plan pod outside artifact variables empty ≡ some (code, v))
    × Ends plan pod outside artifact variables identity code v
unfolding prepare nat_eq string_eq
execute-Ends_example = execute-Ends plan pod outside artifact variables empty identity probe refl

-- The exit code of that run.
abbrev code_of : Option (ℕ × Output) → Option ℕ
code_of none = none
code_of (some (code, v)) = some code

execute_succeeds : code_of (execute plan pod outside artifact variables empty) ≡ some 0
unfolding execute stages evidence_stage read_stage install_stage preflight_stage pytest_stage
    read_inputs validate_group nat_eq string_eq option_eq list_eq add str_ltb put_in_order
execute_succeeds = refl
