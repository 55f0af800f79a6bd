-- ===== src/Runner/Tests.antt =====
-- A plan with one group of one test file, and the directory that a good run of it leaves. The
-- theorem on accepted results at these.
use vllm_sail.Base.{ℕ, String, true, false, Option, none, some, [], ◌∷◌}
use vllm_sail.Base.Names.{Names}
use vllm_sail.Base.Sorting.{str_ltb}
use vllm_sail.Select.Config.{Config, starts_with}
use vllm_sail.Select.Choice.{subset_mode}
use vllm_sail.Select.Routes.{Group}
use vllm_sail.Select.Environment.{RuntimeProfile}
use vllm_sail.Select.Tests.{commit, image, outside, selection as selected}
use vllm_sail.Select.Selection.{Selection}
use vllm_sail.Runner.Nodes.{Entry, Phase, Runtime, PosixPaths, seconds}
use vllm_sail.Runner.Evidence.{Evidence}
use vllm_sail.Runner.Group.{Directory, Identity, RunSetting, validate_group}
use vllm_sail.Runner.Inputs.{Artifact, read_inputs}
use vllm_sail.Runner.Pod.{Pod, Probe, Output, prepare}
use vllm_sail.Runner.Execute.{
  execute, stages, evidence_stage, read_stage, install_stage, preflight_stage, pytest_stage,
}
use vllm_sail.Runner.Ended.{Ends, execute-Ends}
pub mod Runs

abbrev group : Group
group = record {
  group_id = "ppu10-0";
  board = "ppu10";
  test_ids = "one" ∷ [];
  files = "t/one.py" ∷ [];
}

abbrev original : Selection
original = record {
  schema = 1;
  choice = record {
    mode = subset_mode;
    test_ids = "one" ∷ [];
    files = "t/one.py" ∷ [];
    reasons = [];
    matched_rule_ids = [];
    unmapped_files = [];
  };
  routes = record {
    groups = group ∷ [];
    matrix = record { group_id = "ppu10-0"; board = "ppu10"; nproc_per_node = 1 } ∷ [];
  };
  base_sha = some commit;
  head_sha = some commit;
  tested_sha = commit;
  changed_files = [];
  build_run_id = "7";
  config_sha256 = "config";
  environment_sha256 = "environment";
  build_fingerprint = record {
    sdk_sha256 = none;
    torch_sha256 = none;
    pytorch_sail_arch = none;
    build_image = image;
    vllm_commit = commit;
  };
  runtime_image = image;
}

abbrev posix : PosixPaths
posix = record {
  is_absolute = λ p. starts_with p "/";
  has_parent = λ p. false;
  is_relative_to = λ p q. starts_with p q;
  join = λ p q. "/i/x";
}

abbrev pub setting : RunSetting
setting = record {
  selection_of = λ s. some original;
  checksum = λ s. s;
  lower = λ s. s;
  posix = posix;
}

abbrev passed : Phase
passed = record { outcome = "passed"; wasxfail = none; duration_seconds = seconds 1 }

abbrev node : String
node = "t/one.py::test_a"

abbrev seen : Runtime
seen = record {
  paths =
      ("torch", "/p/x")
      ∷ ("vllm", "/p/x")
      ∷ ("vllm_sail", "/p/x")
      ∷ ("vllm_sail.envs", "/p/x")
      ∷ ("vllm.platforms", "/p/x")
      ∷ ("vllm_sail.native.extensions", "/p/x")
      ∷ ("vllm_sail._C", "/p/x")
      ∷ ("vllm_sail._moe_C", "/p/x")
      ∷ ("vllm_sail._upstream_C", "/p/x")
      ∷ ("vllm_sail._upstream_moe_C", "/p/x")
      ∷ ("plugin", "/i/x")
      ∷ ("conftest", "/i/x")
      ∷ [];
  isolated_root = "/i";
  checkout_root = "/c";
  runtime_env_is_expected = true;
}

abbrev pub evidence : Evidence
evidence = record {
  report = record {
    schema = 1;
    board = "ppu10";
    file = "t/one.py";
    status = "success";
    exitstatus = 0;
    errors = [];
    collected = node ∷ [];
    applicable = node ∷ [];
    hardware_excluded = [];
    nodes = (node, ("setup", passed) ∷ ("call", passed) ∷ ("teardown", passed) ∷ []) ∷ [];
    runtime = seen;
  };
  has_log = true;
  junit = record { has_bad_case = false; cases = "t.one\ntest_a" ∷ [] };
}

abbrev pub identity : Identity
identity = record {
  schema = 1;
  run_id = "7";
  run_attempt = "1";
  group_id = "ppu10-0";
  board = "ppu10";
  tested_sha = commit;
}

abbrev pub profile : RuntimeProfile
profile = record {
  board = "ppu10";
  capability = 8 ∷ 0 ∷ [];
  sdk_identity = "s";
  driver_identity = "d";
  packages = "a" ∷ "b" ∷ "c" ∷ [];
  uses_pla = true;
}

abbrev pub directory : Directory
directory = record {
  summary = record { identity = identity; status = "success"; failure_stage = none; reason = none };
  environment = record {
    identity = identity;
    profile = profile;
    runtime_image = image;
    expanded = false;
    expansion_reason = none;
  };
  timings = record {
    identity = identity;
    config_sha256 = "config";
    build_fingerprint = original.build_fingerprint;
    runtime_image = image;
    nproc_per_node = 1;
    phases = none ∷ some (seconds 3) ∷ some (seconds 2) ∷ none ∷ none ∷ [];
    has_timing_error = true;
    files =
        (record {
          test_id = "one";
          file = "t/one.py";
          outcome = "success";
          duration_seconds = seconds 1;
        })
        ∷ [];
    device_script_seconds = none;
  };
  selection = original;
  effective = record {
    schema = 1;
    original_selection_sha256 = "raw";
    original_mode = subset_mode;
    expanded_boards = [];
    groups = group ∷ [];
    matrix = original.routes.matrix;
    test_ids = "one" ∷ [];
    files = "t/one.py" ∷ [];
  };
  evidence = λ id. some evidence;
  diagnostics =
      ("status", "succeeded")
      ∷ ("vllm_commit", commit)
      ∷ ("vllm_sail_commit", commit)
      ∷ ("build_image", image)
      ∷ [];
  wheels = ("vllm", commit) ∷ ("vllm-sail", commit) ∷ [];
}
