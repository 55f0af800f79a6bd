-- ===== src/Runner/Pod.antt =====
-- The pod in which scripts/ci/ppu_ops_runner.py runs: what the programs that it calls answer, the
-- results directory, the checks in front of the stages, and `run_files`.
use vllm_sail.Base.{ℕ, String, Bool, true, ◌&&◌, Option, none, some, List, [], ◌∷◌, ◌==◌}
use vllm_sail.Base.{string_eq, option_eq, nat_eq, if◌then◌else◌}
use vllm_sail.Base.Names.{Names, lookup}
use vllm_sail.Base.Failing.{◌>>=◌, ◌>>◌, require}
use vllm_sail.Select.Environment.{RuntimeProfile}
use vllm_sail.Select.Selection.{Selection}
use vllm_sail.Select.Config.{Config}
use vllm_sail.Select.Routes.{by_id}
use vllm_sail.Runner.Nodes.{Entry, Duration}
use vllm_sail.Runner.Evidence.{Evidence, Effective, validate_file_evidence}
use vllm_sail.Runner.Group.{
  Identity, Summary, EnvironmentReport, FileRecord, Timings, Directory, RunSetting,
}
use vllm_sail.Runner.Inputs.{result_path}

-- The probe that the CPU host has left.
pub record Probe : Type 0 where
  pub run_id : String
  pub run_attempt : String
  pub group_id : String
  pub nonce : String

-- What the pod and the programs that are called answer. `exit_code` and `evidence` are what pytest
-- gives for a test file, where an exit code is missing if it could not be started.
pub record Pod : Type 0 where
  pub has_nas : Bool
  pub probe : Option Probe
  pub is_copied : Bool
  pub installs : List Bool
  pub is_observed : Bool
  pub profile : Option RuntimeProfile
  pub exit_code : Entry → Option ℕ
  pub evidence : String → Option Evidence
  pub duration : Entry → Duration
  pub install_seconds : Duration
  pub preflight_seconds : Duration
  pub script_seconds : Duration

-- The results directory. Timings without the plan's metadata are `some none`.
pub record Output : Type 0 where
  pub pod_probe : Option Probe
  pub selection : Option Selection
  pub diagnostics : Option (Names String)
  pub wheels : Option (Names String)
  pub environment : Option EnvironmentReport
  pub effective : Option Effective
  pub evidence : String → Option Evidence
  pub timings : Option (Option Timings)
  pub summary : Option Summary

-- What `validate_group` reads from the results directory; a file that is missing raises.
unfoldable pub directory_of : Output → Option Directory
directory_of u = do
  summary ← u.summary
  environment ← u.environment
  written ← u.timings
  timings ← written
  selection ← u.selection
  effective ← u.effective
  diagnostics ← u.diagnostics
  wheels ← u.wheels
  some (record {
    summary = summary;
    environment = environment;
    timings = timings;
    selection = selection;
    effective = effective;
    evidence = u.evidence;
    diagnostics = diagnostics;
    wheels = wheels;
  })

-- The checks in front of the stages, which raise out of `execute`: the path, the mount, and the
-- probe of the CPU host, which is written again.
unfoldable pub prepare : Pod → Names String → Option (Identity × Probe)
unfolding result_path lookup string_eq
prepare pod env = do
  run_id ← lookup "CI_RUN_ID" env
  attempt ← lookup "CI_RUN_ATTEMPT" env
  group_id ← lookup "DEVICE_GROUP_ID" env
  path ← result_path run_id attempt group_id true
  results ← lookup "DEVICE_RESULTS_DIR" env
  require (path == results)
  require pod.has_nas
  probe ← pod.probe
  require (probe.run_id == run_id && probe.run_attempt == attempt && probe.group_id == group_id)
  board ← lookup "DEVICE_BOARD" env
  tested_sha ← lookup "EXPECTED_SAIL_COMMIT" env
  let identity : Identity = record {
    schema = 1;
    run_id = run_id;
    run_attempt = attempt;
    group_id = group_id;
    board = board;
    tested_sha = tested_sha;
  }
  some (identity, probe)

module _ (x : RunSetting) (pod : Pod) where
  -- One round of `run_files`: a file succeeds where pytest exits with 0 and what it left is valid.
  unfoldable pub outcome_of : Entry → String → String
  unfolding validate_file_evidence option_eq nat_eq
  outcome_of e board =
      if pod.exit_code e == some 0
      then elim (pod.evidence e.id >>= λ v. validate_file_evidence x.posix v e board) [
        | none ↦ "failure"
        | some r ↦ "success"
      ]
      else "failure"

  unfoldable pub run_files : List Entry → String → List FileRecord
  unfolding outcome_of
  run_files [] board = []
  run_files (e ∷ es) board =
      (record {
        test_id = e.id;
        file = e.test;
        outcome = outcome_of e board;
        duration_seconds = pod.duration e;
      })
      ∷ run_files es board

  -- `[catalog[t] for t in test_ids]`
  unfoldable pub catalog_entries : Config → List String → Option (List Entry)
  unfolding by_id
  catalog_entries c [] = some []
  catalog_entries c (t ∷ ts) = do
    e ← by_id t c.test_catalog
    es ← catalog_entries c ts
    some (e ∷ es)
