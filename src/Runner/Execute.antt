-- ===== src/Runner/Execute.antt =====
-- `run_files` and `execute` of scripts/ci/ppu_ops_runner.py: a run in a pod, stage by stage, with
-- what it writes.
use vllm_sail.Base.{ℕ, String, Bool, true, false, not, Option, none, some}
use vllm_sail.Base.{List, [], ◌∷◌, ◌==◌, Eq, string_eq, list_eq, option_eq, nat_eq, all, find_first}
use vllm_sail.Base.Names.{Names}
use mathlib.Core.Option
use vllm_sail.Base.Failing
use vllm_sail.Select.Environment.{RuntimeProfile, EnvironmentFile}
use vllm_sail.Select.Selection.{Outside, Selection}
use vllm_sail.Runner.Nodes.{Duration}
use vllm_sail.Runner.Evidence.{Effective, effective_selection}
use vllm_sail.Runner.Group.{
  Identity, Summary, Timings, RunSetting, expansion_reason, validate_group,
}
use vllm_sail.Runner.Pod.{Pod, Output, directory_of, prepare, run_files, catalog_entries}
use vllm_sail.Runner.Inputs.{Artifact, Inputs, read_inputs}

pub data Stage : Type 0 where
  at_inputs at_install at_preflight at_pytest at_evidence : Stage

unfoldable pub stage_name : Stage → String
stage_name at_inputs = "inputs"
stage_name at_install = "install"
stage_name at_preflight = "preflight"
stage_name at_pytest = "pytest"
stage_name at_evidence = "evidence"

pub record Progress : Type 0 where
  pub stage : Stage
  pub timings : Option Timings
  pub output : Output

-- A step that may raise, behind what it has done.
abbrev pub Step : Type 0 → Type 0
Step A = Progress → Option A × Progress

abbrev pub follow : {A B : Type 0} → Option A × Progress → (A → Step B) → Option B × Progress
follow (none, p) f = (none, p)
follow (some a, p) f = f a p

infixl 5 ◌>>=◌ ◌>>◌
abbrev pub ◌>>=◌ : {A B : Type 0} → Step A → (A → Step B) → Step B
◌>>=◌ m f p = follow (m p) f

abbrev pub ◌>>◌ : {B : Type 0} → Step (Unit {0}) → Step B → Step B
m >> k = m >>= λ _. k

abbrev return : {A : Type 0} → A → Step A
return a p = (some a, p)

abbrev pub lift : {A : Type 0} → Option A → Step A
lift o p = (o, p)

abbrev change : (Progress → Progress) → Step (Unit {0})
change f p = (some tt, f p)

abbrev enter : Stage → Step (Unit {0})
enter stage = change (λ p. record p { stage = stage })

abbrev write : (Output → Output) → Step (Unit {0})
write f = change (λ p. record p { output = f p.output })

abbrev time : (Timings → Timings) → Step (Unit {0})
time f = change (λ p. record p { timings = Option.map f p.timings })

RuntimeProfile-discrete : Discrete RuntimeProfile
RuntimeProfile-discrete =
    hlevel (string_eq.dec, (list_eq ⦃e = nat_eq⦄).dec, (list_eq ⦃e = string_eq⦄).dec)

instance unfoldable pub profile_eq : Eq RuntimeProfile
unfolding RuntimeProfile-discrete
profile_eq = record { dec = RuntimeProfile-discrete }

-- What the phases are: queue, install, preflight, device, total.
abbrev phases_with : Option Duration → Option Duration → List (Option Duration)
phases_with installed checked = none ∷ installed ∷ checked ∷ none ∷ none ∷ []

abbrev first_timings : Identity → Selection → Timings
first_timings identity original = record {
  identity = identity;
  config_sha256 = original.config_sha256;
  build_fingerprint = original.build_fingerprint;
  runtime_image = original.runtime_image;
  nproc_per_node = 1;
  phases = phases_with none none;
  has_timing_error = true;
  files = [];
  device_script_seconds = none;
}

module _ (x : RunSetting) (pod : Pod) where
  module _ (o : Outside) (a : Artifact) (env : Names String) (identity : Identity) where
    unfoldable pub read_stage : Step Inputs
    read_stage = do
      i ← lift (read_inputs o a env)
      change (λ p. record p { timings = some (first_timings identity i.original) })
      write (λ u. record u { selection = some i.original })
      write (λ u. record u { diagnostics = some a.diagnostics })
      write (λ u. record u { wheels = some i.manifest })
      lift (Failing.require pod.is_copied)
      return i

    unfoldable pub install_stage : Step (Unit {0})
    install_stage = do
      enter at_install
      lift (Failing.require (all (λ ok. ok) pod.installs))
      time (λ t. record t { phases = phases_with (some pod.install_seconds) none })

    abbrev is_changed : EnvironmentFile → RuntimeProfile → Bool
    is_changed baseline profile =
        not (find_first (λ p. p.board == identity.board) baseline.profiles == some profile)

    unfoldable pub preflight_stage : Inputs → Step Effective
    unfolding effective_selection profile_eq option_eq string_eq
    preflight_stage i = do
      enter at_preflight
      lift (Failing.require pod.is_observed)
      observed ← lift pod.profile
      let profile = record observed { board = identity.board }
      let expanded = is_changed i.environment profile
      write (λ u. record u {
        environment = some (record {
          identity = identity;
          profile = profile;
          runtime_image = i.original.runtime_image;
          expanded = expanded;
          expansion_reason = expansion_reason expanded;
        });
      })
      effective ←
          lift (effective_selection x.checksum i.config i.original i.raw identity.board expanded)
      write (λ u. record u { effective = some effective })
      time (λ t. record t {
        phases = phases_with (some pod.install_seconds) (some pod.preflight_seconds);
      })
      return effective

    unfoldable pub pytest_stage : Inputs → Effective → Step (Unit {0})
    unfolding run_files catalog_entries string_eq
    pytest_stage i effective = do
      enter at_pytest
      group ← lift (find_first (λ g. g.group_id == identity.group_id) effective.groups)
      entries ← lift (catalog_entries x pod i.config group.test_ids)
      write (λ u. record u { evidence = pod.evidence })
      time (λ t. record t { files = run_files x pod entries identity.board })

abbrev pub with_status : Identity → String → Option String → Option String → Summary
with_status identity status stage reason = record {
  identity = identity;
  status = status;
  failure_stage = stage;
  reason = reason;
}

abbrev pub unfinished : Identity → Summary
unfinished identity = with_status identity "failure" (some "inputs") (some "Not completed")

-- How a run ends: the message of an exception is not told.
abbrev pub ended : Identity → Option (Unit {0}) → Stage → Summary
ended identity (some t) stage = with_status identity "success" none none
ended identity none stage = with_status identity "failure" (some (stage_name stage)) (some "raised")

module _ (x : RunSetting) (pod : Pod) (o : Outside) (a : Artifact) (env : Names String)
    (identity : Identity) where
  unfoldable pub stages : Step Inputs
  stages = do
    i ← read_stage x pod o a env identity
    install_stage x pod o a env identity
    effective ← preflight_stage x pod o a env identity i
    pytest_stage x pod o a env identity i effective
    return i

  unfoldable pub evidence_stage : Inputs → Step (Unit {0})
  unfolding directory_of
  evidence_stage i = do
    enter at_evidence
    change (λ p. record p {
      output = record p.output { timings = some p.timings; summary = some (unfinished identity) };
    })
    λ p.
        lift
          (Failing.◌>>=◌ (directory_of p.output) λ d.
            Failing.◌>>=◌
              (validate_group x i.config i.raw d identity.run_id identity.run_attempt false)
              λ _. some tt)
          p

  -- `finally`, and the exit code.
  abbrev pub conclude : Option (Unit {0}) × Progress → ℕ × Output
  conclude (r, p) = (
    (elim r [ some t ↦ 0 | none ↦ 1 ]),
    record p.output {
      timings = some (
          Option.map (λ (t : Timings). record t { device_script_seconds = some pod.script_seconds })
            p.timings);
      summary = some (ended identity r p.stage);
    },
  )

  abbrev pub started : Output → Progress
  started u = record { stage = at_inputs; timings = none; output = u }

  -- `execute` behind its first checks.
  unfoldable pub run : Output → ℕ × Output
  unfolding stages evidence_stage
  run u = conclude ((stages >>= evidence_stage) (started u))

-- `none`: an exception leaves `execute`.
unfoldable pub execute :
    RunSetting → Pod → Outside → Artifact → Names String → Output → Option (ℕ × Output)
unfolding prepare run
execute x pod o a env u =
    Failing.◌>>=◌ (prepare pod env)
      λ r. some (run x pod o a env r.0 (record u { pod_probe = some r.1 }))
