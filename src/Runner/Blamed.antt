-- ===== src/Runner/Blamed.antt =====
-- The stage that `execute` of scripts/ci/ppu_ops_runner.py reaches: the first one that something
-- stops.
use vllm_sail.Base.{String, ◌≡◌, refl, not, inl, inr}
use vllm_sail.Base.{
  Option, none, some, List, ◌==◌, string_eq, option_eq, all, find_first, if◌then◌else◌, Bool-cases,
  Option-cases,
}
use vllm_sail.Base.Names.{Names}
use vllm_sail.Base.Failing
use vllm_sail.Select.Environment.{RuntimeProfile}
use vllm_sail.Select.Selection.{Outside}
use vllm_sail.Runner.Nodes.{Entry}
use vllm_sail.Runner.Evidence.{Effective, effective_selection}
use vllm_sail.Runner.Group.{Identity, RunSetting}
use vllm_sail.Runner.Inputs.{Artifact, Inputs, read_inputs}
use vllm_sail.Runner.Pod.{Pod, catalog_entries}
use vllm_sail.Runner.Execute.{
  Stage, at_inputs, at_install, at_preflight, at_pytest, at_evidence, Progress, ◌>>=◌, profile_eq,
  read_stage, install_stage, preflight_stage, pytest_stage, stages, evidence_stage,
}

module _ (x : RunSetting) (pod : Pod) (o : Outside) (a : Artifact) (env : Names String)
    (identity : Identity) where
  -- The selection that is run, where the preflight succeeds and gives a profile.
  abbrev pub observed : Inputs → RuntimeProfile → Option Effective
  unfolding profile_eq option_eq string_eq
  observed i p = effective_selection x.checksum i.config i.original i.raw identity.board (
      not (
        find_first (λ q. q.board == identity.board) i.environment.profiles
        == some (record p { board = identity.board })))

  -- The test files of the group that is run.
  abbrev pub planned : Inputs → Effective → Option (List Entry)
  unfolding string_eq
  planned i e =
      Failing.◌>>=◌ (find_first (λ g. g.group_id == identity.group_id) e.groups)
        λ g. catalog_entries x pod i.config g.test_ids

  abbrev pub behind_pytest : Option (List Entry) → Stage
  behind_pytest none = at_pytest
  behind_pytest (some es) = at_evidence

  abbrev pub behind_preflight : Inputs → Option Effective → Stage
  behind_preflight i none = at_preflight
  behind_preflight i (some e) = behind_pytest (planned i e)

  -- Inputs are refused or the tests cannot be copied; an installation fails; the environment is
  -- not observed or its selection cannot be made; the group's files are not in the catalog; and
  -- else what is left is the check of the evidence.
  abbrev pub reached_of : Option Inputs → Stage
  reached_of none = at_inputs
  reached_of (some i) =
      if pod.is_copied
      then (if all (λ ok. ok) pod.installs
          then behind_preflight i
              (if pod.is_observed then Failing.◌>>=◌ pod.profile (observed i) else none)
          else at_install)
      else at_inputs

  abbrev pub reached : Stage
  reached = reached_of (read_inputs o a env)

  pub stages-reached :
      (p : Progress)
      → p.stage ≡ at_inputs
      → ((stages x pod o a env identity >>= evidence_stage x pod o a env identity) p).1.stage
        ≡ reached
  unfolding stages read_stage install_stage preflight_stage pytest_stage evidence_stage
  stages-reached p at = elim (Option-cases (read_inputs o a env)) [
    | inl e ↦ rw e at
    | inr (i, e) ↦ elim (Bool-cases pod.is_copied) [
      | inr c ↦ rw (e, c) at
      | inl c ↦ elim (Bool-cases (all (λ ok. ok) pod.installs)) [
        | inr n ↦ rw (e, c, n) refl
        | inl n ↦ elim (Bool-cases pod.is_observed) [
          | inr s ↦ rw (e, c, n, s) refl
          | inl s ↦ elim (Option-cases pod.profile) [
            | inl f ↦ rw (e, c, n, s, f) refl
            | inr (r, f) ↦ elim (Option-cases (observed i r)) [
              | inl g ↦ rw (e, c, n, s, f, g) refl
              | inr (v, g) ↦
                  elim (Option-cases (find_first (λ g. g.group_id == identity.group_id) v.groups)) [
                    | inl k ↦ rw (e, c, n, s, f, g, k) refl
                    | inr (w, k) ↦ elim (Option-cases (catalog_entries x pod i.config w.test_ids)) [
                      | inl l ↦ rw (e, c, n, s, f, g, k, l) refl
                      | inr (es, l) ↦ rw (e, c, n, s, f, g, k, l) refl
                    ]
                  ]
            ]
          ]
        ]
      ]
    ]
  ]
