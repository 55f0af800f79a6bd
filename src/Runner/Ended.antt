-- ===== src/Runner/Ended.antt =====
-- How `execute` of scripts/ci/ppu_ops_runner.py ends, whatever its stages meet.
use vllm_sail.Base.{ℕ, String, ◌≡◌, refl, sym, ap, ◌∙◌, ◌⊎◌, inl, inr, false}
use vllm_sail.Base.{Option, none, some, string_eq, arith}
use vllm_sail.Base.Names.{Names}
use mathlib.Core.Path.{subst}
use mathlib.Core.Option
use mathlib.Core.Option.{some-injective}
use vllm_sail.Base.Failing
use vllm_sail.Base.Failing.{then_some}
use vllm_sail.Select.Selection.{Outside, Selection}
use vllm_sail.Runner.Group.{Identity, Summary, Timings, Directory, RunSetting, validate_group}
use vllm_sail.Runner.Accepted.{PlannedPassed, validate_planned-GroupPassed}
use vllm_sail.Runner.Inputs.{Artifact, Inputs, read_inputs}
use vllm_sail.Runner.Pod.{Pod, Probe, Output, directory_of, prepare}
use vllm_sail.Runner.Blamed.{reached, stages-reached}
use vllm_sail.Runner.Execute.{
  Stage, at_evidence, stage_name, Progress, Step, ◌>>=◌, follow, lift, with_status, unfinished,
  read_stage, install_stage, preflight_stage, pytest_stage, stages, evidence_stage, conclude,
  started, run, execute,
}

-- A step behind another that ends well.
then_step :
    {A B : Type 0} (m : Step A) (f : A → Step B) (p q : Progress) (b : B)
    → (m >>= f) p ≡ (some b, q)
    → (c : A) × (r : Progress) × (m p ≡ (some c, r)) × (f c r ≡ (some b, q))
then_step {A} {B} m f p q b h = split (m p) refl h
  where
    split :
        (s : Option A × Progress)
        → m p ≡ s
        → follow s f ≡ (some b, q)
        → (c : A) × (r : Progress) × (m p ≡ (some c, r)) × (f c r ≡ (some b, q))
    split (some c, r) e h = (c, r, e, h)
    split (none, r) e h = cc (ap (λ (t : Option B × Progress). t.0) h)

-- To write other timings and another summary changes nothing else that is read.
directory_of_end :
    (u : Output) (d : Directory) (s : Summary) (f : Timings → Timings) (ts : Option Timings)
    → u.timings ≡ some ts
    → directory_of u ≡ some d
    → directory_of (record u { timings = some (Option.map f ts); summary = some s })
      ≡ some (record d { timings = f d.timings; summary = s })
unfolding directory_of
directory_of_end u d s f none e h = ground arith
directory_of_end u d s f (some t) e h = ground arith

directory_of-summary :
    (u : Output) (d : Directory) (s : Summary)
    → u.summary ≡ some s
    → directory_of u ≡ some d
    → d.summary ≡ s
unfolding directory_of
directory_of-summary u d s e h = ground arith

module _ (x : RunSetting) (pod : Pod) (o : Outside) (a : Artifact) (env : Names String)
    (identity : Identity) where
  read_stage-read_inputs :
      (p q : Progress) (i : Inputs)
      → read_stage x pod o a env identity p ≡ (some i, q)
      → read_inputs o a env ≡ some i
  unfolding read_stage
  read_stage-read_inputs p q i h =
      let (j, r, read, h1) = then_step (lift (read_inputs o a env)) _ p q i h in
      let (_, r1, _, end) = then_step (lift (Failing.require pod.is_copied)) _ _ q i h1 in
      let same = some-injective j i (ap (λ (t : Option Inputs × Progress). t.0) end) in
      ap (λ (t : Option Inputs × Progress). t.0) read ∙ ap (λ (k : Inputs). some k) same

  stages-read_inputs :
      (p q : Progress) (i : Inputs)
      → stages x pod o a env identity p ≡ (some i, q)
      → read_inputs o a env ≡ some i
  unfolding stages
  stages-read_inputs p q i h =
      let (j, r, read, h1) = then_step (read_stage x pod o a env identity) _ p q i h in
      let (_, r1, _, h2) = then_step (install_stage x pod o a env identity) _ r q i h1 in
      let (e, r2, _, h3) = then_step (preflight_stage x pod o a env identity j) _ r1 q i h2 in
      let (_, r3, _, end) = then_step (pytest_stage x pod o a env identity j e) _ r2 q i h3 in
      let same = some-injective j i (ap (λ (t : Option Inputs × Progress). t.0) end) in
      read_stage-read_inputs p r j read ∙ ap (λ (k : Inputs). some k) same

  -- What a run that ends well has shown: the directory that it leaves is one that was checked
  -- against the plan, but for its summary, which now says so, and the script's time.
  pub record Shown (u : Output) : Type 0 where
    pub given : Inputs
    pub given_is : read_inputs o a env ≡ some given
    pub original : Selection
    pub original_is : x.selection_of given.raw ≡ some original
    pub directory : Directory
    pub left_is :
        directory_of u
        ≡ some (record directory {
          summary = with_status identity "success" none none;
          timings = record directory.timings { device_script_seconds = some pod.script_seconds };
        })
    pub passed :
        PlannedPassed x given.config original given.raw identity.run_id identity.run_attempt
          identity.group_id false directory

  validated :
      (i : Inputs) (g : String) (d : Directory)
      → validate_group x i.config i.raw d identity.run_id identity.run_attempt false ≡ some g
      → (original : Selection) × (x.selection_of i.raw ≡ some original)
        × PlannedPassed x i.config original i.raw identity.run_id identity.run_attempt g false d
  unfolding validate_group
  validated i g d h =
      let (original, is, planned) = then_some (x.selection_of i.raw) _ h in
      (
        original,
        is,
        validate_planned-GroupPassed x i.config original i.raw identity.run_id identity.run_attempt
            g false d planned,
      )

  evidence_stage-Shown :
      (p q : Progress) (i : Inputs)
      → read_inputs o a env ≡ some i
      → evidence_stage x pod o a env identity i p ≡ (some tt, q)
      → Shown (conclude x pod o a env identity (some tt, q)).1
  unfolding evidence_stage
  evidence_stage-Shown p q i given h =
      let u : Output = record p.output {
        timings = some p.timings;
        summary = some (unfinished identity);
      } in
      let checked : Option (Unit {0}) = Failing.◌>>=◌ (directory_of u) λ d.
        Failing.◌>>=◌ (validate_group x i.config i.raw d identity.run_id identity.run_attempt false)
          λ _. some tt in
      let ok : checked ≡ some tt = ap (λ (t : Option (Unit {0}) × Progress). t.0) h in
      let at : record p { stage = at_evidence; output = u } ≡ q =
        ap (λ (t : Option (Unit {0}) × Progress). t.1) h in
      let (d, d_is, ok1) = then_some (directory_of u) _ ok in
      let (g, valid, _) =
        then_some (validate_group x i.config i.raw d identity.run_id identity.run_attempt false) _
          ok1 in
      let (original, original_is, passed) = validated i g d valid in
      let summary_is = directory_of-summary u d (unfinished identity) refl d_is in
      let named : g ≡ identity.group_id =
        sym passed.2 ∙ ap (λ (s : Summary). s.identity.group_id) summary_is in
      subst (λ q. Shown (conclude x pod o a env identity (some tt, q)).1) at
        (record {
          given = i;
          given_is = given;
          original = original;
          original_is = original_is;
          directory = d;
          left_is =
              directory_of_end u d (with_status identity "success" none none)
                (λ (t : Timings). record t { device_script_seconds = some pod.script_seconds })
                p.timings refl d_is;
          passed =
              subst
                (λ g.
                  PlannedPassed x i.config original i.raw identity.run_id identity.run_attempt g
                    false d)
                named passed;
        })

  abbrev at_end : Stage
  at_end = reached x pod o a env identity

  -- How a run may end.
  abbrev pub Ends : ℕ → Output → Type 0
  Ends code u =
      ((code ≡ 0) × (u.summary ≡ some (with_status identity "success" none none)) × Shown u)
      ⊎ ((code ≡ 1)
          × (u.summary
              ≡ some (with_status identity "failure" (some (stage_name at_end)) (some "raised"))))

  run-Ends : (u : Output) → Ends (run x pod o a env identity u).0 (run x pod o a env identity u).1
  unfolding run
  run-Ends u = by_end _ refl
    where
      steps : Option (Unit {0}) × Progress
      steps =
          (stages x pod o a env identity >>= evidence_stage x pod o a env identity)
            (started x pod o a env identity u)

      by_end :
          (r : Option (Unit {0}) × Progress)
          → steps ≡ r
          → Ends (conclude x pod o a env identity r).0 (conclude x pod o a env identity r).1
      by_end (none, q) e =
          let stage_is : q.stage ≡ at_end =
            sym (ap (λ (t : Option (Unit {0}) × Progress). t.1.stage) e)
            ∙ stages-reached x pod o a env identity (started x pod o a env identity u) refl in
          inr (
            refl,
            ap (λ s. some (with_status identity "failure" (some (stage_name s)) (some "raised")))
                stage_is,
          )
      by_end (some t, q) e =
          let (i, p, before, after) =
            then_step (stages x pod o a env identity) (evidence_stage x pod o a env identity)
              (started x pod o a env identity u) q t e in
          inl (refl, refl, evidence_stage-Shown p q i (stages-read_inputs _ p i before) after)

-- Where the checks in front of the stages pass, the run ends, with a summary in the results
-- directory. Either its exit code is 0, the summary says success, the inputs were accepted, and
-- what is in the directory, but for the summary and the time of the script in the timings, was
-- checked against the plan: the planned group's tests ran, each with the evidence that it passed.
-- Or the exit code is 1 and the summary says failure in the stage that `reached` tells from the
-- inputs, the copying, the installations, the observation, the selection and the catalog: the first
-- one that something stops, or else that of the evidence.
pub execute-Ends :
    (x : RunSetting) (pod : Pod) (o : Outside) (a : Artifact) (env : Names String) (u : Output)
    (identity : Identity) (probe : Probe)
    → prepare pod env ≡ some (identity, probe)
    → (code : ℕ) × (v : Output) × (execute x pod o a env u ≡ some (code, v))
      × Ends x pod o a env identity code v
unfolding execute
execute-Ends x pod o a env u identity probe h =
    let start = record u { pod_probe = some probe } in
    (
      (run x pod o a env identity start).0,
      (run x pod o a env identity start).1,
      rw h,
      run-Ends x pod o a env identity start,
    )
