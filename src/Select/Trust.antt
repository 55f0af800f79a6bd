-- ===== src/Select/Trust.antt =====
-- What a selection has that `validate_selection` of scripts/ci/ppu_ops_select.py accepts.
use vllm_sail.Base.{String, Bool, true, false, not, ◌&&◌, ◌||◌, some, ◌≡◌, refl, ap, sym, ◌∙◌}
use vllm_sail.Base.{arith, ◌==◌, ==_true, list_eq, option_eq, nat_eq, string_eq, contains, any}
use mathlib.Core.Option.{some-injective}
use vllm_sail.Base.Sorting.{sorted, contains-sorted}
use vllm_sail.Base.Failing.{require-true, then_require, then_some}
use vllm_sail.Select.Formats.{digest_image, decimal, sha}
use vllm_sail.Select.Config.{Config, known_boards, matches}
use vllm_sail.Select.Choice.{
  Mode, full_mode, subset_mode, none_mode, Choice, runnable_ids, select_tests,
}
use vllm_sail.Select.Choice.Exact.{
  asks_for, forces_full, is_full, select_tests-is_full, select_tests-test_ids,
}
use vllm_sail.Select.Routes.{Routes, route_tests, runs_on, group_eq, matrix_eq}
use vllm_sail.Select.Routes.Partition.{assigns, route_tests-assigns}
use vllm_sail.Select.Environment.{fingerprint_eq, validate_environment}
use vllm_sail.Select.Build.{is_some, optional_sha}
use vllm_sail.Select.Selection.{Outside, Selection, environment_matches}
use vllm_sail.Select.Validate.{
  validate_selection, check_lists, check_mode, check_partial, same_choice, mode_eq, files_of_ids,
  mode_fits,
}

-- What the mode stands for: no path forces the full selection unless it is one, and the tests are
-- those that the changed files ask for, or all of them.
pub record FitsChanges (glob : String → String → Bool) (c : Config) (s : Selection) : Type 0 where
  pub forced_is : any (forces_full glob c) s.changed_files ≡ true → is_full s.choice.mode ≡ true
  pub tests_are :
      (id : String)
      → contains s.choice.test_ids id ≡ (
          contains (runnable_ids c) id
          && (is_full s.choice.mode
              || any (λ p. not (matches glob p c.full) && asks_for c p id) s.changed_files))

same_choice-agree :
    (a b : Choice) → same_choice a b ≡ true → (a.mode ≡ b.mode) × (a.test_ids ≡ b.test_ids)
same_choice-agree a b h =
    (==_true a.mode b.mode (ground arith), ==_true a.test_ids b.test_ids (ground arith))

check_partial-FitsChanges :
    (o : Outside) (c : Config) (qualified matching : Bool) (s : Selection)
    → check_partial qualified matching s (select_tests o.glob c s.changed_files true false true)
      ≡ some tt
    → FitsChanges o.glob c s
unfolding check_partial
check_partial-FitsChanges o c qualified matching s h =
    let (_, h1) = then_require (qualified && matching) _ h in
    let (_, h2) = then_require (is_some s.base_sha && is_some s.head_sha) _ h1 in
    let (e, chosen, h3) = then_some (select_tests o.glob c s.changed_files true false true) _ h2 in
    let same = require-true (same_choice s.choice e) h3 in
    let (mode, ids) = same_choice-agree s.choice e same in
    record {
      forced_is = λ f.
          rw mode (select_tests-is_full o.glob c s.changed_files true false true e chosen ∙ rw f);
      tests_are = λ id.
          rw (ids, mode)
            (select_tests-test_ids o.glob c s.changed_files true false true e chosen id);
    }

check_mode-FitsChanges :
    (o : Outside) (c : Config) (qualified matching : Bool) (s : Selection) (m : Mode)
    → s.choice.mode ≡ m
    → check_mode o c qualified matching s m ≡ some tt
    → FitsChanges o.glob c s
unfolding check_mode
check_mode-FitsChanges o c q m s full_mode e h =
    let all' = require-true (s.choice.test_ids == sorted (runnable_ids c)) h in
    record {
      forced_is = λ f. rw e;
      tests_are = λ id.
          rw (==_true s.choice.test_ids (sorted (runnable_ids c)) all', e)
            (contains-sorted id (runnable_ids c) ∙ ground arith);
    }
check_mode-FitsChanges o c q m s subset_mode e h = check_partial-FitsChanges o c q m s h
check_mode-FitsChanges o c q m s none_mode e h = check_partial-FitsChanges o c q m s h

-- What is used of the checks that an accepted selection has passed.
record Passed (o : Outside) (s : Selection) (config_bytes : String) (r : Routes) : Type 0 where
  config : Config
  qualified : Bool
  matching : Bool
  read_is : o.config_of config_bytes ≡ some config
  mode_is : check_mode o config qualified matching s s.choice.mode ≡ some tt
  routed_is : route_tests config s.choice.test_ids ≡ some r

validate_selection-Passed :
    (o : Outside) (s : Selection)
    (config_bytes environment_bytes tested_sha build_run_id build_image runtime_image
      vllm_commit : String)
    (r : Routes)
    → validate_selection o s config_bytes environment_bytes tested_sha build_run_id build_image
        runtime_image vllm_commit
      ≡ some r
    → Passed o s config_bytes r
unfolding validate_selection
validate_selection-Passed o s cb eb ts br bi ri vc r accepted =
    let (_, h) = then_require (s.schema == 1) _ accepted in
    let (tested, _, h) = then_some (sha ts) _ h in
    let (_, h) = then_require (s.tested_sha == tested) _ h in
    let (run, _, h) = then_some (decimal br) _ h in
    let (_, h) = then_require (s.build_run_id == run) _ h in
    let (image, _, h) = then_some (digest_image ri) _ h in
    let (_, h) = then_require (s.runtime_image == image) _ h in
    let (_, h) = then_require (s.config_sha256 == o.checksum cb) _ h in
    let (_, h) = then_require (s.environment_sha256 == o.checksum eb) _ h in
    let (c', config, h) = then_some (o.config_of cb) _ h in
    let (environment, _, h) = then_some (o.environment_of eb) _ h in
    let (qualified, _, h) = then_some (validate_environment o.lower environment) _ h in
    let (_, _, h) = then_some (optional_sha s.base_sha) _ h in
    let (_, _, h) = then_some (optional_sha s.head_sha) _ h in
    let (_, _, h) = then_some (check_lists s.choice s.changed_files) _ h in
    let (routes, routed, h) = then_some (route_tests c' s.choice.test_ids) _ h in
    let (_, h) =
      then_require (s.routes.groups == routes.groups && s.routes.matrix == routes.matrix) _ h in
    let (_, h) = then_require (s.choice.files == files_of_ids c' s.choice.test_ids) _ h in
    let (_, h) = then_require (mode_fits s.choice.mode s.choice.test_ids) _ h in
    let (build, _, h) = then_some (digest_image bi) _ h in
    let (_, h) = then_require (s.build_fingerprint.build_image == build) _ h in
    let (commit, _, h) = then_some (sha vc) _ h in
    let (_, h) = then_require (s.build_fingerprint.vllm_commit == commit) _ h in
    let (tt, checked, h) =
      then_some
        (check_mode o c' qualified (environment_matches true environment s.build_fingerprint ri) s
          s.choice.mode)
        _ h in
    record {
      config = c';
      qualified = qualified;
      matching = environment_matches true environment s.build_fingerprint ri;
      read_is = config;
      mode_is = checked;
      routed_is = routed ∙ ap some (some-injective routes r h);
    }

-- What an accepted selection has, and the routes that are returned for it.
pub record IsTrusted (o : Outside) (c : Config) (s : Selection) (r : Routes) : Type 0 where
  pub fits : FitsChanges o.glob c s
  pub routes_are :
      (board id : String)
      → any (assigns board id) r.groups
        ≡ (contains known_boards board && (contains s.choice.test_ids id && runs_on c board id))

Passed-IsTrusted :
    (o : Outside) (s : Selection) (config_bytes : String) (r : Routes)
    (p : Passed o s config_bytes r)
    → IsTrusted o p.config s r
Passed-IsTrusted o s cb r p = record {
  fits = check_mode-FitsChanges o p.config p.qualified p.matching s s.choice.mode refl p.mode_is;
  routes_are = route_tests-assigns p.config s.choice.test_ids r p.routed_is;
}

-- Where `validate_selection` accepts a selection, under a configuration that the bytes hold: the
-- selection is full where a changed file forces that; its tests are exactly the runnable ones that
-- the changed files ask for, or all runnable ones; and the returned groups assign a test to a board
-- exactly when the board is known, the test selected, and the board can run it.
pub validate_selection-IsTrusted :
    (o : Outside) (s : Selection)
    (config_bytes environment_bytes tested_sha build_run_id build_image runtime_image
      vllm_commit : String)
    (c : Config) (r : Routes)
    → o.config_of config_bytes ≡ some c
    → validate_selection o s config_bytes environment_bytes tested_sha build_run_id build_image
        runtime_image vllm_commit
      ≡ some r
    → IsTrusted o c s r
validate_selection-IsTrusted o s cb eb ts br bi ri vc c r read accepted =
    let p = validate_selection-Passed o s cb eb ts br bi ri vc r accepted in
    rw (some-injective c p.config (sym read ∙ p.read_is)) (Passed-IsTrusted o s cb r p)
