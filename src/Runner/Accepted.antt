-- ===== src/Runner/Accepted.antt =====
-- Results of scripts/ci/ppu_ops_runner.py that are accepted, group by group.
use vllm_sail.Base.{String, ◌≡◌, sym, ap, ◌∙◌, Bool, true, ◌&&◌, not}
use vllm_sail.Base.{some, List, map, ◌==◌, string_eq, list_eq, nat_eq}
use vllm_sail.Base.{all, find_first, ==_true}
use vllm_sail.Base.{option_eq, ◌||◌}
use mathlib.Core.Path.{subst}
use mathlib.Core.Option.{some-injective}
use vllm_sail.Base.Failing.{then_require, then_some}
use vllm_sail.Select.Config.{Config}
use vllm_sail.Base.{false, if◌then◌else◌}
use vllm_sail.Select.Choice.{catalog_ids}
use vllm_sail.Select.Routes.{Group, Routes, route_tests}
use vllm_sail.Select.Formats.{decimal}
use vllm_sail.Select.Environment.{is_valid_runtime_profile, fingerprint_eq}
use vllm_sail.Select.Selection.{Selection}
use vllm_sail.Runner.Evidence.{
  Effective, effective_eq, effective_selection, effective_groups, new_effective, expanded_groups,
  replace_group,
}
use vllm_sail.Runner.Group.{
  Directory, RunSetting, check_files, check_reports, validate_planned, succeeded, plan_identity,
  identity_eq, selection_eq, expansion_reason, phase_ok,
}
use vllm_sail.Runner.Passed.{AllPassed, check_files-pass}

-- The groups that are run: the planned ones, or, where the environment is reported to have been
-- expanded, those where the board's group is the one to which `route_tests` gives all tests of the
-- catalog for that board.
abbrev pub IsRun : Config → List Group → String → List Group → Bool → Type 0
unfolding string_eq
IsRun c planned board groups false = groups ≡ planned
IsRun c planned board groups true =
    (routes : Routes) × (route_tests c (map (λ t. t.id) c.test_catalog) ≡ some routes)
    × ((whole : Group) × (find_first (λ g. g.board == board) routes.groups ≡ some whole)
        × (groups ≡ map (λ g. if g.board == board then whole else g) planned))

effective_groups-IsRun :
    (c : Config) (planned : List Group) (board : String) (expanded : Bool) (groups : List Group)
    → effective_groups c planned board expanded ≡ some groups
    → IsRun c planned board groups expanded
unfolding expanded_groups replace_group
effective_groups-IsRun c planned board false groups h = sym (some-injective planned groups h)
effective_groups-IsRun c planned board true groups h =
    let (routes, routed, h1) = then_some (route_tests c (catalog_ids c)) _ h in
    let (whole, is, h2) = then_some (find_first (λ g. g.board == board) routes.groups) _ h1 in
    (
      routes,
      routed,
      (whole, is, sym (some-injective (replace_group board whole planned) groups h2)),
    )

-- A directory that shows that a planned group passed: it is of this run and this plan, and the test
-- files of the group, or of the board where it was expanded, are those that ran, and each passed.
pub record GroupPassed (x : RunSetting) (c : Config) (original : Selection)
    (bytes run attempt : String) (require_success : Bool) (d : Directory) (planned : Group)
    : Type 0 where
  pub identity_is : d.summary.identity ≡ plan_identity original planned run attempt
  pub plan_is : d.selection ≡ original
  pub succeeds : (not require_success || succeeded d.summary) ≡ true
  pub groups : List Group
  pub groups_are : IsRun c original.routes.groups planned.board groups d.environment.expanded
  pub group : Group
  pub group_is : find_first (λ g. g.group_id == planned.group_id) groups ≡ some group
  pub ran : map (λ r. r.test_id) d.timings.files ≡ group.test_ids
  pub all_passed : AllPassed c d planned.board d.timings.files

decimal_lem : (s r : String) → decimal s ≡ some r → r ≡ s
unfolding decimal
decimal_lem s r h = sym (some-injective s r (then_require _ (some s) h).1)

module _ (x : RunSetting) (c : Config) where
  effective_selection-groups :
      (original : Selection) (bytes board : String) (expanded : Bool) (e : Effective)
      → effective_selection x.checksum c original bytes board expanded ≡ some e
      → effective_groups c original.routes.groups board expanded ≡ some e.groups
  unfolding effective_selection
  effective_selection-groups original bytes board expanded e h =
      let (gs, is, q) = then_some (effective_groups c original.routes.groups board expanded) _ h in
      let k = some-injective (new_effective x.checksum original bytes board expanded gs) e q in
      is ∙ ap (λ (e : Effective). some e.groups) k

  check_reports-GroupPassed :
      (original : Selection) (bytes run attempt : String) (rs : Bool) (d : Directory)
      (planned : Group)
      → d.summary.identity ≡ plan_identity original planned run attempt
      → check_reports x c original bytes d planned rs ≡ some tt
      → GroupPassed x c original bytes run attempt rs d planned
  unfolding check_reports
  check_reports-GroupPassed original bytes run attempt rs d planned identity_is h =
      let (succeeds, h1) = then_require (not rs || succeeded d.summary) _ h in
      let (plan, h2) = then_require (d.selection == original) _ h1 in
      let (_, h3) = then_require (is_valid_runtime_profile x.lower d.environment.profile) _ h2 in
      let (_, h4) = then_require (d.environment.runtime_image == original.runtime_image) _ h3 in
      let (_, h5) =
        then_require (d.environment.expansion_reason == expansion_reason d.environment.expanded) _
          h4 in
      let (expected, effective, h6) =
        then_some
          (effective_selection x.checksum c original bytes planned.board d.environment.expanded) _
          h5 in
      let (same, h7) = then_require (d.effective == expected) _ h6 in
      let (group, group_is, h8) =
        then_some (find_first (λ g. g.group_id == planned.group_id) d.effective.groups) _ h7 in
      let (_, h9) =
        then_require
          (d.timings.config_sha256 == original.config_sha256
            && d.timings.build_fingerprint == original.build_fingerprint
            && d.timings.runtime_image == original.runtime_image)
          _ h8 in
      let (_, h10) = then_require (d.timings.nproc_per_node == 1) _ h9 in
      let (_, h11) =
        then_require (all (phase_ok d.timings.has_timing_error) d.timings.phases) _ h10 in
      let (ran, h12) =
        then_require (map (λ r. r.test_id) d.timings.files == group.test_ids) _ h11 in
      let (_, checked, _) = then_some (check_files x c d planned.board d.timings.files) _ h12 in
      record {
        identity_is = identity_is;
        plan_is = ==_true _ _ plan;
        succeeds = succeeds;
        groups = d.effective.groups;
        groups_are =
            effective_groups-IsRun c original.routes.groups planned.board d.environment.expanded
              d.effective.groups
              (effective_selection-groups original bytes planned.board _ expected effective
                ∙ ap (λ (e : Effective). some e.groups) (sym (==_true d.effective expected same)));
        group = group;
        group_is = group_is;
        ran = ==_true _ _ ran;
        all_passed = check_files-pass x c d planned.board d.timings.files checked;
      }

  -- The planned group of an identifier, with a directory that shows that it passed.
  abbrev pub PlannedPassed :
      Selection → String → String → String → String → Bool → Directory → Type 0
  PlannedPassed original bytes run attempt group_id rs d =
      (planned : Group) × (find_first (λ g. g.group_id == group_id) original.routes.groups
        ≡ some planned)
      × (d.summary.identity.group_id ≡ group_id)
      × GroupPassed x c original bytes run attempt rs d planned

  pub validate_planned-GroupPassed :
      (original : Selection) (bytes run_id run_attempt group_id : String) (rs : Bool)
      (d : Directory)
      → validate_planned x c original bytes d run_id run_attempt rs ≡ some group_id
      → PlannedPassed original bytes run_id run_attempt group_id rs d
  unfolding validate_planned
  validate_planned-GroupPassed original bytes run_id run_attempt group_id rs d h =
      let own = d.summary.identity.group_id in
      let (planned, at, h2) =
        then_some (find_first (λ g. g.group_id == own) original.routes.groups) _ h in
      let (run, run_is, h3) = then_some (decimal run_id) _ h2 in
      let (attempt, attempt_is, h4) = then_some (decimal run_attempt) _ h3 in
      let identity = plan_identity original planned run attempt in
      let (mine, h5) = then_require (d.summary.identity == identity) _ h4 in
      let (_, h6) = then_require (d.environment.identity == identity) _ h5 in
      let (_, h7) = then_require (d.timings.identity == identity) _ h6 in
      let (_, checked, end) = then_some (check_reports x c original bytes d planned rs) _ h7 in
      let passed =
        check_reports-GroupPassed original bytes run attempt rs d planned
          (==_true d.summary.identity identity mine) checked in
      let own_is = some-injective own group_id end in
      (
        planned,
        subst (λ i. find_first (λ g. g.group_id == i) original.routes.groups ≡ some planned) own_is
            at,
        own_is,
        subst (λ r. GroupPassed x c original bytes r run_attempt rs d planned)
            (decimal_lem run_id run run_is)
            (subst (λ r. GroupPassed x c original bytes run r rs d planned)
              (decimal_lem run_attempt attempt attempt_is) passed),
      )
