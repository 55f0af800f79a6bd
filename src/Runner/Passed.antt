-- ===== src/Runner/Passed.antt =====
-- What results that scripts/ci/ppu_ops_runner.py accepts are made of.
use vllm_sail.Base.{String, ◌≡◌, true, false, ◌&&◌, not}
use vllm_sail.Base.{some, List, [], ◌∷◌, map, ◌==◌, string_eq, list_eq, nat_eq}
use vllm_sail.Base.{all, arith, both_true, ==_true}
use vllm_sail.Base.{option_eq}
use vllm_sail.Base.Sorting.{sorted}
use vllm_sail.Base.Failing.{require, then_require, then_some}
use vllm_sail.Select.Config.{Config}
use vllm_sail.Base.{Bool, none, refl}
use vllm_sail.Base.Names.{Names}
use vllm_sail.Select.Routes.{by_id}
use vllm_sail.Runner.Nodes.{
  Phase, has_passed, Entry, NodeReport, PosixPaths, phases_passed, values_of, keys_of,
  validate_node_report, is_division, is_placed, is_isolated, is_subset, same_set, is_empty,
  function_of, is_timed,
}
use vllm_sail.Runner.Evidence.{Evidence, effective_eq, validate_file_evidence, case_of}
use vllm_sail.Runner.Group.{
  Directory, FileRecord, RunSetting, check_file, check_files, identity_eq, selection_eq,
}

-- A phase that passed, and was not expected to fail.
abbrev pub is_fine : Phase → Bool
unfolding string_eq option_eq
is_fine p = p.outcome == "passed" && p.wasxfail == none

-- A node has its three phases, and each of them passed.
abbrev pub phases_fine : Names Phase → Bool
unfolding string_eq
phases_fine phases =
    same_set (keys_of phases) ("setup" ∷ "call" ∷ "teardown" ∷ []) && all is_fine (values_of phases)

all_fine : (ps : List Phase) → all has_passed ps ≡ true → all is_fine ps ≡ true
unfolding has_passed
all_fine [] h = refl
all_fine (p ∷ ps) h = ground (arith, all_fine ps, h)

all-phases_fine :
    (nodes : List (Names Phase)) → all phases_passed nodes ≡ true → all phases_fine nodes ≡ true
unfolding phases_passed
all-phases_fine [] h = refl
all-phases_fine (phases ∷ nodes) h =
    let (one, rest) = both_true (phases_passed phases) _ h in
    let (names, passed) = both_true _ (all has_passed (values_of phases)) one in
    rw (names, all_fine (values_of phases) passed) (all-phases_fine nodes rest)

-- A test file that passed: its nodes are applicable or not by their boards, the applicable ones are
-- those that ran, every phase of these passed, and the JUnit document has their cases and no bad
-- one.
pub record FilePassed (c : Config) (d : Directory) (board : String) (r : FileRecord) : Type 0 where
  pub entry : Entry
  pub entry_is : by_id r.test_id c.test_catalog ≡ some entry
  pub evidence : Evidence
  pub evidence_is : d.evidence entry.id ≡ some evidence
  pub file_is : (r.file == entry.test) ≡ true
  pub outcome_is : r.outcome ≡ "success"
  pub placed : all (is_placed entry board evidence.report) evidence.report.collected ≡ true
  pub ran : same_set (keys_of evidence.report.nodes) evidence.report.applicable ≡ true
  pub nodes_passed : all phases_fine (values_of evidence.report.nodes) ≡ true
  pub no_bad_case : evidence.junit.has_bad_case ≡ false
  pub cases_are : sorted evidence.junit.cases ≡ sorted (map case_of evidence.report.applicable)

abbrev pub AllPassed : Config → Directory → String → List FileRecord → Type 0
AllPassed c d board [] = Unit
AllPassed c d board (r ∷ rs) = FilePassed c d board r × AllPassed c d board rs

validate_node_report-phases :
    (x : PosixPaths) (r : NodeReport) (e : Entry) (board : String)
    → validate_node_report x r e board ≡ some tt
    → (all (is_placed e board r) r.collected ≡ true)
      × (same_set (keys_of r.nodes) r.applicable ≡ true)
      × (all phases_passed (values_of r.nodes) ≡ true)
unfolding validate_node_report
validate_node_report-phases x r e board h =
    let (_, h1) = then_require (r.schema == 1 && r.board == board) _ h in
    let (_, h2) = then_require (r.file == e.test) _ h1 in
    let (_, h3) =
      then_require (r.status == "success" && r.exitstatus == 0 && is_empty r.errors) _ h2 in
    let (_, h4) = then_require (is_division r) _ h3 in
    let (placed, h5) = then_require (all (is_placed e board r) r.collected) _ h4 in
    let (_, h6) =
      then_require (is_subset (keys_of e.board_overrides) (map function_of r.collected)) _ h5 in
    let (ran, h7) = then_require (same_set (keys_of r.nodes) r.applicable) _ h6 in
    let (passed, _) =
      then_require (all phases_passed (values_of r.nodes)) (require (is_isolated x e r.runtime))
        h7 in
    (placed, ran, passed)

check_file-passes :
    (x : RunSetting) (c : Config) (d : Directory) (board : String) (r : FileRecord)
    → check_file x c d board r ≡ some tt
    → FilePassed c d board r
unfolding check_file validate_file_evidence
check_file-passes x c d board r h =
    let (entry, entry_is, h1) = then_some (by_id r.test_id c.test_catalog) _ h in
    let (named, h2) = then_require (r.file == entry.test && r.outcome == "success") _ h1 in
    let (_, h3) = then_require (is_timed r.duration_seconds) _ h2 in
    let (evidence, evidence_is, h4) = then_some (d.evidence entry.id) _ h3 in
    let (_, valid, _) = then_some (validate_file_evidence x.posix evidence entry board) _ h4 in
    let (t, nodes, v1) =
      then_some (validate_node_report x.posix evidence.report entry board) _ valid in
    let (_, v2) = then_require evidence.has_log _ v1 in
    let (clean, v3) = then_require (not evidence.junit.has_bad_case) _ v2 in
    let (cases, _) =
      then_require (sorted evidence.junit.cases == sorted (map case_of evidence.report.applicable))
        _ v3 in
    let (placed, ran, passed) =
      validate_node_report-phases x.posix evidence.report entry board nodes in
    let (file_is, outcome_is) = both_true (r.file == entry.test) _ named in
    record {
      entry = entry;
      entry_is = entry_is;
      evidence = evidence;
      evidence_is = evidence_is;
      file_is = file_is;
      outcome_is = ==_true r.outcome "success" outcome_is;
      placed = placed;
      ran = ran;
      nodes_passed = all-phases_fine (values_of evidence.report.nodes) passed;
      no_bad_case = ground arith;
      cases_are = ==_true _ _ cases;
    }

pub check_files-pass :
    (x : RunSetting) (c : Config) (d : Directory) (board : String) (rs : List FileRecord)
    → check_files x c d board rs ≡ some tt
    → AllPassed c d board rs
unfolding check_files
check_files-pass x c d board [] h = tt
check_files-pass x c d board (r ∷ rs) h =
    let (_, one, rest) = then_some (check_file x c d board r) _ h in
    (check_file-passes x c d board r one, check_files-pass x c d board rs rest)
