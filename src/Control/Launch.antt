-- ===== src/Control/Launch.antt =====
-- `launch` and `run` of scripts/ci/ppu_ci_command.py: when a run is dispatched, and which calls change
-- what GitHub holds. The texts of the answers, and the search for the new run's link, are left out.
use vllm_sail.Base.{ℕ, String, Bool, true, false, not, ◌&&◌, ◌||◌, Option, none, some}
use vllm_sail.Base.{
  List, [], ◌∷◌, ◌++◌, ◌==◌, string_eq, nat_eq, find_first, leb, ltb, if◌then◌else◌,
}
use vllm_sail.Control.Outcome.{
  Outcome, done, rejected, failed, Reply, answer, http_error, broken, ◌>>=◌, ◌>>◌, require, expect,
}
use vllm_sail.Control.Authorize.{PullRequest, Controller, authorize}
use vllm_sail.Control.Runs.{Run, find_runs}

-- A call that changes something, whether it succeeds or not.
pub data Effect : Type 0 where
  pending_status : Effect
  error_status : Effect
  post : Effect
  fallback_post : Effect

-- What the calls answer.
pub record Posts : Type 0 where
  pub pending : Reply (Unit {0})
  pub posted : Reply (Unit {0})
  pub fallback : Option (Reply (Unit {0}))
  pub error : Reply (Unit {0})

-- The inner `try`: a client error is followed by the fallback, where there is one.
unfoldable pub attempt :
    Reply (Unit {0}) → Option (Reply (Unit {0})) → Reply (Unit {0}) × List Effect
attempt (answer u) fallback = (answer u, post ∷ [])
attempt (http_error code) none = (http_error code, post ∷ [])
attempt (http_error code) (some r) =
    if leb 400 code && ltb code 500
    then (r, post ∷ fallback_post ∷ [])
    else (http_error code, post ∷ [])
attempt broken fallback = (broken, post ∷ [])

-- The outer `except`: the status becomes an error, and an HTTP error is a rejection.
unfoldable pub report_error : Reply (Unit {0}) → Reply (Unit {0}) → Outcome (Unit {0}) × List Effect
report_error (answer u) error = (done tt, [])
report_error (http_error code) (answer u) = (rejected, error_status ∷ [])
report_error (http_error code) _ = (failed, error_status ∷ [])
report_error broken error = (failed, error_status ∷ [])

-- `launch`
unfoldable pub launch : Posts → Outcome (Unit {0}) × List Effect
unfolding attempt report_error
launch p = elim p.pending [
  | answer u ↦
      let tried = attempt p.posted p.fallback in
      let ended = report_error tried.0 p.error in (ended.0, pending_status ∷ tried.1 ++ ended.1)
  | http_error code ↦ (failed, pending_status ∷ [])
  | broken ↦ (failed, pending_status ∷ [])
]

-- What `run` reads from GitHub, in the order of its calls. `controller` answers the second
-- `authorize`, and `behind_by` is the number of commits that the head lacks of the base.
pub record Answers : Type 0 where
  pub default_branch : String
  pub runs : Reply (List Run)
  pub behind_by : Reply ℕ
  pub fresh : Reply (PullRequest × String)
  pub controller : Controller

abbrev pub is_active : Run → Bool
is_active r = not (r.status == "completed")

abbrev pub is_completed : Run → Bool
is_completed r = r.status == "completed"

abbrev pub is_found : Option Run → Bool
is_found none = false
is_found (some r) = true

-- What `run` does in front of `launch`; the value tells whether it goes on to it.
unfoldable pub prepare_run : Answers → ℕ → String → String → Bool → Outcome Bool
unfolding find_runs authorize string_eq nat_eq
prepare_run a number sha login allow_stale = do
  pages ← expect a.runs
  let runs = find_runs (a.controller.repo) a.default_branch (some number) (some sha) pages
  if is_found (find_first is_active runs) then done false else (do
    behind ← expect a.behind_by
    require (behind == 0 || allow_stale)
    fresh ← expect a.fresh
    require (fresh.1 == sha)
    writer ← authorize a.controller (fresh.0) login
    require (not (is_found (find_first is_completed runs)) || writer)
    done true)

abbrev pub launched : Posts → Outcome Bool → Outcome (Unit {0}) × List Effect
launched p (done true) = launch (record p { fallback = none })
launched p (done false) = (done tt, [])
launched p rejected = (rejected, [])
launched p failed = (failed, [])

-- `run`, which has no fallback; an active run is only answered with.
unfoldable pub run : Answers → Posts → ℕ → String → String → Bool → Outcome (Unit {0}) × List Effect
unfolding prepare_run launch
run a p number sha login allow_stale = launched p (prepare_run a number sha login allow_stale)
