-- ===== src/Control/Cancel.antt =====
-- `cancel` and `retry` of scripts/ci/ppu_ci_command.py, without the texts of their answers.
use vllm_sail.Base.{ℕ, String, Bool, true, false, ◌&&◌, ◌||◌, none, some}
use vllm_sail.Base.{List, [], ◌∷◌, ◌==◌, string_eq, nat_eq, any, if◌then◌else◌}
use vllm_sail.Control.Outcome.{Outcome, done, rejected, failed, Reply, ◌>>=◌, ◌>>◌, require, expect}
use vllm_sail.Base.{Option}
use vllm_sail.Control.Runs.{Title, Run, find_runs}
use vllm_sail.Control.Launch.{Effect, Posts, launch, is_active}
use vllm_sail.Control.Wheels.{Builds, is_wheels}

-- A call of `cancel` that changes something: a run is cancelled, or a commit gets a status.
pub data Cancelling : Type 0 where
  cancel_run : ℕ → Cancelling
  set_status : String → String → Cancelling

-- What the calls answer, by run and by commit.
pub record Cancels : Type 0 where
  pub cancel_reply : ℕ → Reply (Unit {0})
  pub status_reply : String → Reply (Unit {0})

-- `TITLE.fullmatch(...)[2]`, which raises where the title does not match.
abbrev pub title_sha : Option Title → Outcome String
title_sha none = failed
title_sha (some t) = done t.head_sha

-- One active run; the rest is done where both calls succeed.
abbrev pub set_error :
    (String → Reply (Unit {0}))
    → ℕ
    → Outcome String
    → Outcome (List ℕ) × List Cancelling
    → Outcome (List ℕ) × List Cancelling
set_error status_reply id (done sha) (o, es) = elim (expect (status_reply sha)) [
  | done u ↦ (o >>= λ ids. done (id ∷ ids), cancel_run id ∷ set_status sha "error" ∷ es)
  | rejected ↦ (rejected, cancel_run id ∷ set_status sha "error" ∷ [])
  | failed ↦ (failed, cancel_run id ∷ set_status sha "error" ∷ [])
]
set_error status_reply id rejected rest = (rejected, cancel_run id ∷ [])
set_error status_reply id failed rest = (failed, cancel_run id ∷ [])

abbrev pub cancel_one :
    Cancels
    → Run
    → Outcome (Unit {0})
    → Outcome (List ℕ) × List Cancelling
    → Outcome (List ℕ) × List Cancelling
cancel_one c r (done u) rest = set_error c.status_reply r.id (title_sha r.title) rest
cancel_one c r rejected rest = (rejected, cancel_run r.id ∷ [])
cancel_one c r failed rest = (failed, cancel_run r.id ∷ [])

-- The loop; the value are the runs whose links are told.
unfoldable pub cancel_runs : Cancels → List Run → Outcome (List ℕ) × List Cancelling
unfolding string_eq
cancel_runs c [] = (done [], [])
cancel_runs c (r ∷ rs) =
    let rest = cancel_runs c rs in
    if is_active r then cancel_one c r (expect (c.cancel_reply r.id)) rest else rest

abbrev with_pages :
    Outcome (List Run)
    → (List Run → Outcome (List ℕ) × List Cancelling)
    → Outcome (List ℕ) × List Cancelling
with_pages (done rs) f = f rs
with_pages rejected f = (rejected, [])
with_pages failed f = (failed, [])

-- `cancel`, for every head of the pull request.
unfoldable pub cancel : Builds → Cancels → ℕ → Outcome (List ℕ) × List Cancelling
unfolding find_runs cancel_runs
cancel b c number =
    with_pages (expect b.runs)
      (λ rs. cancel_runs c (find_runs b.repo b.default_branch (some number) none rs))

-- A job of a run. `stage` is the last part of its name, stripped.
pub record Job : Type 0 where
  pub stage : String
  pub conclusion : String

abbrev pub is_built : Job → Bool
is_built j = j.stage == "PPU wheel build" && j.conclusion == "success"

-- Where the newest run has ended and failed.
unfoldable pub check_wheels : Builds → (ℕ → Reply (List Job)) → ℕ → Outcome Bool
unfolding string_eq
check_wheels b jobs_of id = do
  jobs ← expect (jobs_of id)
  if any is_built jobs
      then (do
        artifacts ← expect (b.artifacts id)
        require (any (is_wheels b id) artifacts)
        done true)
      else done true

unfoldable pub retry_newest : Builds → (ℕ → Reply (List Job)) → List Run → Outcome Bool
unfolding check_wheels string_eq
retry_newest b jobs_of [] = rejected
retry_newest b jobs_of (r ∷ rs) =
    if is_active r || r.conclusion == "success" then done false else check_wheels b jobs_of r.id

-- What `retry` does in front of `launch`; the value tells whether it goes on to it.
unfoldable pub prepare_retry : Builds → (ℕ → Reply (List Job)) → ℕ → String → Outcome Bool
unfolding find_runs retry_newest
prepare_retry b jobs_of number sha = do
  pages ← expect b.runs
  retry_newest b jobs_of (find_runs b.repo b.default_branch (some number) (some sha) pages)

abbrev retried : Posts → Outcome Bool → Outcome (Unit {0}) × List Effect
retried p (done true) = launch p
retried p (done false) = (done tt, [])
retried p rejected = (rejected, [])
retried p failed = (failed, [])

-- `retry`
unfoldable pub retry :
    Builds → (ℕ → Reply (List Job)) → Posts → ℕ → String → Outcome (Unit {0}) × List Effect
unfolding prepare_retry launch
retry b jobs_of p number sha = retried p (prepare_retry b jobs_of number sha)
