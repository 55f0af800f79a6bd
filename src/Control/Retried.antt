-- ===== src/Control/Retried.antt =====
-- Properties of `retry` of scripts/ci/ppu_ci_command.py.
use vllm_sail.Base.{ℕ, String, Bool, true, false, ◌||◌, some, ◌≡◌, ◌≢◌, refl, inl, inr}
use vllm_sail.Base.{List, [], ◌∷◌, arith, ◌==◌, string_eq, nat_eq, any, Bool-cases}
use vllm_sail.Control.Outcome.{
  Outcome, done, rejected, failed, Reply, answer, expect, then_done, then_require, expect-answer,
  done-injective,
}
use vllm_sail.Control.Runs.{Run, find_runs}
use mathlib.Core.List.{Memᴰ}
use vllm_sail.Base.{select}
use vllm_sail.Control.Found.{is_for, NoNewer, find_runs-newest}
use vllm_sail.Control.Launch.{Posts, is_active}
use vllm_sail.Control.Wheels.{Builds, Artifact, is_wheels}
use vllm_sail.Control.Cancel.{Job, is_built, check_wheels, retry_newest, prepare_retry, retry}

-- The jobs of a run, of which a build that succeeded has left wheels that have not expired.
pub record HasWheels (b : Builds) (jobs_of : ℕ → Reply (List Job)) (id : ℕ) : Type 0 where
  pub jobs : List Job
  pub listed : jobs_of id ≡ answer jobs
  pub kept :
      any is_built jobs ≡ true
      → (artifacts : List Artifact) × (b.artifacts id ≡ answer artifacts)
        × (any (is_wheels b id) artifacts ≡ true)

check_wheels-HasWheels :
    (b : Builds) (jobs_of : ℕ → Reply (List Job)) (id : ℕ)
    → check_wheels b jobs_of id ≡ done true
    → HasWheels b jobs_of id
unfolding check_wheels
check_wheels-HasWheels b jobs_of id h =
    let (jobs, listed, k) = then_done (expect (jobs_of id)) _ h in
    record {
      jobs = jobs;
      listed = expect-answer (jobs_of id) jobs listed;
      kept = λ built.
          let (artifacts, found, j) = then_done (expect (b.artifacts id)) _ (rw built at k) in
          let (live, _) = then_require (any (is_wheels b id) artifacts) _ j in
          (artifacts, expect-answer (b.artifacts id) artifacts found, live);
    }

-- What has been checked where a run is started again.
pub record IsRetriable (b : Builds) (jobs_of : ℕ → Reply (List Job)) (number : ℕ) (sha : String)
    : Type 0 where
  pub pages : List Run
  pub newest : Run
  pub listed : b.runs ≡ answer pages
  pub is_one : Memᴰ newest (select (is_for b.repo b.default_branch number sha) pages)
  pub is_newest : NoNewer newest.id (select (is_for b.repo b.default_branch number sha) pages)
  pub ended : (newest.status == "completed") ≡ true
  pub unsuccessful : (newest.conclusion == "success") ≡ false
  pub wheels : HasWheels b jobs_of newest.id

module _ (b : Builds) (jobs_of : ℕ → Reply (List Job)) (number : ℕ) (sha : String) where
  newest-IsRetriable :
      (pages found : List Run)
      → b.runs ≡ answer pages
      → find_runs b.repo b.default_branch (some number) (some sha) pages ≡ found
      → retry_newest b jobs_of found ≡ done true
      → IsRetriable b jobs_of number sha
  unfolding retry_newest
  newest-IsRetriable pages [] listed e h = cc
  newest-IsRetriable pages (r ∷ rs) listed e h =
      elim (Bool-cases (is_active r || r.conclusion == "success")) [
        | inl no_need ↦ let k : false ≡ true = done-injective false true (rw no_need at h) in cc
        | inr needed ↦ record {
          pages = pages;
          newest = r;
          listed = listed;
          is_one = (find_runs-newest b.repo b.default_branch number sha pages r rs e).0;
          is_newest = (find_runs-newest b.repo b.default_branch number sha pages r rs e).1;
          ended = ground arith;
          unsuccessful = ground arith;
          wheels = check_wheels-HasWheels b jobs_of r.id (rw needed at h);
        }
      ]

  prepare_retry-IsRetriable :
      prepare_retry b jobs_of number sha ≡ done true → IsRetriable b jobs_of number sha
  unfolding prepare_retry
  prepare_retry-IsRetriable h =
      let (pages, listed, k) = then_done (expect b.runs) _ h in
      newest-IsRetriable pages (find_runs b.repo b.default_branch (some number) (some sha) pages)
        (expect-answer b.runs pages listed) refl k

  -- Where `retry` tries any call that changes something, a run of the workflow for this head of this
  -- pull request, than which GitHub's pages hold none with a higher number, has ended and did not
  -- succeed; and where its wheel build succeeded, it has wheels that have not expired.
  pub retry-IsRetriable :
      (p : Posts) → (retry b jobs_of p number sha).1 ≢ [] → IsRetriable b jobs_of number sha
  unfolding retry
  retry-IsRetriable p h = by_outcome (prepare_retry b jobs_of number sha) refl
    where
      by_outcome :
          (o : Outcome Bool)
          → prepare_retry b jobs_of number sha ≡ o
          → IsRetriable b jobs_of number sha
      by_outcome (done true) e = prepare_retry-IsRetriable e
      by_outcome (done false) e = absurd (h (rw e refl))
      by_outcome rejected e = absurd (h (rw e refl))
      by_outcome failed e = absurd (h (rw e refl))
