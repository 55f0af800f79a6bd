-- ===== src/Control/Dispatch.antt =====
-- When `run` of scripts/ci/ppu_ci_command.py changes anything, and what `launch` leaves.
use vllm_sail.Base.{
  ℕ, String, Bool, true, false, not, ◌||◌, some, ◌≡◌, ◌≢◌, ◌⊎◌, refl, ◌∙◌, inl, inr, ap,
}
use vllm_sail.Base.{List, [], ◌∷◌, ◌++◌, ◌==◌, ==_true, string_eq, nat_eq, find_first, Bool-cases}
use vllm_sail.Control.Outcome.{
  Outcome, done, rejected, failed, Reply, answer, http_error, broken, expect, then_require,
  then_done, expect-answer,
}
use vllm_sail.Control.Authorize.{PullRequest, authorize}
use vllm_sail.Control.Allowed.{IsAllowed, authorize-IsAllowed}
use vllm_sail.Control.Runs.{Run, find_runs}
use vllm_sail.Base.{any, sym, ◌&&◌}
use vllm_sail.Control.Found.{is_for, any-find_runs, is_found-any}
use vllm_sail.Control.Launch.{
  Effect, pending_status, error_status, Posts, Answers, is_active, is_completed, is_found, attempt,
  report_error, launch, prepare_run, launched, run,
}

-- What holds where a run is dispatched.
pub record MayDispatch (a : Answers) (number : ℕ) (sha login : String) (allow_stale : Bool)
    : Type 0 where
  pub pages : List Run
  pub behind : ℕ
  pub pull_request : PullRequest
  pub writer : Bool
  pub runs_are : a.runs ≡ answer pages
  pub idle :
      any
        (λ r.
          is_for (a.controller.repo) a.default_branch number sha r && not (r.status == "completed"))
        pages
      ≡ false
  pub behind_is : a.behind_by ≡ answer behind
  pub up_to_date : (behind == 0 || allow_stale) ≡ true
  pub fresh_is : a.fresh ≡ answer (pull_request, sha)
  pub allowed : IsAllowed a.controller pull_request login writer
  pub new_or_writer :
      (not (
          any
            (λ r.
              is_for (a.controller.repo) a.default_branch number sha r && r.status == "completed")
            pages)
        || writer)
      ≡ true

prepare_run-MayDispatch :
    (a : Answers) (number : ℕ) (sha login : String) (allow_stale : Bool)
    → prepare_run a number sha login allow_stale ≡ done true
    → MayDispatch a number sha login allow_stale
unfolding prepare_run
prepare_run-MayDispatch a number sha login allow_stale h =
    let (pages, e1, h1) = then_done (expect a.runs) _ h in
    let runs = find_runs (a.controller.repo) a.default_branch (some number) (some sha) pages in
    elim (Bool-cases (is_found (find_first is_active runs))) [
      | inl active ↦ absurd (done_false-ne-true (rw active at h1))
      | inr idle ↦
          let (behind, e2, h2) = then_done (expect a.behind_by) _ (rw idle at h1) in
          let (current, h3) = then_require (behind == 0 || allow_stale) _ h2 in
          let (fresh, e4, h4) = then_done (expect a.fresh) _ h3 in
          let (same, h5) = then_require (fresh.1 == sha) _ h4 in
          let (writer, e6, h6) = then_done (authorize a.controller (fresh.0) login) _ h5 in
          let (untested, h7) =
            then_require (not (is_found (find_first is_completed runs)) || writer) _ h6 in
          record {
            pages = pages;
            behind = behind;
            pull_request = fresh.0;
            writer = writer;
            runs_are = expect-answer a.runs pages e1;
            idle = sym (seen is_active pages) ∙ idle;
            behind_is = expect-answer a.behind_by behind e2;
            up_to_date = current;
            fresh_is =
                expect-answer a.fresh fresh e4
                ∙ ap (λ (s : String). answer (fresh.0, s)) (==_true (fresh.1) sha same);
            allowed = authorize-IsAllowed a.controller (fresh.0) login writer e6;
            new_or_writer = ap (λ b. not b || writer) (sym (seen is_completed pages)) ∙ untested;
          }
    ]
  where
    seen :
        (q : Run → Bool) (pages : List Run)
        → is_found (
            find_first q
              (find_runs (a.controller.repo) a.default_branch (some number) (some sha) pages))
          ≡ any (λ r. is_for (a.controller.repo) a.default_branch number sha r && q r) pages
    seen q pages =
        is_found-any q _ ∙ any-find_runs (a.controller.repo) a.default_branch number sha q pages

    done_false-ne-true : done false ≢ done true
    done_false-ne-true h = cc

launched_cases : (p : Posts) (o : Outcome Bool) → (launched p o).1 ≢ [] → o ≡ done true
launched_cases p (done true) h = refl
launched_cases p (done false) h = absurd (h refl)
launched_cases p rejected h = absurd (h refl)
launched_cases p failed h = absurd (h refl)

-- Where `run` tries any call that changes something, GitHub's pages hold no run of the workflow for
-- this head of this pull request that is not completed; the head is not behind its base, or that was
-- allowed; the pull request still has that head, and `authorize` lets the requester start CI for it
-- as it is then; and the pages hold no completed run for the head, or the requester may write.
pub run-MayDispatch :
    (a : Answers) (p : Posts) (number : ℕ) (sha login : String) (allow_stale : Bool)
    → (run a p number sha login allow_stale).1 ≢ []
    → MayDispatch a number sha login allow_stale
unfolding run
run-MayDispatch a p number sha login allow_stale h =
    prepare_run-MayDispatch a number sha login allow_stale
      (launched_cases p (prepare_run a number sha login allow_stale) h)

abbrev is_error : Effect → Bool
is_error error_status = true
is_error _ = false

-- The last call sets the status to an error.
abbrev pub ends_in_error : List Effect → Bool
ends_in_error [] = false
ends_in_error (e ∷ []) = is_error e
ends_in_error (e ∷ f ∷ es) = ends_in_error (f ∷ es)

ends_in_error-append : (es : List Effect) → ends_in_error (es ++ (error_status ∷ [])) ≡ true
ends_in_error-append [] = refl
ends_in_error-append (e ∷ []) = refl
ends_in_error-append (e ∷ f ∷ es) = ends_in_error-append (f ∷ es)

report_error-ends :
    (r error : Reply (Unit {0})) (es : List Effect)
    → ((report_error r error).0 ≡ done tt) ⊎ (ends_in_error (es ++ (report_error r error).1) ≡ true)
unfolding report_error
report_error-ends (answer u) error es = inl refl
report_error-ends (http_error code) (answer u) es = inr (ends_in_error-append es)
report_error-ends (http_error code) (http_error other) es = inr (ends_in_error-append es)
report_error-ends (http_error code) broken es = inr (ends_in_error-append es)
report_error-ends broken error es = inr (ends_in_error-append es)

-- The first call that `launch` makes is to set a pending status. Where it succeeds, `launch` either
-- ends well, or the last call that it makes is to set the status to an error; whether that one
-- succeeds is not said.
pub launch-ends_in_error :
    (p : Posts)
    → p.pending ≡ answer tt
    → ((later : List Effect) × ((launch p).1 ≡ pending_status ∷ later))
      × (((launch p).0 ≡ done tt) ⊎ (ends_in_error (launch p).1 ≡ true))
unfolding launch
launch-ends_in_error p h =
    let tried = attempt p.posted p.fallback in
    let ended = report_error tried.0 p.error in
    (
      (tried.1 ++ ended.1, rw h refl),
      rw h (report_error-ends (tried.0) p.error (pending_status ∷ tried.1)),
    )
