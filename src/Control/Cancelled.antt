-- ===== src/Control/Cancelled.antt =====
-- What a `cancel` of scripts/ci/ppu_ci_command.py that ends well has done.
use vllm_sail.Base.{ℕ, ◌≡◌, refl, ◌∙◌, ap, inl, inr}
use vllm_sail.Base.{List, [], ◌∷◌, map, select, Bool-cases}
use vllm_sail.Control.Outcome.{Outcome, done, rejected, failed, expect, then_done, done-injective}
use vllm_sail.Base.{String, Option, none, some, not, ◌==◌, string_eq, sym}
use vllm_sail.Control.Outcome.{Reply}
use vllm_sail.Control.Wheels.{source_of}
use vllm_sail.Control.Runs.{Title, Run}
use vllm_sail.Control.Launch.{is_active}
use vllm_sail.Control.Cancel.{
  Cancelling, cancel_run, set_status, Cancels, set_error, title_sha, cancel_one, cancel_runs,
}

-- Each run is cancelled, and the commit that its title names gets the status "error".
abbrev pub cancellations : List Run → List Cancelling
cancellations [] = []
cancellations (r ∷ rs) = cancel_run r.id ∷ set_status (source_of r.title) "error" ∷ cancellations rs

-- The runs that are not completed.
abbrev pub uncompleted : List Run → List Run
unfolding string_eq
uncompleted = select (λ r. not (r.status == "completed"))

set_error-done :
    (status_reply : String → Reply (Unit {0})) (id : ℕ) (t : Option Title)
    (rest : Outcome (List ℕ) × List Cancelling) (ids : List ℕ)
    → (set_error status_reply id (title_sha t) rest).0 ≡ done ids
    → (is : List ℕ) × (rest.0 ≡ done is)
      × (id ∷ is ≡ ids)
      × ((set_error status_reply id (title_sha t) rest).1
          ≡ cancel_run id ∷ set_status (source_of t) "error" ∷ rest.1)
set_error-done status_reply id none rest ids h = cc
set_error-done status_reply id (some t) (o, es) ids h =
    by_reply (expect (status_reply t.head_sha)) refl
  where
    by_reply :
        (reply : Outcome (Unit {0}))
        → expect (status_reply t.head_sha) ≡ reply
        → (is : List ℕ) × (o ≡ done is)
          × (id ∷ is ≡ ids)
          × ((set_error status_reply id (done t.head_sha) (o, es)).1
              ≡ cancel_run id ∷ set_status t.head_sha "error" ∷ es)
    by_reply (done u) e =
        let (is, told, k) = then_done o (λ is. done (id ∷ is)) (rw (set_error, e) at h) in
        (is, told, done-injective (id ∷ is) ids k, rw (set_error, e) refl)
    by_reply rejected e = let k : rejected ≡ done ids = rw (set_error, e) at h in cc
    by_reply failed e = let k : failed ≡ done ids = rw (set_error, e) at h in cc

cancel_one-done :
    (c : Cancels) (r : Run) (x : Outcome (Unit {0})) (rest : Outcome (List ℕ) × List Cancelling)
    (ids : List ℕ)
    → (cancel_one c r x rest).0 ≡ done ids
    → (is : List ℕ) × (rest.0 ≡ done is)
      × (r.id ∷ is ≡ ids)
      × ((cancel_one c r x rest).1
          ≡ cancel_run r.id ∷ set_status (source_of r.title) "error" ∷ rest.1)
cancel_one-done c r (done u) rest ids h = set_error-done c.status_reply r.id r.title rest ids h
cancel_one-done c r rejected rest ids h = cc
cancel_one-done c r failed rest ids h = cc

-- Where the loop over the runs ends well, it told of exactly the runs whose status is not
-- "completed", in their order, and made exactly these calls: each of these runs was cancelled, and
-- then the commit that its title names got the status "error".
pub cancel_runs-done :
    (c : Cancels) (rs : List Run) (ids : List ℕ)
    → (cancel_runs c rs).0 ≡ done ids
    → (ids ≡ map (λ r. r.id) (uncompleted rs))
      × ((cancel_runs c rs).1 ≡ cancellations (uncompleted rs))
unfolding cancel_runs
cancel_runs-done c [] ids h = let e = done-injective [] ids h in rw (← e) (refl, refl)
cancel_runs-done c (r ∷ rs) ids h = elim (Bool-cases (is_active r)) [
  | inr no' ↦ rw no' (cancel_runs-done c rs ids (rw no' at h))
  | inl active ↦
      let (is, e, q, k) =
        cancel_one-done c r (expect (c.cancel_reply r.id)) (cancel_runs c rs) ids
          (rw active at h) in
      let (told, made) = cancel_runs-done c rs is e in
      rw active (
        sym q ∙ ap (λ (l : List ℕ). r.id ∷ l) told,
        k
            ∙ ap
                (λ (l : List Cancelling).
                  cancel_run r.id ∷ set_status (source_of r.title) "error" ∷ l)
                made,
      )
]
