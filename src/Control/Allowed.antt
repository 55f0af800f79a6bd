-- ===== src/Control/Allowed.antt =====
-- Whom `authorize` of scripts/ci/ppu_ci_command.py lets start CI.
use vllm_sail.Base.{
  String, Bool, true, false, not, ◌&&◌, ◌||◌, none, some, ◌≡◌, ◌⊎◌, refl, ◌∙◌, inl, inr, sym,
}
use vllm_sail.Base.{
  List, [], ◌∷◌, ◌==◌, ==_true, ==_refl, ap, string_eq, option_eq, contains, any, if◌then◌else◌,
  arith, Bool-cases,
}
use mathlib.Core.Option.{none-ne-some}
use vllm_sail.Base.Names.{Names, lookup}
use vllm_sail.Control.Outcome.{
  done, answer, expect, then_require, then_done, done-injective, expect-answer,
}
use vllm_sail.Control.Authorize.{
  PullRequest, Review, Controller, ready_labels, can_write, sorted_reviews, note_reviews,
  is_approved, authorize_reviewed, authorize_author, authorize,
}
use vllm_sail.Control.Latest.{
  last_decision, HasDistinctKeys, note_reviews-HasDistinctKeys, latest-last_decision,
}

-- Someone who is trusted, or who may write, has approved by the last decision made.
pub record IsReviewed (c : Controller) : Type 0 where
  pub reviews : List Review
  pub reviewer : String
  pub decision_is : c.review_decision ≡ answer (some "APPROVED")
  pub reviews_are : c.reviews ≡ answer reviews
  pub approved : last_decision c.lower reviewer (sorted_reviews reviews) ≡ some "APPROVED"
  pub reviewer_is : (contains c.trusted reviewer ≡ true) ⊎ (can_write c reviewer ≡ done true)

-- The author of a pull request that is no draft, and is labelled ready or reviewed.
pub record IsReadyAuthor (c : Controller) (pr : PullRequest) (login : String) : Type 0 where
  pub author_is : c.lower login ≡ c.lower pr.author
  pub finished : pr.draft ≡ false
  pub ready : (any (contains ready_labels) pr.labels ≡ true) ⊎ IsReviewed c

-- Who may start CI, and whether as a writer.
pub record IsAllowed (c : Controller) (pr : PullRequest) (login : String) (writer : Bool)
    : Type 0 where
  pub open_is : pr.state ≡ "open"
  pub repo_is : pr.base_repo ≡ c.repo
  pub writer_is : can_write c login ≡ done writer
  pub by :
      (writer ≡ true) ⊎ ((contains c.trusted (c.lower login) ≡ true) ⊎ IsReadyAuthor c pr login)

-- A reviewer whom the loop found.
record Approval (c : Controller) (d : Names String) : Type 0 where
  who : String
  approved_is : lookup who d ≡ some "APPROVED"
  may : (contains c.trusted who ≡ true) ⊎ (can_write c who ≡ done true)

Approval-later :
    (c : Controller) (k v : String) (d : Names String)
    → lookup k d ≡ none
    → Approval c d
    → Approval c ((k, v) ∷ d)
unfolding lookup
Approval-later c k v d fresh a = record {
  who = a.who;
  approved_is = elim (Bool-cases (a.who == k)) [
    | inl same ↦
        let e = ==_true a.who k same in
        absurd (none-ne-some "APPROVED" (sym fresh ∙ rw (← e) a.approved_is))
    | inr ne ↦ rw ne a.approved_is
  ];
  may = a.may;
}

Approval-here :
    (c : Controller) (k v : String) (d : Names String)
    → (v == "APPROVED") ≡ true
    → (contains c.trusted k ≡ true) ⊎ (can_write c k ≡ done true)
    → Approval c ((k, v) ∷ d)
unfolding lookup
Approval-here c k v d e m = record {
  who = k;
  approved_is = rw (==_refl k) (ap some (==_true v "APPROVED" e));
  may = m;
}

is_approved-Approval :
    (c : Controller) (d : Names String)
    → HasDistinctKeys d
    → is_approved c d ≡ done true
    → Approval c d
unfolding is_approved
is_approved-Approval c [] s h = cc
is_approved-Approval c ((k, v) ∷ d) (fresh, s) h = elim (Bool-cases (v == "APPROVED")) [
  | inr other ↦ Approval-later c k v d fresh (is_approved-Approval c d s (rw other at h))
  | inl approved ↦ elim (Bool-cases (contains c.trusted k)) [
    | inl t ↦ Approval-here c k v d approved (inl t)
    | inr u ↦
        let h1 = rw (approved, u) at h in
        let (w, e, h2) = then_done (can_write c k) _ h1 in
        elim (Bool-cases w) [
          | inl yes' ↦ Approval-here c k v d approved (inr (rw (← yes') e))
          | inr no' ↦ Approval-later c k v d fresh (is_approved-Approval c d s (rw no' at h2))
        ]
  ]
]

authorize_reviewed-IsReviewed :
    (c : Controller) (w : Bool) → authorize_reviewed c ≡ done w → (w ≡ false) × IsReviewed c
unfolding authorize_reviewed
authorize_reviewed-IsReviewed c w h =
    let (decision, e1, h1) = then_done (expect c.review_decision) _ h in
    let (approved, h2) = then_require (decision == some "APPROVED") _ h1 in
    let (reviews, e3, h3) = then_done (expect c.reviews) _ h2 in
    let d = note_reviews c.lower (sorted_reviews reviews) [] in
    let (found, e4, h4) = then_done (is_approved c d) _ h3 in
    let (yes', h5) = then_require found _ h4 in
    let a =
      is_approved-Approval c d (note_reviews-HasDistinctKeys c.lower (sorted_reviews reviews) [] tt)
        (e4 ∙ ap done yes') in
    (
      done-injective w false (sym h5),
      record {
        reviews = reviews;
        reviewer = a.who;
        decision_is =
            expect-answer c.review_decision (some "APPROVED")
              (e1 ∙ ap done (==_true decision (some "APPROVED") approved));
        reviews_are = expect-answer c.reviews reviews e3;
        approved =
            sym (latest-last_decision c.lower a.who (sorted_reviews reviews)) ∙ a.approved_is;
        reviewer_is = a.may;
      },
    )

and_parts : (a b : Bool) → (a && b) ≡ true → (a ≡ true) × (b ≡ true)
and_parts true b h = (refl, h)
and_parts false b h = cc

authorize_author-IsReadyAuthor :
    (c : Controller) (pr : PullRequest) (login : String) (w : Bool)
    → authorize_author c pr login ≡ done w
    → (w ≡ false) × IsReadyAuthor c pr login
unfolding authorize_author
authorize_author-IsReadyAuthor c pr login w h =
    let (own, h1) = then_require (c.lower login == c.lower pr.author && not pr.draft) _ h in
    let (same, finished) = and_parts (c.lower login == c.lower pr.author) (not pr.draft) own in
    let author = ==_true (c.lower login) (c.lower pr.author) same in
    let no_draft : pr.draft ≡ false = ground arith in
    elim (Bool-cases (any (contains ready_labels) pr.labels)) [
      | inl labelled ↦ (
        done-injective w false (sym (rw labelled at h1)),
        record { author_is = author; finished = no_draft; ready = inl labelled },
      )
      | inr bare ↦
          let (e, r) = authorize_reviewed-IsReviewed c w (rw bare at h1) in
          (e, record { author_is = author; finished = no_draft; ready = inr r })
    ]

abbrev Grounds : Controller → PullRequest → String → Bool → Type 0
Grounds c pr login w =
    (w ≡ true) ⊎ ((contains c.trusted (c.lower login) ≡ true) ⊎ IsReadyAuthor c pr login)

decided :
    (c : Controller) (pr : PullRequest) (login : String) (writer w : Bool)
    → can_write c login ≡ done writer
    → (if writer || contains c.trusted (c.lower login)
        then done writer
        else authorize_author c pr login)
      ≡ done w
    → (can_write c login ≡ done w) × Grounds c pr login w
decided c pr login true w e h =
    let same = done-injective true w h in (e ∙ ap done same, inl (sym same))
decided c pr login false w e h = elim (Bool-cases (contains c.trusted (c.lower login))) [
  | inl t ↦ let same = done-injective false w (rw t at h) in (e ∙ ap done same, inr (inl t))
  | inr u ↦
      let (same, ready) = authorize_author-IsReadyAuthor c pr login w (rw u at h) in
      (e ∙ ap done (sym same), inr (inr ready))
]

-- Where `authorize` returns, the pull request is open and targets the repository; the value tells
-- whether the requester may write; and the requester may write, or is trusted, or is the author of a
-- pull request that is no draft and has a ready label, or that GitHub calls approved and whose
-- reviews contain an approval, as its reviewer's last decision, by one who is trusted or may write.
pub authorize-IsAllowed :
    (c : Controller) (pr : PullRequest) (login : String) (w : Bool)
    → authorize c pr login ≡ done w
    → IsAllowed c pr login w
unfolding authorize
authorize-IsAllowed c pr login w h =
    let (good, h1) = then_require (pr.state == "open" && pr.base_repo == c.repo) _ h in
    let (opened, ours) = and_parts (pr.state == "open") (pr.base_repo == c.repo) good in
    let (writer, e, h2) = then_done (can_write c login) _ h1 in
    let (writes, by) = decided c pr login writer w e h2 in
    record {
      open_is = ==_true pr.state "open" opened;
      repo_is = ==_true pr.base_repo c.repo ours;
      writer_is = writes;
      by = by;
    }
