-- ===== src/Control/Report.antt =====
-- `inputs`, `validate` and `report` of scripts/ci/ppu_ci_command.py: what the executor of a dispatched run
-- checks, and the status that it sets at the end.
use vllm_sail.Base.{
  ℕ, String, Bool, true, false, not, ◌||◌, Option, none, some, ◌≡◌, ◌≢◌, ◌↔◌, refl, sym, ap, ◌∙◌,
  inl, inr,
}
use vllm_sail.Base.{
  List, [], ◌∷◌, ◌==◌, ==_true, ==_refl, string_eq, option_eq, Bool-cases, if◌then◌else◌,
}
use mathlib.Core.Path.{subst}
use vllm_sail.Base.{zero, suc, ◌&&◌, nat_eq}
use vllm_sail.Select.Formats.{codes, is_decimal, is_sha, is_alphanumeric}
use vllm_sail.Control.Outcome.{
  Outcome, done, rejected, failed, Reply, answer, ◌>>=◌, ◌>>◌, require, expect, then_require,
  then_done, expect-answer, done-injective,
}
use vllm_sail.Control.Authorize.{PullRequest, Controller, authorize}
use vllm_sail.Control.Allowed.{IsAllowed, authorize-IsAllowed}
use vllm_sail.Control.Wheels.{Builds, reusable_wheels}

-- The executor's inputs; an input that is missing or no text is `none`, and `others` are their
-- further keys.
pub record Inputs : Type 0 where
  pub pr_number : Option String
  pub head_sha : Option String
  pub requester : Option String
  pub comment_id : Option String
  pub others : List String

pub record Checked : Type 0 where
  pub pr_number : String
  pub head_sha : String
  pub requester : String
  pub comment_id : String

-- `re.fullmatch` with `[1-9][0-9]*`.
unfoldable pub is_number : String → Bool
unfolding is_decimal
is_number s = is_decimal (codes s)

abbrev is_login_code : ℕ → Bool
is_login_code c = is_alphanumeric c || c == b'-'

-- `(?:[A-Za-z0-9-]{0,37}[A-Za-z0-9])?`, where so many codes may stand in front of the last one.
unfoldable is_login_rest : ℕ → List ℕ → Bool
unfolding nat_eq
is_login_rest n [] = true
is_login_rest n (c ∷ []) = is_alphanumeric c
is_login_rest zero (c ∷ d ∷ cs) = false
is_login_rest (suc n) (c ∷ d ∷ cs) = is_login_code c && is_login_rest n (d ∷ cs)

abbrev is_login_of : List ℕ → Bool
is_login_of [] = false
is_login_of (c ∷ cs) = is_alphanumeric c && is_login_rest 37 cs

-- `re.fullmatch` with `LOGIN`.
unfoldable pub is_login : String → Bool
unfolding is_login_rest
is_login s = is_login_of (codes s)

abbrev fitting : (String → Bool) → Option String → Outcome String
fitting fits none = rejected
fitting fits (some value) = if fits value then done value else rejected

abbrev none_other : List String → Bool
none_other [] = true
none_other (x ∷ xs) = false

-- `inputs`
unfoldable pub inputs : Inputs → Outcome Checked
unfolding is_number is_sha is_login
inputs i = do
  pr_number ← fitting is_number i.pr_number
  head_sha ← fitting is_sha i.head_sha
  requester ← fitting is_login i.requester
  comment_id ← fitting is_number i.comment_id
  require (none_other i.others)
  done (record {
    pr_number = pr_number;
    head_sha = head_sha;
    requester = requester;
    comment_id = comment_id;
  })

-- What `validate` reads: the pull request with its head, by its number, and the earlier builds.
pub record Executor : Type 0 where
  pub pull : String → Reply (PullRequest × String)
  pub controller : Controller
  pub builds : Builds
  pub pending : Reply (Unit {0})

-- `best_effort(...) or ("", "")`: what is written to the outputs.
abbrev pub reuse_of : Outcome (Option (ℕ × String)) → Option (ℕ × String)
reuse_of (done r) = r
reuse_of rejected = none
reuse_of failed = none

-- `validate`; the value is the build that is used again.
unfoldable pub validate : Executor → Inputs → Outcome (Option (ℕ × String))
unfolding inputs authorize reusable_wheels string_eq
validate x i = do
  given ← inputs i
  pulled ← expect (x.pull given.pr_number)
  require (pulled.1 == given.head_sha)
  _ ← authorize x.controller (pulled.0) given.requester
  _ ← expect x.pending
  done (reuse_of (reusable_wheels x.builds given.head_sha))

-- The inputs are these four texts and no other, each of the form of its kind.
pub record IsWellFormed (i : Inputs) (given : Checked) : Type 0 where
  pub pr_number_is : i.pr_number ≡ some given.pr_number
  pub head_sha_is : i.head_sha ≡ some given.head_sha
  pub requester_is : i.requester ≡ some given.requester
  pub comment_id_is : i.comment_id ≡ some given.comment_id
  pub no_others : i.others ≡ []
  pub numbers : (is_number given.pr_number ≡ true) × (is_number given.comment_id ≡ true)
  pub hash : is_sha given.head_sha ≡ true
  pub login : is_login given.requester ≡ true

fitting-done :
    (fits : String → Bool) (o : Option String) (value : String)
    → fitting fits o ≡ done value
    → (o ≡ some value) × (fits value ≡ true)
fitting-done fits none value h = cc
fitting-done fits (some v) value h = elim (Bool-cases (fits v)) [
  | inl fine ↦ let e = done-injective v value (rw fine at h) in (ap some e, sym (ap fits e) ∙ fine)
  | inr bad ↦ let k : rejected ≡ done value = rw bad at h in cc
]

none_other-nil : (xs : List String) → none_other xs ≡ true → xs ≡ []
none_other-nil [] h = refl
none_other-nil (x ∷ xs) h = cc

inputs-IsWellFormed : (i : Inputs) (given : Checked) → inputs i ≡ done given → IsWellFormed i given
unfolding inputs
inputs-IsWellFormed i given h =
    let (a, a_is, h1) = then_done (fitting is_number i.pr_number) _ h in
    let (b, b_is, h2) = then_done (fitting is_sha i.head_sha) _ h1 in
    let (c, c_is, h3) = then_done (fitting is_login i.requester) _ h2 in
    let (d, d_is, h4) = then_done (fitting is_number i.comment_id) _ h3 in
    let (alone, h5) = then_require (none_other i.others) _ h4 in
    let checked : Checked = record { pr_number = a; head_sha = b; requester = c; comment_id = d } in
    let (a_given, a_fits) = fitting-done is_number i.pr_number a a_is in
    let (b_given, b_fits) = fitting-done is_sha i.head_sha b b_is in
    let (c_given, c_fits) = fitting-done is_login i.requester c c_is in
    let (d_given, d_fits) = fitting-done is_number i.comment_id d d_is in
    subst (IsWellFormed i) (done-injective checked given h5) (record {
      pr_number_is = a_given;
      head_sha_is = b_given;
      requester_is = c_given;
      comment_id_is = d_given;
      no_others = none_other-nil i.others alone;
      numbers = (a_fits, d_fits);
      hash = b_fits;
      login = c_fits;
    })

-- What has been checked where `validate` returns.
pub record IsValidated (x : Executor) (given : Checked) (found : Option (ℕ × String)) : Type 0 where
  pub pr : PullRequest
  pub pulled : x.pull given.pr_number ≡ answer (pr, given.head_sha)
  pub writer : Bool
  pub allowed : IsAllowed x.controller pr given.requester writer
  pub status_set : x.pending ≡ answer tt
  pub reused : found ≡ reuse_of (reusable_wheels x.builds given.head_sha)

-- Where `validate` returns, its inputs are a pull request's number, a commit hash, a login and a
-- comment's number, each of its form, and no others; the head that was read again is the one that
-- the run is for, the requester is allowed to start CI, the pending status was set, and the build
-- that is used again is one that `reusable_wheels` finds for this head.
pub validate-IsValidated :
    (x : Executor) (i : Inputs) (found : Option (ℕ × String))
    → validate x i ≡ done found
    → (given : Checked) × IsWellFormed i given × IsValidated x given found
unfolding validate
validate-IsValidated x i found h =
    let (given, checked, h1) = then_done (inputs i) _ h in
    let (pulled, read, h2) = then_done (expect (x.pull given.pr_number)) _ h1 in
    let (same, h3) = then_require (pulled.1 == given.head_sha) _ h2 in
    let (writer, allowed, h4) =
      then_done (authorize x.controller (pulled.0) given.requester) _ h3 in
    let (u, status, h5) = then_done (expect x.pending) _ h4 in
    let e : pulled.1 ≡ given.head_sha = ==_true (pulled.1) given.head_sha same in
    (
      given,
      inputs-IsWellFormed i given checked,
      record {
        pr = pulled.0;
        pulled =
            expect-answer (x.pull given.pr_number) pulled read
            ∙ ap (λ (s : String). answer (pulled.0, s)) e;
        writer = writer;
        allowed = authorize-IsAllowed x.controller (pulled.0) given.requester writer allowed;
        status_set = expect-answer x.pending tt status;
        reused = sym (done-injective _ found h5);
      },
    )

-- The state and the description that `report` sets, of the results of its two stages.
unfoldable pub conclusion : Option String → Option String → String × String
unfolding string_eq option_eq
conclusion validated tested =
    if validated == some "cancelled" || tested == some "cancelled"
    then ("error", "Cancelled")
    else if not (validated == some "success")
    then ("failure", "validate failed")
    else if not (tested == some "success")
    then ("failure", "ppu failed")
    else ("success", "Passed")

unlike_success : (s : String) → (s == "success") ≡ false → s ≢ "success"
unlike_success s other same =
    let k : false ≡ true = sym other ∙ (rw same (==_refl {A = String} "success")) in cc

abbrev error_state : String
error_state = "error"

abbrev failure_state : String
failure_state = "failure"

unlike_error : (error_state == "success") ≡ false
unfolding string_eq
unlike_error = refl

unlike_failure : (failure_state == "success") ≡ false
unfolding string_eq
unlike_failure = refl

conclusion-only :
    (validated tested : Option String)
    → (conclusion validated tested).0 ≡ "success"
    → (validated ≡ some "success") × (tested ≡ some "success")
unfolding conclusion
conclusion-only validated tested h =
    elim (Bool-cases (validated == some "cancelled" || tested == some "cancelled")) [
      | inl a ↦ absurd (unlike_success "error" unlike_error (rw a at h))
      | inr a ↦ elim (Bool-cases (validated == some "success")) [
        | inr b ↦ absurd (unlike_success "failure" unlike_failure (rw b at (rw a at h)))
        | inl b ↦ elim (Bool-cases (tested == some "success")) [
          | inr c ↦ absurd (unlike_success "failure" unlike_failure (rw c at (rw b at (rw a at h))))
          | inl c ↦ (==_true validated (some "success") b, ==_true tested (some "success") c)
        ]
      ]
    ]

conclusion-both : (conclusion (some "success") (some "success")).0 ≡ "success"
unfolding conclusion string_eq option_eq
conclusion-both = refl

-- The status of a run is "success" exactly where both its stages succeeded.
pub conclusion-success :
    (validated tested : Option String)
    → ((conclusion validated tested).0 ≡ "success")
      ↔ ((validated ≡ some "success") × (tested ≡ some "success"))
conclusion-success validated tested =
    (conclusion-only validated tested, λ (a, b). rw (a, b) conclusion-both)
