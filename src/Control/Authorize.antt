-- ===== src/Control/Authorize.antt =====
-- Who may start CI for a pull request: `can_write` and `authorize` of scripts/ci/ppu_ci_command.py.
use vllm_sail.Base.{ℕ, String, Bool, true, false, not, ◌&&◌, ◌||◌, Option, none, some}
use vllm_sail.Base.{
  List, [], ◌∷◌, ◌==◌, string_eq, nat_eq, option_eq, ltb, contains, any, if◌then◌else◌,
}
use vllm_sail.Base.Names.{Names, insert}
use vllm_sail.Base.Sorting.{str_ltb}
use vllm_sail.Control.Outcome.{
  Outcome, done, failed, Reply, answer, http_error, broken, ◌>>=◌, ◌>>◌, require, expect,
}

pub record PullRequest : Type 0 where
  pub state : String
  pub base_repo : String
  pub author : String
  pub draft : Bool
  pub labels : List String

-- `submitted_at` is empty where the review has none, and a deleted user is `none`.
pub record Review : Type 0 where
  pub submitted_at : String
  pub id : ℕ
  pub user : Option String
  pub state : String

-- What the controller is configured with, what GitHub answers about the pull request, and
-- `str.lower`.
pub record Controller : Type 0 where
  pub repo : String
  pub trusted : List String
  pub permission : String → Reply (Option String)
  pub review_decision : Reply (Option String)
  pub reviews : Reply (List Review)
  pub lower : String → String

-- `WRITE`
abbrev pub write_permissions : List String
write_permissions = "write" ∷ "maintain" ∷ "admin" ∷ []

-- `READY`
abbrev pub ready_labels : List String
ready_labels = "ready" ∷ "ready-run-all-tests" ∷ []

abbrev may_write : Option String → Bool
may_write none = false
may_write (some p) = contains write_permissions p

abbrev writes : Reply (Option String) → Outcome Bool
writes (answer p) = done (may_write p)
writes (http_error code) = if code == 404 then done false else failed
writes broken = failed

-- `can_write`
unfoldable pub can_write : Controller → String → Outcome Bool
unfolding string_eq nat_eq
can_write c login = writes (c.permission login)

-- The order by `submitted_at`, then by `id`.
abbrev review_ltb : Review → Review → Bool
review_ltb a b =
    str_ltb a.submitted_at b.submitted_at || a.submitted_at == b.submitted_at && ltb a.id b.id

unfoldable pub put_review : Review → List Review → List Review
unfolding str_ltb string_eq
put_review r [] = r ∷ []
put_review r (s ∷ ss) =
    let rest = put_review r ss in if review_ltb s r then s ∷ rest else r ∷ s ∷ ss

unfoldable pub sorted_reviews : List Review → List Review
unfolding put_review
sorted_reviews [] = []
sorted_reviews (r ∷ rs) = put_review r (sorted_reviews rs)

abbrev pub is_decisive : String → Bool
is_decisive = contains ("APPROVED" ∷ "CHANGES_REQUESTED" ∷ "DISMISSED" ∷ [])

-- One review in `latest`.
abbrev pub note_review : (String → String) → Option String → String → Names String → Names String
note_review lower none state d = d
note_review lower (some login) state d =
    if is_decisive state then insert (lower login) state d else d

unfoldable pub note_reviews : (String → String) → List Review → Names String → Names String
unfolding insert string_eq
note_reviews lower [] d = d
note_reviews lower (r ∷ rs) d = note_reviews lower rs (note_review lower (r.user) (r.state) d)

-- The loop over `latest`: some reviewer who approved is trusted or may write.
unfoldable pub is_approved : Controller → Names String → Outcome Bool
unfolding can_write string_eq
is_approved c [] = done false
is_approved c ((reviewer, state) ∷ d) =
    let rest = is_approved c d in
    if state == "APPROVED"
    then (if contains c.trusted reviewer
        then done true
        else can_write c reviewer >>= λ w. if w then done true else rest)
    else rest

-- An author whose pull request has no label.
unfoldable pub authorize_reviewed : Controller → Outcome Bool
unfolding sorted_reviews note_reviews is_approved option_eq string_eq
authorize_reviewed c = do
  decision ← expect c.review_decision
  require (decision == some "APPROVED")
  reviews ← expect c.reviews
  approved ← is_approved c (note_reviews c.lower (sorted_reviews reviews) [])
  require approved
  done false

-- Someone who is neither a writer nor trusted.
unfoldable pub authorize_author : Controller → PullRequest → String → Outcome Bool
unfolding authorize_reviewed string_eq
authorize_author c pr login = do
  require (c.lower login == c.lower pr.author && not pr.draft)
  if any (contains ready_labels) pr.labels then done false else authorize_reviewed c

-- `authorize`
unfoldable pub authorize : Controller → PullRequest → String → Outcome Bool
unfolding can_write authorize_author string_eq
authorize c pr login = do
  require (pr.state == "open" && pr.base_repo == c.repo)
  writer ← can_write c login
  if writer || contains c.trusted (c.lower login) then done writer else authorize_author c pr login
