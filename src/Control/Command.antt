-- ===== src/Control/Command.antt =====
-- `parse_command` and `command` of scripts/ci/ppu_ci_command.py: what a comment on a pull request starts.
-- The texts of the answers are left out.
use vllm_sail.Base.{ℕ, String, Bool, true, false, not, ◌&&◌, ◌||◌}
use vllm_sail.Base.{List, [], ◌∷◌, ◌++◌, map, ◌==◌, string_eq, any, contains, if◌then◌else◌}
use vllm_sail.Control.Outcome.{
  Outcome, done, rejected, failed, Reply, answer, http_error, broken, ◌>>=◌, expect,
}
use vllm_sail.Control.Authorize.{PullRequest, Controller, authorize}
use vllm_sail.Control.Launch.{Effect, Posts, Answers, run}
use vllm_sail.Control.Wheels.{Builds}
use vllm_sail.Control.Cancel.{Cancelling, Cancels, Job, cancel, retry}

-- `COMMANDS`
pub data Command : Type 0 where
  run_command : Bool → Command
  retry_command cancel_command : Command

pub data Parsed : Type 0 where
  ignored help : Parsed
  command_of : Command → Parsed

-- The event. `body` is stripped, and `first_word` is `body.split()[0]`.
pub record Event : Type 0 where
  pub action : String
  pub on_pull_request : Bool
  pub user_type : String
  pub body : String
  pub first_word : String

unfoldable pub known_command : String → Parsed
unfolding string_eq
known_command body =
    if body == "/ci run"
    then command_of (run_command false)
    else if body == "/ci run --allow-stale"
    then command_of (run_command true)
    else if body == "/ci retry"
    then command_of retry_command
    else if body == "/ci cancel"
    then command_of cancel_command
    else help

-- `parse_command`, where `Rejected` is `help`.
unfoldable pub parse_command : Event → Parsed
unfolding string_eq known_command
parse_command e =
    if not (e.action == "created") || not e.on_pull_request || not (e.user_type == "User")
    then ignored
    else if e.body == "" || not (e.first_word == "/ci")
    then ignored
    else known_command e.body

-- A reaction or a comment, and whether the bot has made it; `marked` tells that a comment holds the
-- marker of the command's comment.
pub record Reaction : Type 0 where
  pub is_bot : Bool
  pub content : String

pub record Comment : Type 0 where
  pub is_bot : Bool
  pub marked : Bool

-- What GitHub answers to `command`, in the order of the calls.
pub record Setting : Type 0 where
  pub reactions : Reply (List Reaction)
  pub comments : Reply (List Comment)
  pub pull : Reply (PullRequest × ℕ × String)
  pub controller : Controller
  pub answers : Answers
  pub posts : Posts
  pub builds : Builds
  pub cancels : Cancels
  pub jobs_of : ℕ → Reply (List Job)
  pub replied : Reply (Unit {0})

-- The calls of `command` that change something.
pub data Act : Type 0 where
  react : String → Act
  reply : Act
  launching : Effect → Act
  cancelling : Cancelling → Act

-- `best_effort(...) or []`
abbrev pub reactions_of : Reply (List Reaction) → List Reaction
reactions_of (answer rs) = rs
reactions_of (http_error code) = []
reactions_of broken = []

unfoldable pub has_ended : Reply (List Reaction) → Bool
unfolding string_eq
has_ended r = any (λ x. x.is_bot && contains ("rocket" ∷ "-1" ∷ []) x.content) (reactions_of r)

abbrev pub has_answer : List Comment → Bool
has_answer cs = any (λ c. c.is_bot && c.marked) cs

-- Whether the comment was dealt with before.
unfoldable pub is_handled : Setting → Outcome Bool
unfolding has_ended
is_handled w =
    if has_ended w.reactions then done true else expect w.comments >>= λ cs. done (has_answer cs)

abbrev no_value {ℓ} : {A : Type ℓ} → Outcome A → Outcome (Unit {0})
no_value (done a) = done tt
no_value rejected = rejected
no_value failed = failed

-- The action behind a successful `authorize`.
unfoldable pub perform : Setting → Command → String → ℕ → String → Outcome (Unit {0}) × List Act
unfolding run cancel retry
perform w (run_command allow_stale) login number sha =
    let r = run w.answers w.posts number sha login allow_stale in (r.0, map launching (r.1))
perform w retry_command login number sha =
    let r = retry w.builds w.jobs_of w.posts number sha in (r.0, map launching (r.1))
perform w cancel_command login number sha =
    let r = cancel w.builds w.cancels number in (no_value (r.0), map cancelling (r.1))

unfoldable authorized :
    Setting → Command → String → ℕ → String → Outcome Bool → Outcome (Unit {0}) × List Act
unfolding perform
authorized w c login number sha (done writer) = perform w c login number sha
authorized w c login number sha rejected = (rejected, [])
authorized w c login number sha failed = (failed, [])

-- The inner `try`.
unfoldable pub act : Setting → String → Parsed → Outcome (Unit {0}) × List Act
unfolding authorize perform authorized
act w login ignored = (done tt, [])
act w login help = (rejected, [])
act w login (command_of c) = elim w.pull [
  | answer p ↦
      let (pr, number, sha) = p in authorized w c login number sha (authorize w.controller pr login)
  | http_error code ↦ (failed, [])
  | broken ↦ (failed, [])
]

-- The answer, and the last reaction.
abbrev pub close : Reply (Unit {0}) → String → Outcome (Unit {0}) × List Act
close (answer u) reaction = (done tt, reply ∷ react reaction ∷ [])
close (http_error code) reaction = (failed, reply ∷ react "confused" ∷ [])
close broken reaction = (failed, reply ∷ react "confused" ∷ [])

-- What follows the inner `try`. Every exception but `Rejected` ends with the reaction "confused".
unfoldable pub finish : Setting → Outcome (Unit {0}) → Outcome (Unit {0}) × List Act
finish w (done u) = close w.replied "rocket"
finish w rejected = close w.replied "-1"
finish w failed = (failed, react "confused" ∷ [])

unfoldable pub respond : Setting → String → Parsed → Outcome (Unit {0}) × List Act
unfolding act finish
respond w login parsed =
    let tried = act w login parsed in
    let ended = finish w (tried.0) in (ended.0, react "eyes" ∷ tried.1 ++ ended.1)

unfoldable pub unless_handled :
    Setting → String → Parsed → Outcome Bool → Outcome (Unit {0}) × List Act
unfolding respond
unless_handled w login parsed (done true) = (done tt, [])
unless_handled w login parsed (done false) = respond w login parsed
unless_handled w login parsed rejected = (failed, react "confused" ∷ [])
unless_handled w login parsed failed = (failed, react "confused" ∷ [])

-- `command`, for the author of the comment.
unfoldable pub command : Setting → String → Event → Outcome (Unit {0}) × List Act
unfolding parse_command is_handled unless_handled
command w login e = elim (parse_command e) [
  | ignored ↦ (done tt, [])
  | help ↦ unless_handled w login help (is_handled w)
  | command_of c ↦ unless_handled w login (command_of c) (is_handled w)
]
