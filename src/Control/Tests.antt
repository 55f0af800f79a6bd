-- ===== src/Control/Tests.antt =====
-- A pull request of an author without rights, whose last review is an approval.
use vllm_sail.Control.Report.{
  Inputs, Checked, Executor, validate, IsWellFormed, IsValidated, conclusion, validate-IsValidated,
  conclusion-success,
}
use vllm_sail.Control.Command.{
  Event, Reaction, Setting, Act, react, reply, launching, is_handled, command,
}
use vllm_sail.Control.Commanded.{is_listed, command-command}
use vllm_sail.Base.{
  ◌≡◌, ◌≢◌, ◌⊎◌, refl, true, false, none, some, [], ◌∷◌, ◌==◌, string_eq, nat_eq, option_eq,
  if◌then◌else◌,
}
use vllm_sail.Control.Outcome.{Reply, done, answer, http_error}
use vllm_sail.Control.Authorize.{PullRequest, Controller, authorize}
use vllm_sail.Control.Launch.{
  Effect, Answers, Posts, run, launch, pending_status, error_status, post,
}
use vllm_sail.Control.Dispatch.{MayDispatch, run-MayDispatch, ends_in_error, launch-ends_in_error}
use vllm_sail.Control.Runs.{Run}
use vllm_sail.Base.{map, List, ◌↔◌, ℕ, String, Option}
use vllm_sail.Control.Cancel.{Cancels, Job, cancel_runs, retry}
use vllm_sail.Control.Retried.{IsRetriable, retry-IsRetriable}
use vllm_sail.Control.Cancelled.{uncompleted, cancellations, cancel_runs-done}
use vllm_sail.Control.Wheels.{Builds, reusable_wheels}
use vllm_sail.Control.Reuse.{IsReusable, reusable_wheels-IsReusable}
use vllm_sail.Control.Allowed.{IsAllowed, authorize-IsAllowed}

abbrev pull_request : PullRequest
pull_request = record {
  state = "open";
  base_repo = "o/r";
  author = "ann";
  draft = false;
  labels = [];
}

abbrev controller : Controller
controller = record {
  repo = "o/r";
  trusted = "tom" ∷ [];
  permission = λ login. if login == "bob" then answer (some "write") else http_error 404;
  review_decision = answer (some "APPROVED");
  reviews = answer (
      record { submitted_at = "2"; id = 8; user = some "bob"; state = "APPROVED" }
      ∷ record { submitted_at = "1"; id = 7; user = some "bob"; state = "CHANGES_REQUESTED" }
      ∷ []);
  lower = λ s. s;
}

authorize-IsAllowed_example : IsAllowed controller pull_request "ann" false
unfolding authorize string_eq nat_eq
authorize-IsAllowed_example = authorize-IsAllowed controller pull_request "ann" false refl

-- A failed dispatch of a head that was not tested before.
abbrev answers : Answers
answers = record {
  default_branch = "main";
  runs = answer [];
  behind_by = answer 0;
  fresh = answer (pull_request, "sha");
  controller = controller;
}

abbrev posts : Posts
posts = record { pending = answer tt; posted = http_error 500; fallback = none; error = answer tt }

not_empty : (pending_status ∷ post ∷ error_status ∷ []) ≢ []
not_empty h = cc

run-MayDispatch_example : MayDispatch answers 5 "sha" "ann" false
unfolding run string_eq nat_eq option_eq
run-MayDispatch_example = run-MayDispatch answers posts 5 "sha" "ann" false not_empty

launch-ends_in_error_example :
    ((later : List Effect) × ((launch posts).1 ≡ pending_status ∷ later))
    × (((launch posts).0 ≡ done tt) ⊎ (ends_in_error (launch posts).1 ≡ true))
launch-ends_in_error_example = launch-ends_in_error posts refl

-- A build of the commit before, from which only a document differs.
abbrev earlier : Run
earlier = record {
  id = 3;
  run_head_sha = "w";
  title = some (record { number = 5; head_sha = "old"; comment_id = 1 });
  event = "workflow_dispatch";
  path = ".github/workflows/ppu-pr-ci.yaml";
  head_branch = "main";
  repository = "o/r";
  status = "completed";
  conclusion = "success";
}

abbrev builds : Builds
builds = record {
  repo = "o/r";
  default_branch = "main";
  github_sha = "w";
  github_run_id = 9;
  runs = answer (earlier ∷ []);
  artifacts = λ id. answer (record { name = "ppu-wheels-3"; expired = some false } ∷ []);
  compare = λ source. answer (record {
    status = "ahead";
    merge_base = "old";
    files =
        some
          (record { filename = "docs/a.md"; status = "modified"; previous_filename = none } ∷ []);
  });
  wheels_name = λ id. "ppu-wheels-3";
}

reusable_wheels-IsReusable_example : IsReusable builds "new" 3 "old"
unfolding reusable_wheels string_eq nat_eq
reusable_wheels-IsReusable_example = reusable_wheels-IsReusable builds "new" 3 "old" refl

abbrev waiting : Run
waiting = record earlier { id = 4; status = "queued" }

abbrev cancels : Cancels
cancels = record { cancel_reply = λ id. answer tt; status_reply = λ sha. answer tt }

cancel_runs-done_example :
    (4 ∷ [] ≡ map (λ r. r.id) (uncompleted (waiting ∷ earlier ∷ [])))
    × ((cancel_runs cancels (waiting ∷ earlier ∷ [])).1
        ≡ cancellations (uncompleted (waiting ∷ earlier ∷ [])))
unfolding cancel_runs string_eq
cancel_runs-done_example = cancel_runs-done cancels (waiting ∷ earlier ∷ []) (4 ∷ []) refl

abbrev setting : Setting
setting = record {
  reactions = answer (record { is_bot = false; content = "rocket" } ∷ []);
  comments = answer (record { is_bot = true; marked = false } ∷ []);
  pull = answer (pull_request, 5, "sha");
  controller = controller;
  answers = answers;
  posts = record posts { posted = answer tt };
  builds = builds;
  cancels = cancels;
  jobs_of = λ id. answer [];
  replied = answer tt;
}

abbrev run_event : Event
run_event = record {
  action = "created";
  on_pull_request = true;
  user_type = "User";
  body = "/ci run";
  first_word = "/ci";
}

abbrev run_acts : List Act
run_acts = react "eyes" ∷ launching pending_status ∷ launching post ∷ reply ∷ react "rocket" ∷ []

commanded : command setting "ann" run_event ≡ (done tt, run_acts)
unfolding command string_eq nat_eq option_eq
commanded = refl

new_command : is_handled setting ≡ done false
unfolding is_handled string_eq
new_command = refl

abbrev bot_reactions : List Reaction
bot_reactions =
    record { is_bot = true; content = "eyes" } ∷ record { is_bot = true; content = "rocket" } ∷ []

command-command_example :
    command (record setting { reactions = answer bot_reactions }) "ann" run_event ≡ (done tt, [])
unfolding is_listed string_eq
command-command_example =
    command-command setting "ann" run_event run_acts commanded new_command
      (record setting { reactions = answer bot_reactions }) bot_reactions refl refl

abbrev head : String
head = "0123456789abcdef0123456789abcdef01234567"

abbrev executor : Executor
executor = record {
  pull = λ number. answer (pull_request, head);
  controller = controller;
  builds = builds;
  pending = answer tt;
}

abbrev given : Inputs
given = record {
  pr_number = some "5";
  head_sha = some head;
  requester = some "ann";
  comment_id = some "2";
  others = [];
}

validate-IsValidated_example :
    (checked : Checked) × IsWellFormed given checked
    × IsValidated executor checked (some (3, "old"))
unfolding validate string_eq nat_eq option_eq
validate-IsValidated_example = validate-IsValidated executor given (some (3, "old")) refl

abbrev passed : Option String
passed = some "success"

abbrev not_passed : Option String
not_passed = some "failure"

abbrev state : String
state = (conclusion passed not_passed).0

conclusion-success_example :
    (state ≡ "success") ↔ ((passed ≡ some "success") × (not_passed ≡ some "success"))
conclusion-success_example = conclusion-success passed not_passed

-- A run that failed behind its wheel build.
abbrev retriable : Builds
retriable = record builds { runs = answer (record earlier { conclusion = "failure" } ∷ []) }

abbrev jobs_of : ℕ → Reply (List Job)
jobs_of id = answer (record { stage = "PPU wheel build"; conclusion = "success" } ∷ [])

retry-IsRetriable_example : IsRetriable retriable jobs_of 5 "old"
unfolding retry string_eq nat_eq option_eq
retry-IsRetriable_example = retry-IsRetriable retriable jobs_of 5 "old" posts not_empty
