-- ===== src/Control/Asked.antt =====
-- What `command` of scripts/ci/ppu_ci_command.py has made sure of where it acts on a comment: that
-- it asks for something, and that it was not dealt with before.
use vllm_sail.Base.{String, true, false, ◌&&◌, ◌||◌, ◌≡◌, inl, inr, refl, sym, ap, ◌∙◌}
use vllm_sail.Base.{List, [], ◌∷◌, arith, ◌==◌, ==_true, string_eq, any, contains, Bool-cases}
use vllm_sail.Base.{not}
use vllm_sail.Control.Outcome.{expect, then_done, done-injective, expect-answer}
use vllm_sail.Control.Command.{
  run_command, retry_command, cancel_command, known_command, Comment, reactions_of, has_answer,
}
use vllm_sail.Control.Outcome.{done, answer}
use vllm_sail.Control.Command.{
  Command, ignored, help, command_of, Event, parse_command, Reaction, Setting, has_ended,
  is_handled,
}

-- A command as it is written in a comment.
abbrev pub text_of : Command → String
text_of (run_command false) = "/ci run"
text_of (run_command true) = "/ci run --allow-stale"
text_of retry_command = "/ci retry"
text_of cancel_command = "/ci cancel"

-- The event is a user's new comment on a pull request with nothing but the command.
pub record Asks (e : Event) (asked : Command) : Type 0 where
  pub created : e.action ≡ "created"
  pub on_pull_request : e.on_pull_request ≡ true
  pub by_user : e.user_type ≡ "User"
  pub text : e.body ≡ text_of asked

known_command-text_of :
    (body : String) (c : Command) → known_command body ≡ command_of c → body ≡ text_of c
unfolding known_command
known_command-text_of body c h = elim (Bool-cases (body == "/ci run")) [
  | inl a ↦ named "/ci run" (run_command false) a (rw a at h) refl
  | inr a ↦ elim (Bool-cases (body == "/ci run --allow-stale")) [
    | inl b ↦ named "/ci run --allow-stale" (run_command true) b (rw (a, b) at h) refl
    | inr b ↦ elim (Bool-cases (body == "/ci retry")) [
      | inl d ↦ named "/ci retry" retry_command d (rw (a, b, d) at h) refl
      | inr d ↦ elim (Bool-cases (body == "/ci cancel")) [
        | inl f ↦ named "/ci cancel" cancel_command f (rw (a, b, d, f) at h) refl
        | inr f ↦ let k : help ≡ command_of c = rw (a, b, d, f) at h in cc
      ]
    ]
  ]
]
  where
    named :
        (t : String) (x : Command)
        → (body == t) ≡ true
        → command_of x ≡ command_of c
        → text_of x ≡ t
        → body ≡ text_of c
    named t x is same shown = let e : x ≡ c = cc in ==_true body t is ∙ sym shown ∙ ap text_of e

pub parse_command-Asks : (e : Event) (c : Command) → parse_command e ≡ command_of c → Asks e c
unfolding parse_command
parse_command-Asks e c h =
    let out = not (e.action == "created") || not e.on_pull_request || not (e.user_type == "User") in
    elim (Bool-cases out) [
      | inl foreign ↦ let k : ignored ≡ command_of c = rw foreign at h in cc
      | inr own ↦ elim (Bool-cases (e.body == "" || not (e.first_word == "/ci"))) [
        | inl other ↦ let k : ignored ≡ command_of c = rw (own, other) at h in cc
        | inr ours ↦ record {
          created = ==_true e.action "created" (ground (arith, own));
          on_pull_request = ground (arith, own);
          by_user = ==_true e.user_type "User" (ground (arith, own));
          text = known_command-text_of e.body c (rw (own, ours) at h);
        }
      ]
    ]

-- The bot has neither reacted with "rocket" or "-1" nor answered. Reactions that cannot be read
-- count as none.
pub record IsNew (w : Setting) : Type 0 where
  pub comments : List Comment
  pub unanswered : w.comments ≡ answer comments
  pub unmarked : any (λ c. c.is_bot && c.marked) comments ≡ false
  pub unended :
      any (λ x. x.is_bot && (x.content == "rocket" || x.content == "-1")) (reactions_of w.reactions)
      ≡ false

ends_same :
    (rs : List Reaction)
    → any (λ x. x.is_bot && contains ("rocket" ∷ "-1" ∷ []) x.content) rs ≡ false
    → any (λ x. x.is_bot && (x.content == "rocket" || x.content == "-1")) rs ≡ false
ends_same [] h = refl
ends_same (x ∷ xs) h = ground (arith, ends_same xs, h)

pub is_handled-IsNew : (w : Setting) → is_handled w ≡ done false → IsNew w
unfolding is_handled has_ended
is_handled-IsNew w h = elim (Bool-cases (has_ended w.reactions)) [
  | inl yes' ↦ let k : true ≡ false = done-injective true false (rw yes' at h) in cc
  | inr no' ↦
      let (cs, read, k) =
        then_done (expect w.comments) (λ cs. done (has_answer cs)) (rw no' at h) in
      record {
        comments = cs;
        unanswered = expect-answer w.comments cs read;
        unmarked = done-injective (has_answer cs) false k;
        unended = ends_same (reactions_of w.reactions) no';
      }
]
