-- ===== src/Control/Commanded.antt =====
-- Properties of `command` of scripts/ci/ppu_ci_command.py.
use vllm_sail.Base.{ℕ, String, Bool, true, false, ◌&&◌, ◌≡◌, ◌⊎◌, inl, inr, refl, sym, ap, ◌∙◌}
use vllm_sail.Base.{
  List, [], ◌∷◌, ◌++◌, arith, ◌==◌, ==_true, string_eq, any, all, contains, Bool-cases, both_true,
}
use vllm_sail.Control.Asked.{Asks, IsNew}
use vllm_sail.Control.Outcome.{Outcome, done, rejected, failed, Reply, answer, http_error, broken}
use vllm_sail.Control.Authorize.{PullRequest}
use vllm_sail.Control.Allowed.{IsAllowed}
use vllm_sail.Control.Command.{
  Command, Parsed, ignored, help, command_of, Event, parse_command, Reaction, Setting, Act, react,
  reply, launching, cancelling, has_ended, is_handled, act, close, finish, respond, unless_handled,
  command,
}

all-append {ℓ} :
    {A : Type ℓ} (p : A → Bool) (xs ys : List A) → all p (xs ++ ys) ≡ (all p xs && all p ys)
all-append p [] ys = refl
all-append p (x ∷ xs) ys = ground (arith, all-append p xs ys)

-- A call that starts, reruns or cancels a run, or that sets a status.
abbrev pub is_start : Act → Bool
is_start (react c) = false
is_start reply = false
is_start (launching e) = true
is_start (cancelling c) = true

-- What has been checked where a run was started, rerun or cancelled.
pub record IsCommanded (w : Setting) (login : String) (e : Event) : Type 0 where
  pub asked : Command
  pub asks : Asks e asked
  pub is_new : IsNew w
  pub pr : PullRequest
  pub number : ℕ
  pub sha : String
  pub pulled : w.pull ≡ answer (pr, number, sha)
  pub writer : Bool
  pub allowed : IsAllowed w.controller pr login writer

Parsed-cases : (p : Parsed) → (p ≡ ignored) ⊎ ((p ≡ help) ⊎ ((c : Command) × (p ≡ command_of c)))
Parsed-cases ignored = inl refl
Parsed-cases help = inr (inl refl)
Parsed-cases (command_of c) = inr (inr (c, refl))

-- How a command ends that was not dealt with before.
pub data Ending : Outcome (Unit {0}) → List Act → Type 0 where
  accepted : Ending (done tt) (reply ∷ react "rocket" ∷ [])
  refused : Ending (done tt) (reply ∷ react "-1" ∷ [])
  unanswered : Ending failed (reply ∷ react "confused" ∷ [])
  broke : Ending failed (react "confused" ∷ [])

close-accepted : (r : Reply (Unit {0})) → Ending ((close r "rocket").0) ((close r "rocket").1)
close-accepted (answer u) = accepted
close-accepted (http_error code) = unanswered
close-accepted broken = unanswered

close-refused : (r : Reply (Unit {0})) → Ending ((close r "-1").0) ((close r "-1").1)
close-refused (answer u) = refused
close-refused (http_error code) = unanswered
close-refused broken = unanswered

finish-Ending : (w : Setting) (o : Outcome (Unit {0})) → Ending ((finish w o).0) ((finish w o).1)
unfolding finish
finish-Ending w (done u) = close-accepted w.replied
finish-Ending w rejected = close-refused w.replied
finish-Ending w failed = broke

-- A reaction of the bot is among those that GitHub lists.
unfoldable pub is_listed : List Reaction → Act → Bool
unfolding string_eq
is_listed rs (react c) = any (λ x. x.is_bot && c == x.content) rs
is_listed rs reply = true
is_listed rs (launching e) = true
is_listed rs (cancelling c) = true

listed-has_ended :
    (rs : List Reaction) (c : String)
    → contains ("rocket" ∷ "-1" ∷ []) c ≡ true
    → any (λ x. x.is_bot && c == x.content) rs ≡ true
    → has_ended (answer rs) ≡ true
unfolding has_ended
listed-has_ended [] c last h = h
listed-has_ended (x ∷ xs) c last h = elim (Bool-cases (x.is_bot && c == x.content)) [
  | inl here ↦
      let (bot, same) = both_true x.is_bot (c == x.content) here in
      let e : c ≡ x.content = ==_true c x.content same in
      let known : contains ("rocket" ∷ "-1" ∷ []) x.content ≡ true = rw (← e) last in
      rw (bot, known)
  | inr other ↦
      let later = listed-has_ended xs c last (rw other at h) in
      elim (Bool-cases (x.is_bot && contains ("rocket" ∷ "-1" ∷ []) x.content)) [
        | inl now ↦ rw now
        | inr no_more ↦ rw no_more later
      ]
]

Ending-has_ended :
    (rs : List Reaction) (o : Outcome (Unit {0})) (acts : List Act)
    → Ending o acts
    → o ≡ done tt
    → all (is_listed rs) acts ≡ true
    → has_ended (answer rs) ≡ true
unfolding is_listed
Ending-has_ended rs o acts accepted e h =
    listed-has_ended rs "rocket" refl
      (both_true (any (λ x. x.is_bot && "rocket" == x.content) rs) true h).0
Ending-has_ended rs o acts refused e h =
    listed-has_ended rs "-1" refl (both_true (any (λ x. x.is_bot && "-1" == x.content) rs) true h).0
Ending-has_ended rs o acts unanswered e h = cc
Ending-has_ended rs o acts broke e h = cc

module _ (w : Setting) (login : String) (e : Event) (acts : List Act) where
  respond-has_ended :
      (parsed : Parsed) (rs : List Reaction)
      → respond w login parsed ≡ (done tt, acts)
      → all (is_listed rs) acts ≡ true
      → has_ended (answer rs) ≡ true
  unfolding respond
  respond-has_ended parsed rs h listed =
      let tried = act w login parsed in
      let ended = finish w (tried.0) in
      let same : (react "eyes" ∷ tried.1 ++ ended.1) ≡ acts =
        ap (λ (x : Outcome (Unit {0}) × List Act). x.1) h in
      let all_listed : all (is_listed rs) (react "eyes" ∷ tried.1 ++ ended.1) ≡ true =
        ap (all (is_listed rs)) same ∙ listed in
      let (_, rest) = both_true (is_listed rs (react "eyes")) _ all_listed in
      let (_, last) =
        both_true (all (is_listed rs) (tried.1)) _
          (sym (all-append (is_listed rs) (tried.1) (ended.1)) ∙ rest) in
      Ending-has_ended rs (ended.0) (ended.1) (finish-Ending w (tried.0))
        (ap (λ (x : Outcome (Unit {0}) × List Act). x.0) h) last

  handled-none :
      (v : Setting) (rs : List Reaction)
      → v.reactions ≡ answer rs
      → has_ended (answer rs) ≡ true
      → command v login e ≡ (done tt, [])
  unfolding command is_handled unless_handled
  handled-none v rs listed ended = elim (Parsed-cases (parse_command e)) [
    | inl p ↦ rw (command, p) refl
    | inr (inl p) ↦ rw (command, p) (rw listed (rw ended refl))
    | inr (inr (c, p)) ↦ rw (command, p) (rw listed (rw ended refl))
  ]

  -- A command that was dealt with to the end is dealt with once: where `command` has returned for a
  -- comment that was not handled before, and GitHub lists the reactions that it made, `command` returns
  -- for the same event without a call that changes something.
  pub command-command :
      command w login e ≡ (done tt, acts)
      → is_handled w ≡ done false
      → (v : Setting) (rs : List Reaction) → v.reactions ≡ answer rs
      → all (is_listed rs) acts ≡ true
      → command v login e ≡ (done tt, [])
  unfolding command unless_handled
  command-command h new v rs listed all_listed = elim (Parsed-cases (parse_command e)) [
    | inl p ↦ rw (command, p) refl
    | inr (inl p) ↦
        handled-none v rs listed (respond-has_ended help rs (rw (command, p, new) at h) all_listed)
    | inr (inr (c, p)) ↦
        handled-none v rs listed
          (respond-has_ended (command_of c) rs (rw (command, p, new) at h) all_listed)
  ]
