-- ===== src/Control/Latest.antt =====
-- The dict `latest` in `authorize` of scripts/ci/ppu_ci_command.py holds each reviewer's last decision.
use vllm_sail.Base.{String, Bool, true, false, ◌&&◌, Option, none, some, ◌≡◌, refl, ◌∙◌, inl, inr}
use vllm_sail.Base.{List, [], ◌∷◌, ◌==◌, string_eq, if◌then◌else◌, arith, Bool-cases, Option-cases}
use vllm_sail.Base.Names.{Names, lookup, insert, lookup-insert}
use vllm_sail.Control.Authorize.{Review, is_decisive, note_review, note_reviews}

-- The review is a decision of the reviewer, who is named in lower case.
abbrev pub decides : (String → String) → String → Option String → String → Bool
decides lower who none state = false
decides lower who (some login) state = who == lower login && is_decisive state

-- The state of the reviewer's last decision.
unfoldable pub last_decision : (String → String) → String → List Review → Option String
unfolding string_eq
last_decision lower who [] = none
last_decision lower who (r ∷ rs) = elim (last_decision lower who rs) [
  | some s ↦ some s
  | none ↦ if decides lower who (r.user) (r.state) then some (r.state) else none
]

abbrev or_else : Option String → Option String → Option String
or_else (some s) o = some s
or_else none o = o

or_else-none : (o : Option String) → or_else o none ≡ o
or_else-none none = refl
or_else-none (some s) = refl

pick :
    (b : Bool) (s : String) (o : Option String)
    → (if b then some s else o) ≡ or_else (if b then some s else none) o
pick true s o = refl
pick false s o = refl

note_review-lookup :
    (lower : String → String) (who : String) (user : Option String) (state : String)
    (d : Names String)
    → lookup who (note_review lower user state d)
      ≡ (if decides lower who user state then some state else lookup who d)
note_review-lookup lower who none state d = refl
note_review-lookup lower who (some login) state d = elim (Bool-cases (is_decisive state)) [
  | inl yes' ↦ rw yes' (lookup-insert who (lower login) state d ∙ ground arith)
  | inr no' ↦ rw no' (ground arith)
]

-- Behind the loop, a reviewer has the last decision, or what the dict had before.
pub note_reviews-lookup :
    (lower : String → String) (who : String) (rs : List Review) (d : Names String)
    → lookup who (note_reviews lower rs d) ≡ or_else (last_decision lower who rs) (lookup who d)
unfolding note_reviews last_decision
note_reviews-lookup lower who [] d = refl
note_reviews-lookup lower who (r ∷ rs) d =
    note_reviews-lookup lower who rs (note_review lower (r.user) (r.state) d)
    ∙ elim (Option-cases (last_decision lower who rs)) [
      | inl e ↦ rw e (
          note_review-lookup lower who (r.user) (r.state) d
          ∙ pick (decides lower who (r.user) (r.state)) (r.state) (lookup who d))
      | inr (s, e) ↦ rw e refl
    ]

-- No key stands twice.
abbrev pub HasDistinctKeys : Names String → Type 0
HasDistinctKeys [] = Unit
HasDistinctKeys ((k, v) ∷ d) = (lookup k d ≡ none) × HasDistinctKeys d

insert-HasDistinctKeys :
    (k v : String) (d : Names String) → HasDistinctKeys d → HasDistinctKeys (insert k v d)
unfolding insert lookup
insert-HasDistinctKeys k v [] s = (refl, tt)
insert-HasDistinctKeys k v ((j, w) ∷ d) (fresh, s) = elim (Bool-cases (k == j)) [
  | inl same ↦ let e : k ≡ j = ground arith in rw same (rw e fresh, s)
  | inr ne ↦ rw ne (lookup-insert j k v d ∙ ground arith, insert-HasDistinctKeys k v d s)
]

note_review-HasDistinctKeys :
    (lower : String → String) (user : Option String) (state : String) (d : Names String)
    → HasDistinctKeys d
    → HasDistinctKeys (note_review lower user state d)
note_review-HasDistinctKeys lower none state d s = s
note_review-HasDistinctKeys lower (some login) state d s = elim (Bool-cases (is_decisive state)) [
  | inl yes' ↦ rw yes' (insert-HasDistinctKeys (lower login) state d s)
  | inr no' ↦ rw no' s
]

pub note_reviews-HasDistinctKeys :
    (lower : String → String) (rs : List Review) (d : Names String)
    → HasDistinctKeys d
    → HasDistinctKeys (note_reviews lower rs d)
unfolding note_reviews
note_reviews-HasDistinctKeys lower [] d s = s
note_reviews-HasDistinctKeys lower (r ∷ rs) d s =
    note_reviews-HasDistinctKeys lower rs (note_review lower (r.user) (r.state) d)
      (note_review-HasDistinctKeys lower (r.user) (r.state) d s)

-- Read from the empty dict.
pub latest-last_decision :
    (lower : String → String) (who : String) (rs : List Review)
    → lookup who (note_reviews lower rs []) ≡ last_decision lower who rs
unfolding lookup
latest-last_decision lower who rs =
    note_reviews-lookup lower who rs [] ∙ or_else-none (last_decision lower who rs)
