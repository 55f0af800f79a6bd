-- ===== src/Native/Kept.antt =====
-- Properties of `_BindingPruner` of vllm_sail/native/porting.py over a whole file.
use Prim.Native.String.append
use text.Mathlib.TextLemmas.{append-nil, append_assoc}
use mathlib.Core.Option.{some-injective, none-ne-some}
use vllm_sail.Base.{
  ◌≤◌, String, Bool, true, false, not, ◌&&◌, ◌||◌, some, ◌<>◌, ◌≡◌, refl, sym, ap, ◌∙◌, inl, inr,
}
use vllm_sail.Base.{
  List, [], ◌∷◌, ◌++◌, arith, ◌==◌, ==_refl, string_eq, all, Bool-cases, Option-cases, both_true,
}
use vllm_sail.Select.Config.{starts_with}
use vllm_sail.Native.Render.{ExcludedOp}
use vllm_sail.Native.Prune.{
  Patterns, Pruner, Tiers, owner_of, Mode, outside, opening, inside, State, concat, put,
  is_compiled, registered, drop_statement, settle, complete, in_statement, step, steps, prune,
  finished, beginning,
}
use vllm_sail.Native.Pruned.{waiting, whole, step-whole}

list-nil : (xs : List String) → xs ++ [] ≡ xs
list-nil [] = refl
list-nil (x ∷ xs) = ap (λ (u : List String). x ∷ u) (list-nil xs)

module _ (r : Patterns) (t : Tiers) where
  module _ (P : Pruner → Type 0)
      (keep : (namespace text kind name : String) (p : Pruner)
        → is_compiled r t (owner_of t.entries name) ≡ false
        → P p
        → P (drop_statement r t namespace text kind name p)) where
    settle-keeps :
        (out pending statement : List String) (namespace : String) (p : Pruner)
        → P p
        → P ((settle r t out pending statement namespace p).1)
    unfolding settle
    settle-keeps out pending statement namespace p h =
        elim (Option-cases (registered r t (concat statement))) [
          | inl e ↦ rw (settle, e) h
          | inr (call, e) ↦ elim (Bool-cases (is_compiled r t (owner_of t.entries (call.1)))) [
            | inl kept ↦ rw (settle, e) (rw kept h)
            | inr left ↦
                rw (settle, e)
                  (rw left (keep namespace (concat statement) (call.0) (call.1) p left h))
          ]
        ]

    in_statement-keeps :
        (namespace : String) (pending statement : List String) (s : State)
        → P s.pruner
        → P (in_statement r t namespace pending statement s).pruner
    unfolding in_statement
    in_statement-keeps namespace pending statement s h =
        elim (Bool-cases (complete r t (concat statement))) [
          | inl done ↦ rw done (settle-keeps s.out pending statement namespace s.pruner h)
          | inr more ↦ rw more h
        ]

    step-keeps :
        (mode : Mode) (line : String) (s : State) → P s.pruner → P (step r t mode line s).pruner
    unfolding step
    step-keeps outside line s h = elim (Option-cases (r.block line)) [
      | inl a ↦ rw (step, a) h
      | inr (namespace, a) ↦ rw (step, a) h
    ]
    step-keeps (opening namespace) line s h = h
    step-keeps (inside namespace pending (x ∷ xs)) line s h =
        in_statement-keeps namespace pending (x ∷ xs ++ line ∷ []) s h
    step-keeps (inside namespace pending []) line s h =
        let stripped = r.strip line in
        elim (Bool-cases (stripped == "}" || stripped == "};")) [
          | inl a ↦ rw a h
          | inr a ↦ elim (Bool-cases (starts_with stripped "#")) [
            | inl b ↦ rw a (rw b h)
            | inr b ↦ elim (Bool-cases (stripped == "" || starts_with stripped "//")) [
              | inl c ↦ rw a (rw b (rw c h))
              | inr c ↦ rw a (rw b (rw c (in_statement-keeps namespace pending (line ∷ []) s h)))
            ]
          ]
        ]

    steps-keeps : (lines : List String) (s : State) → P s.pruner → P (steps r t lines s).pruner
    unfolding steps
    steps-keeps [] s h = h
    steps-keeps (line ∷ lines) s h =
        steps-keeps lines (step r t s.mode line s) (step-keeps s.mode line s h)

  steps-dropped :
      (lines : List String) (s : State) → s.pruner.dropped ≤ (steps r t lines s).pruner.dropped
  unfolding drop_statement
  steps-dropped lines s =
      steps-keeps (λ p. s.pruner.dropped ≤ p.dropped)
        (λ namespace text kind name p left h. omega (arith, h)) lines s (omega arith)

  steps-whole :
      (lines : List String) (s : State)
      → (steps r t lines s).pruner.dropped ≡ 0
      → whole (steps r t lines s) ≡ whole s <> concat lines
  unfolding steps
  steps-whole [] s h = sym (append-nil (whole s))
  steps-whole (line ∷ lines) s h =
      let next = step r t s.mode line s in
      let before : next.pruner.dropped ≡ 0 = omega (arith, steps-dropped lines next, h) in
      steps-whole lines next h
      ∙ ap (λ u. u <> concat lines) (step-whole r t s.mode line s before)
      ∙ append_assoc (whole s) line (concat lines)

  -- A file ends outside all blocks.
  finished-outside :
      (mode : Mode) (s : State) (out : List String) (q : Pruner)
      → finished r t mode s ≡ some (out, q)
      → (waiting mode ≡ []) × (s.out ≡ out) × (s.pruner ≡ q)
  finished-outside outside s out q h =
      let same = some-injective (s.out, s.pruner) (out, q) h in
      (
        refl,
        ap (λ (x : List String × Pruner). x.0) same,
        ap (λ (x : List String × Pruner). x.1) same,
      )
  finished-outside (opening namespace) s out q h = absurd (none-ne-some (out, q) h)
  finished-outside (inside namespace pending statement) s out q h = absurd (none-ne-some (out, q) h)

  -- A file of which no registration is dropped is written back unchanged.
  pub prune-unchanged :
      (lines out : List String) (p q : Pruner)
      → prune r t lines p ≡ some (out, q)
      → q.dropped ≡ 0
      → concat out ≡ concat lines
  unfolding prune
  prune-unchanged lines out p q h none_dropped =
      let s = steps r t lines (beginning r t p) in
      let (ended, same_out, same) = finished-outside s.mode s out q h in
      let same_dropped : s.pruner.dropped ≡ q.dropped = ap (λ (x : Pruner). x.dropped) same in
      let all_written = steps-whole lines (beginning r t p) (same_dropped ∙ none_dropped) in
      let written : concat (s.out ++ waiting s.mode) ≡ concat lines =
        all_written ∙ append.nil (concat lines) in
      ap concat
        (sym same_out ∙ sym (list-nil s.out) ∙ ap (λ (u : List String). s.out ++ u) (sym ended))
      ∙ written

  -- An operation is recorded under its namespace and its name, and its owner is not compiled.
  unfoldable pub is_rightly_excluded : (String × String) × ExcludedOp → Bool
  unfolding string_eq
  is_rightly_excluded (key, op) =
      not (is_compiled r t (owner_of t.entries (key.1)))
      && (op.namespace == key.0 && op.name == key.1)

  all-put :
      (f : (String × String) × ExcludedOp → Bool) (key : String × String) (op : ExcludedOp)
      (d : List ((String × String) × ExcludedOp))
      → f (key, op) ≡ true
      → all f d ≡ true
      → all f (put key op d) ≡ true
  unfolding put
  all-put f key op [] fine h = rw fine refl
  all-put f key op ((k, o) ∷ d) fine h =
      let (first, rest) = both_true (f (k, o)) _ h in
      elim (Bool-cases (key.0 == k.0 && key.1 == k.1)) [
        | inl same ↦ rw same (rw fine rest)
        | inr other ↦ rw other (rw first (all-put f key op d fine rest))
      ]

  pub prune_lem :
      (lines out : List String) (p q : Pruner)
      → prune r t lines p ≡ some (out, q)
      → all is_rightly_excluded p.excluded ≡ true
      → all is_rightly_excluded q.excluded ≡ true
  unfolding prune drop_statement is_rightly_excluded
  prune_lem lines out p q h fine =
      let s = steps r t lines (beginning r t p) in
      let (_, _, same) = finished-outside s.mode s out q h in
      let same_excluded : s.pruner.excluded ≡ q.excluded = ap (λ (x : Pruner). x.excluded) same in
      rw (← same_excluded) (
        steps-keeps (λ u. all is_rightly_excluded u.excluded ≡ true)
          (λ namespace text kind name u left k. elim (Bool-cases (kind == "def")) [
            | inl def ↦ rw def (
                all-put is_rightly_excluded (namespace, name) _ u.excluded
                  (rw (left, ==_refl namespace, ==_refl name)) k)
            | inr impl ↦ rw impl k
          ])
          lines (beginning r t p) fine)
