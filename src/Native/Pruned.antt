-- ===== src/Native/Pruned.antt =====
-- Lemmas on the texts that `_BindingPruner` of vllm_sail/native/porting.py writes.
use text.Mathlib.TextLemmas.{append-nil, append_assoc}
use Prim.Native.String.append
use vllm_sail.Base.{String, ◌||◌, ◌<>◌, ◌≡◌, refl, sym, ap, ◌∙◌, inl, inr}
use vllm_sail.Base.{List, [], ◌∷◌, ◌++◌, arith, ◌==◌, string_eq, Bool-cases, Option-cases}
use vllm_sail.Select.Config.{starts_with}
use vllm_sail.Native.Prune.{
  Patterns, Pruner, Tiers, owner_of, Mode, outside, opening, inside, State, concat, has_char,
  is_compiled, registered, drop_statement, settle, complete, in_statement, step,
}

concat-append : (xs ys : List String) → concat (xs ++ ys) ≡ concat xs <> concat ys
concat-append [] ys = sym (append.nil (concat ys))
concat-append (x ∷ xs) ys =
    ap (λ u. x <> u) (concat-append xs ys) ∙ sym (append_assoc x (concat xs) (concat ys))

-- What is written, and the lines behind it that are read and not yet written.
abbrev pub waiting : Mode → List String
waiting outside = []
waiting (opening namespace) = []
waiting (inside namespace pending statement) = pending ++ statement

abbrev pub whole : State → String
whole s = concat (s.out ++ waiting s.mode)

-- A line more.
add_line :
    (lines : List String) (line : String) → concat (lines ++ line ∷ []) ≡ concat lines <> line
add_line lines line =
    concat-append lines (line ∷ []) ∙ ap (λ u. concat lines <> u) (append-nil line)

list_assoc : (xs ys zs : List String) → (xs ++ ys) ++ zs ≡ xs ++ (ys ++ zs)
list_assoc [] ys zs = refl
list_assoc (x ∷ xs) ys zs = ap (λ (u : List String). x ∷ u) (list_assoc xs ys zs)

list-nil : (xs : List String) → xs ++ [] ≡ xs
list-nil [] = refl
list-nil (x ∷ xs) = ap (λ (u : List String). x ∷ u) (list-nil xs)

-- A line that is put behind what waits.
waited :
    (out pending : List String) (line : String)
    → concat (out ++ (pending ++ line ∷ [])) ≡ concat (out ++ pending) <> line
waited out pending line =
    ap concat (sym (list_assoc out pending (line ∷ []))) ∙ add_line (out ++ pending) line

-- A line that is written.
written :
    (out pending : List String) (line : String)
    → concat ((out ++ (pending ++ line ∷ [])) ++ []) ≡ concat (out ++ (pending ++ [])) <> line
written out pending line =
    ap concat (list-nil (out ++ (pending ++ line ∷ [])))
    ∙ waited out pending line
    ∙ ap (λ (u : List String). concat (out ++ u) <> line) (sym (list-nil pending))

-- A statement may be written as one text.
joined :
    (out pending statement : List String)
    → concat (((out ++ pending) ++ concat statement ∷ []) ++ [])
      ≡ concat (out ++ (pending ++ statement))
joined out pending statement =
    ap concat (list-nil ((out ++ pending) ++ concat statement ∷ []))
    ∙ add_line (out ++ pending) (concat statement)
    ∙ sym (concat-append (out ++ pending) statement)
    ∙ ap concat (list_assoc out pending statement)

module _ (r : Patterns) (t : Tiers) where
  -- A statement that is settled and not dropped is written behind what waits.
  settle-whole :
      (out pending statement : List String) (namespace : String) (p : Pruner)
      → (settle r t out pending statement namespace p).1.dropped ≡ 0
      → concat ((settle r t out pending statement namespace p).0 ++ [])
        ≡ concat (out ++ (pending ++ statement))
  unfolding settle drop_statement
  settle-whole out pending statement namespace p h =
      elim (Option-cases (registered r t (concat statement))) [
        | inl e ↦ rw (settle, e) (joined out pending statement)
        | inr (call, e) ↦ elim (Bool-cases (is_compiled r t (owner_of t.entries (call.1)))) [
          | inl kept ↦ rw (settle, e) (rw kept (joined out pending statement))
          | inr left ↦ let gone = rw left at (rw (settle, e) at h) in absurd (omega (arith, gone))
        ]
      ]

  in_statement-whole :
      (namespace : String) (pending statement : List String) (s : State)
      → (in_statement r t namespace pending statement s).pruner.dropped ≡ 0
      → whole (in_statement r t namespace pending statement s)
        ≡ concat (s.out ++ (pending ++ statement))
  unfolding in_statement
  in_statement-whole namespace pending statement s h =
      elim (Bool-cases (complete r t (concat statement))) [
        | inl done ↦
            rw done (settle-whole s.out pending statement namespace s.pruner (rw done at h))
        | inr more ↦ rw more refl
      ]

  pub step-whole :
      (mode : Mode) (line : String) (s : State)
      → (step r t mode line s).pruner.dropped ≡ 0
      → whole (step r t mode line s) ≡ concat (s.out ++ waiting mode) <> line
  unfolding step
  step-whole outside line s h = elim (Option-cases (r.block line)) [
    | inl a ↦ rw (step, a) (written s.out [] line)
    | inr (namespace, a) ↦ elim (Bool-cases (has_char "{" line)) [
      | inl b ↦ rw (step, a) (rw b (written s.out [] line))
      | inr b ↦ rw (step, a) (rw b (written s.out [] line))
    ]
  ]
  step-whole (opening namespace) line s h = elim (Bool-cases (has_char "{" line)) [
    | inl b ↦ rw b (written s.out [] line)
    | inr b ↦ rw b (written s.out [] line)
  ]
  step-whole (inside namespace pending (x ∷ xs)) line s h =
      in_statement-whole namespace pending (x ∷ xs ++ line ∷ []) s h
      ∙ ap (λ (u : List String). concat (s.out ++ u))
          (sym (list_assoc pending (x ∷ xs) (line ∷ [])))
      ∙ waited s.out (pending ++ x ∷ xs) line
  step-whole (inside namespace pending []) line s h =
      let stripped = r.strip line in
      elim (Bool-cases (stripped == "}" || stripped == "};")) [
        | inl a ↦ rw a (written s.out pending line)
        | inr a ↦ elim (Bool-cases (starts_with stripped "#")) [
          | inl b ↦ rw a (rw b (written s.out pending line))
          | inr b ↦ elim (Bool-cases (stripped == "" || starts_with stripped "//")) [
            | inl c ↦ rw a (
                rw b (
                  rw c (
                    ap (λ (u : List String). concat (s.out ++ u)) (list-nil (pending ++ line ∷ []))
                    ∙ waited s.out pending line
                    ∙ ap (λ (u : List String). concat (s.out ++ u) <> line)
                        (sym (list-nil pending)))))
            | inr c ↦ rw a (
                rw b (
                  rw c (
                    in_statement-whole namespace pending (line ∷ []) s
                      (rw c at (rw b at (rw a at h)))
                    ∙ waited s.out pending line
                    ∙ ap (λ (u : List String). concat (s.out ++ u) <> line)
                        (sym (list-nil pending)))))
          ]
        ]
      ]
