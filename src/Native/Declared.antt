-- ===== src/Native/Declared.antt =====
-- What `_BindingPruner` of vllm_sail/native/porting.py excludes, told by the manifest's entries.
use mathlib.Core.Option.{none-ne-some}
use vllm_sail.Base.{String, Bool, true, false, not, ◌&&◌, none, some, ◌≡◌, refl, sym, ◌∙◌, inl, inr}
use vllm_sail.Base.{
  List, [], ◌∷◌, ◌++◌, arith, ◌==◌, ==_true, string_eq, all, any, contains, Bool-cases,
  Option-cases,
}
use vllm_sail.Base.Sorting.{IsDistinct, contains-append}
use vllm_sail.Native.Manifest.{Entry, all_ops}
use vllm_sail.Native.Render.{ExcludedOp}
use vllm_sail.Native.Prune.{Patterns, Pruner, Tiers, owner_of, is_compiled, prune}
use vllm_sail.Native.Kept.{is_rightly_excluded, prune_lem}

IsDistinct-rest : (xs ys : List String) → IsDistinct (xs ++ ys) → IsDistinct ys
IsDistinct-rest [] ys d = d
IsDistinct-rest (x ∷ xs) ys (new, d) = IsDistinct-rest xs ys d

IsDistinct-apart :
    (xs ys : List String) (x : String)
    → IsDistinct (xs ++ ys)
    → contains ys x ≡ true
    → contains xs x ≡ false
IsDistinct-apart [] ys x d there = refl
IsDistinct-apart (y ∷ xs) ys x (new, d) there = elim (Bool-cases (x == y)) [
  | inl same ↦
      let e : x ≡ y = ==_true x y same in
      let k : contains (xs ++ ys) x ≡ false = rw e new in
      let split = contains-append xs ys x in absurd (ground arith)
  | inr other ↦ rw other (IsDistinct-apart xs ys x d there)
]

owner_of-contains :
    (es : List Entry) (op : String) (f : Entry)
    → owner_of es op ≡ some f
    → contains (all_ops es) op ≡ true
unfolding owner_of
owner_of-contains [] op f h = cc
owner_of-contains (e ∷ es) op f h =
    contains-append e.ops (all_ops es) op ∙ elim (Option-cases (owner_of es op)) [
      | inr (g, owned) ↦ let rest = owner_of-contains es op g owned in ground (arith, rest)
      | inl missing ↦ elim (Bool-cases (contains e.ops op)) [
        | inl here ↦ rw here refl
        | inr away ↦ let k : none ≡ some f = rw (missing, away) at h in absurd (none-ne-some f k)
      ]
    ]

module _ (r : Patterns) (t : Tiers) where
  -- An entry of a compiled tier declares the operation.
  abbrev pub is_declared : List Entry → String → Bool
  unfolding string_eq
  is_declared es op = any (λ e. contains e.ops op && contains t.compiled e.tier) es

  is_compiled-is_declared :
      (es : List Entry) (op : String)
      → IsDistinct (all_ops es)
      → is_compiled r t (owner_of es op) ≡ is_declared es op
  unfolding owner_of
  is_compiled-is_declared [] op d = refl
  is_compiled-is_declared (e ∷ es) op d =
      let rest = is_compiled-is_declared es op (IsDistinct-rest e.ops (all_ops es) d) in
      elim (Option-cases (owner_of es op)) [
        | inl missing ↦
            let none_there : is_declared es op ≡ false = sym rest ∙ rw missing refl in
            elim (Bool-cases (contains e.ops op)) [
              | inl here ↦ rw (missing, here) (ground (arith, none_there))
              | inr away ↦ rw (missing, away) (sym none_there)
            ]
        | inr (f, owned) ↦
            let there = owner_of-contains es op f owned in
            let away : contains e.ops op ≡ false = IsDistinct-apart e.ops (all_ops es) op d there in
            rw (owned, away) (rw owned at rest)
      ]

  -- Recorded under its namespace and its name, and declared by no entry of a compiled tier.
  abbrev pub is_undeclared : (String × String) × ExcludedOp → Bool
  unfolding string_eq
  is_undeclared (key, op) =
      not (is_declared t.entries (key.1)) && (op.namespace == key.0 && op.name == key.1)

  all_same :
      (d : List ((String × String) × ExcludedOp))
      → IsDistinct (all_ops t.entries)
      → all (is_rightly_excluded r t) d ≡ all is_undeclared d
  unfolding is_rightly_excluded is_undeclared
  all_same [] distinct = refl
  all_same ((key, op) ∷ d) distinct =
      let here = is_compiled-is_declared t.entries (key.1) distinct in
      let rest = all_same d distinct in rw (here, rest) refl

  -- Where every operation is declared once in the manifest, a file adds to excluded operations that
  -- are recorded under their namespaces and names, and that no entry of a compiled tier declares,
  -- only others of which this holds.
  pub prune-excluded :
      (lines out : List String) (p q : Pruner)
      → IsDistinct (all_ops t.entries)
      → prune r t lines p ≡ some (out, q)
      → all is_undeclared p.excluded ≡ true
      → all is_undeclared q.excluded ≡ true
  prune-excluded lines out p q distinct h fine =
      sym (all_same q.excluded distinct)
      ∙ prune_lem r t lines out p q h (all_same p.excluded distinct ∙ fine)
