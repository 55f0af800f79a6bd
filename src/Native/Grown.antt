-- ===== src/Native/Grown.antt =====
-- What a round of the include closure of vllm_sail/native/porting.py does to the loop's variables.
use mathlib.Core.Option.{some-injective}
use vllm_sail.Base.{
  ℕ, suc, ◌+◌, ◌≤◌, String, Bool, true, false, not, ◌||◌, none, some, ◌≡◌, refl, inl, inr,
}
use vllm_sail.Base.{
  List, [], ◌∷◌, arith, ◌==◌, ==_refl, ==_true, string_eq, contains, all, select, length,
  Bool-cases, Option-cases, both_true,
}
use vllm_sail.Base.Failing.{then_require, then_some}
use vllm_sail.Select.Config.{starts_with}
use vllm_sail.Native.Closure.{Tree, State, resolve, reach, note_include, note_includes}

-- The files that are not reached yet.
abbrev pub unseen : List String → List String → List String
unseen files seen = select (λ f. not (contains seen f)) files

-- How many rounds are left at most, where only `files` are ever reached.
abbrev pub room : List String → State → ℕ
room files s = length s.queue + length (unseen files s.seen)

unseen-less :
    (files seen : List String) (x : String)
    → length (unseen files (x ∷ seen)) ≤ length (unseen files seen)
unseen-less [] seen x = omega arith
unseen-less (f ∷ files) seen x = ground (arith, unseen-less files seen x)

unseen-reach :
    (files seen : List String) (x : String)
    → contains files x ≡ true
    → contains seen x ≡ false
    → suc (length (unseen files (x ∷ seen))) ≤ length (unseen files seen)
unseen-reach [] seen x known new = cc
unseen-reach (f ∷ files) seen x known new = elim (Bool-cases (x == f)) [
  | inl same ↦
      let e : x ≡ f = ==_true x f same in
      rw (← e) (rw (==_refl x) (rw new (ground (arith, unseen-less files seen x))))
  | inr other ↦ ground (arith, unseen-reach files seen x (rw other at known) new)
]

-- What is seen are the sources and the headers.
abbrev pub IsKnown : List String → State → Type 0
IsKnown sources s = (x : String) → contains s.seen x ≡ (contains sources x || contains s.headers x)

-- From one state to a later one within a round.
pub record Grown (files : List String) (s v : State) : Type 0 where
  pub seen : (x : String) → contains s.seen x ≡ true → contains v.seen x ≡ true
  pub unresolved : (x : String) → contains s.unresolved x ≡ true → contains v.unresolved x ≡ true
  pub queue : (x : String) → contains s.queue x ≡ true → contains v.queue x ≡ true
  pub opened :
      (x : String) → contains v.seen x ≡ true → (contains s.seen x || contains v.queue x) ≡ true
  pub known : (sources : List String) → IsKnown sources s → IsKnown sources v
  pub smaller : room files v ≤ room files s

pub Grown-refl : (files : List String) (s : State) → Grown files s s
Grown-refl files s = record {
  seen = λ x h. h;
  unresolved = λ x h. h;
  queue = λ x h. h;
  opened = λ x h. ground arith;
  known = λ sources h. h;
  smaller = omega arith;
}

pub Grown-Grown :
    (files : List String) (s v u : State) → Grown files s v → Grown files v u → Grown files s u
Grown-Grown files s v u a b = record {
  seen = λ x h. b.seen x (a.seen x h);
  unresolved = λ x h. b.unresolved x (a.unresolved x h);
  queue = λ x h. b.queue x (a.queue x h);
  opened = λ x h.
      let later = b.opened x h in let sooner = a.opened x in let kept = b.queue x in ground arith;
  known = λ sources h. b.known sources (a.known sources h);
  smaller = omega (arith, a.smaller, b.smaller);
}

reach-Grown :
    (files : List String) (found : String) (s : State)
    → contains files found ≡ true
    → Grown files s (reach found s)
unfolding reach
reach-Grown files found s known = elim (Bool-cases (contains s.seen found)) [
  | inl old ↦ rw old (Grown-refl files s)
  | inr new ↦ rw new (record {
    seen = λ x h. ground arith;
    unresolved = λ x h. h;
    queue = λ x h. ground arith;
    opened = λ x h. ground arith;
    known = λ sources h x. let old = h x in ground arith;
    smaller = omega (arith, unseen-reach files s.seen found known new);
  })
]

reach-seen : (found : String) (s : State) → contains (reach found s).seen found ≡ true
unfolding reach
reach-seen found s = elim (Bool-cases (contains s.seen found)) [
  | inl old ↦ rw old old
  | inr new ↦ rw new (rw (==_refl found))
]

module _ (t : Tree) where
  -- An include is listed among those that resolve to nothing, or its file is seen.
  abbrev pub accounted : String → State → String → Bool
  accounted rel s include = elim (resolve t include rel) [
    | none ↦ contains s.unresolved include
    | some target ↦ elim (t.relative target) [ none ↦ false | some found ↦ contains s.seen found ]
  ]

  accounted-Grown :
      (files : List String) (rel include : String) (s v : State)
      → Grown files s v
      → accounted rel s include ≡ true
      → accounted rel v include ≡ true
  accounted-Grown files rel include s v g h = elim (Option-cases (resolve t include rel)) [
    | inl e ↦ rw (accounted, e) (g.unresolved include (rw (accounted, e) at h))
    | inr (target, e) ↦ elim (Option-cases (t.relative target)) [
      | inl f ↦ let k : false ≡ true = rw f at (rw (accounted, e) at h) in cc
      | inr (found, f) ↦ rw (accounted, e) (rw f (g.seen found (rw f at (rw (accounted, e) at h))))
    ]
  ]

  pub all-accounted :
      (files : List String) (rel : String) (includes : List String) (s v : State)
      → Grown files s v
      → all (accounted rel s) includes ≡ true
      → all (accounted rel v) includes ≡ true
  all-accounted files rel [] s v g h = refl
  all-accounted files rel (i ∷ is) s v g h =
      let (first, rest) = both_true (accounted rel s i) _ h in
      rw (accounted-Grown files rel i s v g first) (all-accounted files rel is s v g rest)

  -- Every file that an include reaches is one of `files`.
  abbrev pub IsWithin : List String → Type 0
  IsWithin files =
      (rel include target found : String)
      → resolve t include rel ≡ some target
      → t.relative target ≡ some found
      → contains files found ≡ true

  module _ (files : List String) (within : IsWithin files) where
    note_include-Grown :
        (rel include : String) (s v : State)
        → note_include t rel include s ≡ some v
        → Grown files s v × (accounted rel v include ≡ true)
    unfolding note_include
    note_include-Grown rel include s v h = elim (Option-cases (resolve t include rel)) [
      | inl e ↦
          let w : State = record s { unresolved = include ∷ s.unresolved } in
          let same : w ≡ v = some-injective w v (rw (note_include, e) at h) in
          rw (← same) (
            record {
              seen = λ x k. k;
              unresolved = λ x k. ground arith;
              queue = λ x k. k;
              opened = λ x k. ground arith;
              known = λ sources k. k;
              smaller = omega arith;
            },
            rw (accounted, e) (rw (==_refl include)),
          )
      | inr (target, e) ↦
          let (found, f, k) = then_some (t.relative target) _ (rw (note_include, e) at h) in
          let (_, j) = then_require (starts_with found "csrc/") _ k in
          let same : reach found s ≡ v = some-injective (reach found s) v j in
          rw (← same) (
            reach-Grown files found s (within rel include target found e f),
            rw (accounted, e) (rw f (reach-seen found s)),
          )
    ]

    -- Behind a round, the includes of its file are accounted for.
    pub note_includes-Grown :
        (rel : String) (includes : List String) (s v : State)
        → note_includes t rel includes s ≡ some v
        → Grown files s v × (all (accounted rel v) includes ≡ true)
    unfolding note_includes
    note_includes-Grown rel [] s v h = rw (← some-injective s v h) (Grown-refl files s, refl)
    note_includes-Grown rel (i ∷ is) s v h =
        let (w, first, rest) = then_some (note_include t rel i s) _ h in
        let (a, here) = note_include-Grown rel i s w first in
        let (b, more) = note_includes-Grown rel is w v rest in
        (Grown-Grown files s w v a b, rw (accounted-Grown files rel i w v b here) more)
