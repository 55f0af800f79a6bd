-- ===== src/Native/Closed.antt =====
-- Lemmas on the include closure of vllm_sail/native/porting.py and the end of its loop.
use mathlib.Core.Option.{some-injective}
use vllm_sail.Base.{
  ℕ, zero, suc, ◌+◌, ◌≤◌, String, Bool, true, false, not, ◌||◌, none, some, ◌≡◌, ◌⊎◌, refl, sym,
  ◌∙◌, inl, inr,
}
use vllm_sail.Base.{
  List, [], ◌∷◌, arith, ◌==◌, ==_true, string_eq, contains, all, select, length, length-append,
  Bool-cases, Option-cases, List-cases, both_true,
}
use vllm_sail.Base.Sorting.{
  sorted, sorted_set, contains-sorted, contains-sorted_set, contains-append,
}
use vllm_sail.Base.Failing.{then_some}
use vllm_sail.Native.Closure.{
  Tree, State, Closure, resolve, note_includes, explore, check_sources, backwards, start,
  closure_paths,
}
use vllm_sail.Native.Grown.{room, IsKnown, accounted, all-accounted, IsWithin, note_includes-Grown}

module _ (t : Tree) (sources : List String) where
  -- A file that is seen waits in the queue, or its includes are accounted for.
  record IsExplored (s : State) : Type 0 where
    done :
        (x : String)
        → contains s.seen x ≡ true
        → (contains s.queue x ≡ true) ⊎ (all (accounted t x s) (t.includes x) ≡ true)
    known : IsKnown sources s

  module _ (files : List String) (within : IsWithin t files) where
    round-IsExplored :
        (s v : State) (rel : String) (queue : List String)
        → s.queue ≡ rel ∷ queue
        → IsExplored s
        → note_includes t rel (t.includes rel) (record s { queue = queue }) ≡ some v
        → IsExplored v × (suc (room files v) ≤ room files s)
    round-IsExplored s v rel queue e explored h =
        let (g, here) =
          note_includes-Grown t files within rel (t.includes rel) (record s { queue = queue }) v
            h in
        (
          record {
            done = λ x k. elim (Bool-cases (contains v.queue x)) [
              | inl waits ↦ inl waits
              | inr out ↦
                  let old : contains s.seen x ≡ true = let o = g.opened x k in ground arith in
                  elim (explored.done x old) [
                    | inr fine ↦ inr (
                        all-accounted t files x (t.includes x) (record s { queue = queue }) v g
                          fine)
                    | inl waited ↦ elim (Bool-cases (x == rel)) [
                      | inl same ↦ let eq : x ≡ rel = ==_true x rel same in inr (rw eq here)
                      | inr other ↦
                          let in_queue : contains queue x ≡ true = rw (e, other) at waited in
                          inl (g.queue x in_queue)
                    ]
                  ]
            ];
            known = g.known sources explored.known;
          },
          let one_less : length s.queue ≡ suc (length queue) = rw e refl in
              omega (arith, g.smaller),
        )

    explore-IsExplored :
        (fuel : ℕ) (s v : State)
        → room files s ≤ fuel
        → IsExplored s
        → explore t fuel s ≡ some v
        → (v.queue ≡ []) × IsExplored v
    unfolding explore
    explore-IsExplored zero s v enough explored h =
        let same : s ≡ v = some-injective s v h in
        elim (List-cases s.queue) [
          | inl e ↦ rw (← same) (e, explored)
          | inr (rel, queue, e) ↦
              let one_more : length s.queue ≡ suc (length queue) = rw e refl in
              absurd (omega (arith, enough, one_more))
        ]
    explore-IsExplored (suc fuel) s v enough explored h = elim (List-cases s.queue) [
      | inl e ↦
          let same : s ≡ v = some-injective s v (rw (explore, e) at h) in rw (← same) (e, explored)
      | inr (rel, queue, e) ↦
          let (w, round, rest) =
            then_some (note_includes t rel (t.includes rel) (record s { queue = queue })) _
              (rw (explore, e) at h) in
          let (next, less) = round-IsExplored s w rel queue e explored round in
          explore-IsExplored fuel w v (omega (arith, less, enough)) next rest
    ]

-- `_closure_paths` accounts for an include: its file is a source or a header, or it is listed among
-- the includes that resolve to nothing.
abbrev pub is_closed_at : Tree → Closure → String → String → Bool
is_closed_at t c rel include = elim (resolve t include rel) [
  | none ↦ contains c.unresolved include
  | some target ↦ elim (t.relative target) [
    | none ↦ false
    | some found ↦ contains c.sources found || contains c.headers found
  ]
]

-- The loop has ended, and a source's or header's includes are all accounted for.
pub record IsClosed (t : Tree) (given : List String) (c : Closure) : Type 0 where
  pub ended : c.left ≡ []
  pub same : c.sources ≡ given
  pub closed :
      (rel include : String)
      → (contains c.sources rel || contains c.headers rel) ≡ true
      → contains (t.includes rel) include ≡ true
      → is_closed_at t c rel include ≡ true

pub all-contains :
    (p : String → Bool) (xs : List String) (x : String)
    → all p xs ≡ true
    → contains xs x ≡ true
    → p x ≡ true
all-contains p [] x h k = cc
all-contains p (y ∷ ys) x h k = elim (Bool-cases (x == y)) [
  | inl same ↦ let e : x ≡ y = ==_true x y same in rw e (both_true (p y) _ h).0
  | inr other ↦ all-contains p ys x (both_true (p y) _ h).1 (rw other at k)
]

pub backwards-contains : (xs : List String) (x : String) → contains (backwards xs) x ≡ contains xs x
backwards-contains [] x = refl
backwards-contains (y ∷ ys) x =
    contains-append (backwards ys) (y ∷ []) x ∙ (let rest = backwards-contains ys x in ground arith)

length-backwards : (xs : List String) → length (backwards xs) ≡ length xs
length-backwards [] = refl
length-backwards (x ∷ xs) =
    omega (arith, length-append (backwards xs) (x ∷ []), length-backwards xs)

length-select : (p : String → Bool) (xs : List String) → length (select p xs) ≤ length xs
length-select p [] = omega arith
length-select p (x ∷ xs) = ground (arith, length-select p xs)

-- What is returned for the variables that the loop has left.
abbrev pub returned : List String → State → Closure
returned sources s = record {
  sources = sources;
  headers = sorted s.headers;
  unresolved = sorted_set s.unresolved;
  left = s.queue;
}

accounted-is_closed_at :
    (t : Tree) (sources : List String) (s : State) (rel include : String)
    → IsKnown sources s
    → accounted t rel s include ≡ true
    → is_closed_at t (returned sources s) rel include ≡ true
accounted-is_closed_at t sources s rel include known h =
    elim (Option-cases (resolve t include rel)) [
      | inl e ↦
          rw (is_closed_at, e) (contains-sorted_set include s.unresolved ∙ rw (accounted, e) at h)
      | inr (target, e) ↦ elim (Option-cases (t.relative target)) [
        | inl f ↦ let k : false ≡ true = rw f at (rw (accounted, e) at h) in cc
        | inr (found, f) ↦
            let k : contains s.seen found ≡ true = rw f at (rw (accounted, e) at h) in
            rw (is_closed_at, e)
              (rw f (rw (contains-sorted found s.headers) (sym (known found) ∙ k)))
      ]
    ]

returned-IsClosed :
    (t : Tree) (sources : List String) (s : State)
    → s.queue ≡ []
    → IsExplored t sources s
    → IsClosed t sources (returned sources s)
returned-IsClosed t sources s ended e = record {
  ended = ended;
  same = refl;
  closed = λ rel include here given.
      let seen : contains s.seen rel ≡ true =
        e.known rel ∙ rw (contains-sorted rel s.headers) at here in
      elim (e.done rel seen) [
        | inl waits ↦ let k : false ≡ true = rw ended at waits in cc
        | inr fine ↦
            accounted-is_closed_at t sources s rel include e.known
              (all-contains (accounted t rel s) (t.includes rel) include fine given)
      ];
}

module _ (t : Tree) (sources files : List String) (within : IsWithin t files) (fuel : ℕ)
    (enough : length sources + length files ≤ fuel) where
  start-IsExplored : IsExplored t sources (start sources)
  start-IsExplored = record {
    done = λ x h. inl (backwards-contains sources x ∙ h);
    known = λ x. ground arith;
  }

  start-room : room files (start sources) ≤ fuel
  start-room =
      omega (
        arith,
        enough,
        length-backwards sources,
        length-select (λ f. not (contains sources f)) files,
      )

  -- Where only `files` are reached by includes, and there are as many rounds as sources and files, a
  -- closure that is returned has left nothing in the queue; and of every source and header, each include
  -- is of a source or a header, or is listed as unresolved.
  pub closure_paths-IsClosed :
      (c : Closure) → closure_paths fuel t sources ≡ some c → IsClosed t sources c
  unfolding closure_paths
  closure_paths-IsClosed c h =
      let (_, _, h1) = then_some (check_sources t sources) _ h in
      let (s, explored, h2) = then_some (explore t fuel (start sources)) _ h1 in
      let (ended, e) =
        explore-IsExplored t sources files within fuel (start sources) s start-room start-IsExplored
          explored in
      rw (← some-injective (returned sources s) c h2) (returned-IsClosed t sources s ended e)
