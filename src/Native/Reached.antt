-- ===== src/Native/Reached.antt =====
-- Properties of the include closure of vllm_sail/native/porting.py.
use mathlib.Core.Option.{some-injective}
use vllm_sail.Base.{
  ℕ, zero, suc, ◌+◌, ◌≤◌, String, Bool, true, false, ◌||◌, some, ◌≡◌, ◌⊎◌, ◌↔◌, refl, sym, ◌∙◌, inl,
  inr,
}
use vllm_sail.Base.{
  List, [], ◌∷◌, arith, ◌==◌, ==_refl, ==_true, string_eq, contains, length, Bool-cases,
  Option-cases, List-cases,
}
use vllm_sail.Base.Sorting.{contains-sorted}
use vllm_sail.Base.Failing.{then_require, then_some}
use vllm_sail.Select.Config.{starts_with}
use vllm_sail.Native.Closure.{
  Tree, State, Closure, resolve, reach, note_include, note_includes, explore, check_sources, start,
  closure_paths,
}
use vllm_sail.Native.Grown.{IsWithin}
use vllm_sail.Native.Closed.{
  IsClosed, is_closed_at, closure_paths-IsClosed, backwards-contains, returned,
}

-- A source, or a file that a reached file includes.
pub data Reached (t : Tree) (sources : List String) : String → Type 0 where
  source : (x : String) → contains sources x ≡ true → Reached t sources x
  included :
      (rel include target found : String)
      → Reached t sources rel
      → contains (t.includes rel) include ≡ true
      → resolve t include rel ≡ some target
      → t.relative target ≡ some found
      → Reached t sources found

module _ (t : Tree) (sources : List String) where
  -- All that is seen or waits is reached, and so are the headers.
  record IsReached (s : State) : Type 0 where
    queued : (x : String) → contains s.queue x ≡ true → Reached t sources x
    header : (x : String) → contains s.headers x ≡ true → Reached t sources x

  reach-IsReached :
      (found : String) (s : State)
      → Reached t sources found
      → IsReached s
      → IsReached (reach found s)
  unfolding reach
  reach-IsReached found s r a = elim (Bool-cases (contains s.seen found)) [
    | inl old ↦ rw old a
    | inr new ↦ rw new (record {
      queued = λ x h. elim (Bool-cases (x == found)) [
        | inl same ↦ let e : x ≡ found = ==_true x found same in rw e r
        | inr other ↦ a.queued x (rw other at h)
      ];
      header = λ x h. elim (Bool-cases (x == found)) [
        | inl same ↦ let e : x ≡ found = ==_true x found same in rw e r
        | inr other ↦ a.header x (rw other at h)
      ];
    })
  ]

  note_include-IsReached :
      (rel include : String) (s v : State)
      → Reached t sources rel
      → contains (t.includes rel) include ≡ true
      → note_include t rel include s ≡ some v
      → IsReached s
      → IsReached v
  unfolding note_include
  note_include-IsReached rel include s v r given h a = elim (Option-cases (resolve t include rel)) [
    | inl e ↦
        let w : State = record s { unresolved = include ∷ s.unresolved } in
        let same : w ≡ v = some-injective w v (rw (note_include, e) at h) in
        rw (← same) (record { queued = a.queued; header = a.header })
    | inr (target, e) ↦
        let (found, f, k) = then_some (t.relative target) _ (rw (note_include, e) at h) in
        let (_, j) = then_require (starts_with found "csrc/") _ k in
        rw (← some-injective (reach found s) v j)
          (reach-IsReached found s (included rel include target found r given e f) a)
  ]

  note_includes-IsReached :
      (rel : String) (includes : List String) (s v : State)
      → Reached t sources rel
      → ((x : String) → contains includes x ≡ true → contains (t.includes rel) x ≡ true)
      → note_includes t rel includes s ≡ some v
      → IsReached s
      → IsReached v
  unfolding note_includes
  note_includes-IsReached rel [] s v r given h a = rw (← some-injective s v h) a
  note_includes-IsReached rel (i ∷ is) s v r given h a =
      let (w, first, rest) = then_some (note_include t rel i s) _ h in
      note_includes-IsReached rel is w v r (λ x k. given x (ground arith)) rest
        (note_include-IsReached rel i s w r (given i (rw (==_refl i))) first a)

  explore-IsReached :
      (fuel : ℕ) (s v : State) → explore t fuel s ≡ some v → IsReached s → IsReached v
  unfolding explore
  explore-IsReached zero s v h a = rw (← some-injective s v h) a
  explore-IsReached (suc fuel) s v h a = elim (List-cases s.queue) [
    | inl e ↦ rw (← some-injective s v (rw (explore, e) at h)) a
    | inr (rel, queue, e) ↦
        let (w, round, rest) =
          then_some (note_includes t rel (t.includes rel) (record s { queue = queue })) _
            (rw (explore, e) at h) in
        explore-IsReached fuel w v rest (
          note_includes-IsReached rel (t.includes rel) (record s { queue = queue }) w
            (a.queued rel (rw e (rw (==_refl rel)))) (λ x k. k) round
            (record { queued = λ x k. a.queued x (rw e (ground arith)); header = a.header }))
  ]

start-IsReached : (t : Tree) (sources : List String) → IsReached t sources (start sources)
start-IsReached t sources = record {
  queued = λ y k. source y (sym (backwards-contains sources y) ∙ k);
  header = λ y k. cc;
}

or-cases : (a b : Bool) → (a || b) ≡ true → (a ≡ true) ⊎ (b ≡ true)
or-cases true b h = inl refl
or-cases false b h = inr h

module _ (t : Tree) (sources files : List String) (within : IsWithin t files) (fuel : ℕ)
    (enough : length sources + length files ≤ fuel) where
  Reached-closed :
      (c : Closure) (x : String)
      → IsClosed t sources c
      → Reached t sources x
      → (contains c.sources x || contains c.headers x) ≡ true
  Reached-closed c x a (source _ h) = rw (a.same) (rw h)
  Reached-closed c x a (included rel include target _ r given e f) =
      let here = a.closed rel include (Reached-closed c rel a r) given in
      rw f at (rw (is_closed_at, e) at here)

  closed-Reached :
      (c : Closure) (x : String)
      → closure_paths fuel t sources ≡ some c
      → (contains c.sources x || contains c.headers x) ≡ true
      → Reached t sources x
  unfolding closure_paths
  closed-Reached c x h here =
      let (_, _, h1) = then_some (check_sources t sources) _ h in
      let (s, explored, h2) = then_some (explore t fuel (start sources)) _ h1 in
      let a =
        explore-IsReached t sources fuel (start sources) s explored (start-IsReached t sources) in
      let e = some-injective (returned sources s) c h2 in
      elim (or-cases (contains c.sources x) (contains c.headers x) here) [
        | inl k ↦ source x (rw (← e) at k)
        | inr k ↦ a.header x (sym (contains-sorted x s.headers) ∙ rw (← e) at k)
      ]

  -- Where only `files` are reached by includes, and there are as many rounds as sources and files, a
  -- closure that is returned has as its sources and headers exactly the files that are reached: the
  -- sources, and what a reached file includes.
  pub closure_paths-Reached :
      (c : Closure)
      → closure_paths fuel t sources ≡ some c
      → (x : String) → ((contains c.sources x || contains c.headers x) ≡ true) ↔ Reached t sources x
  closure_paths-Reached c h x = (
    closed-Reached c x h,
    Reached-closed c x (closure_paths-IsClosed t sources files within fuel enough c h),
  )

-- Of a file that is reached, an include that resolves stays inside `csrc/`.
abbrev pub StaysInside : Tree → List String → Type 0
StaysInside t sources =
    (rel include target : String)
    → Reached t sources rel
    → contains (t.includes rel) include ≡ true
    → resolve t include rel ≡ some target
    → (found : String) × (t.relative target ≡ some found) × (starts_with found "csrc/" ≡ true)

module _ (t : Tree) (sources : List String) (inside : StaysInside t sources) where
  note_includes-some :
      (rel : String) (includes : List String) (s : State)
      → Reached t sources rel
      → ((x : String) → contains includes x ≡ true → contains (t.includes rel) x ≡ true)
      → (v : State) × (note_includes t rel includes s ≡ some v)
  unfolding note_includes note_include
  note_includes-some rel [] s r given = (s, refl)
  note_includes-some rel (i ∷ is) s r given =
      let later : (x : String) → contains is x ≡ true → contains (t.includes rel) x ≡ true =
        λ x k. given x (ground arith) in
      elim (Option-cases (resolve t i rel)) [
        | inl e ↦
            let (v, h) =
              note_includes-some rel is (record s { unresolved = i ∷ s.unresolved }) r later in
            (v, rw (note_include, e) h)
        | inr (target, e) ↦
            let (found, f, csrc) = inside rel i target r (given i (rw (==_refl i))) e in
            let (v, h) = note_includes-some rel is (reach found s) r later in
            (v, rw (note_include, e) (rw f (rw csrc h)))
      ]

  explore-some :
      (fuel : ℕ) (s : State) → IsReached t sources s → (v : State) × (explore t fuel s ≡ some v)
  unfolding explore
  explore-some zero s a = (s, refl)
  explore-some (suc fuel) s a = elim (List-cases s.queue) [
    | inl e ↦ (s, simp (explore, e))
    | inr (rel, queue, e) ↦
        let r = a.queued rel (rw e (rw (==_refl rel))) in
        let next : State = record s { queue = queue } in
        let (w, h) = note_includes-some rel (t.includes rel) next r (λ x k. k) in
        let b =
          note_includes-IsReached t sources rel (t.includes rel) next w r (λ x k. k) h
            (record { queued = λ x k. a.queued x (rw e (ground arith)); header = a.header }) in
        let (v, k) = explore-some fuel w b in (v, rw (explore, e) (rw h k))
  ]

  -- Where the sources are files of `csrc/`, every include of a reached file that resolves is a file
  -- of `csrc/`, and `files` has all files that includes can resolve to, as many rounds as there are
  -- sources and files return a closure: no exception is raised, the queue is empty at the end, and
  -- the closure is closed.
  pub closure_paths-ends :
      (files : List String) (fuel : ℕ)
      → IsWithin t files
      → check_sources t sources ≡ some tt
      → length sources + length files ≤ fuel
      → (c : Closure) × (closure_paths fuel t sources ≡ some c) × IsClosed t sources c
  unfolding closure_paths
  closure_paths-ends files fuel within good enough =
      let (s, explored) = explore-some fuel (start sources) (start-IsReached t sources) in
      let made : closure_paths fuel t sources ≡ some (returned sources s) =
        rw good (rw explored refl) in
      (
        returned sources s,
        made,
        closure_paths-IsClosed t sources files within fuel enough (returned sources s) made,
      )
