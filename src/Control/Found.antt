-- ===== src/Control/Found.antt =====
-- What `find_runs` of scripts/ci/ppu_ci_command.py finds: which runs of the pages, and in which
-- order.
use mathlib.Core.List.{Memᴰ}
use mathlib.Core.List.Memᴰ.{head, tail}
use mathlib.Core.Path.{subst}
use vllm_sail.Base.{
  ℕ, String, Bool, true, false, ◌&&◌, ◌||◌, Option, none, some, ◌≡◌, ◌⊎◌, inl, inr, refl, sym, ap,
  ◌∙◌, arith, suc, ◌≤◌, zero,
}
use vllm_sail.Base.{
  List, [], ◌∷◌, ◌==◌, string_eq, nat_eq, any, select, find_first, take, ltb, Bool-cases,
}
use vllm_sail.Control.Runs.{Title, Run, title_fits, is_run_of, put_run, newest_first, find_runs}
use vllm_sail.Control.Launch.{is_found}

-- The run was dispatched for the workflow, on the default branch of the repository.
abbrev pub is_dispatched : String → String → Run → Bool
is_dispatched repo branch r =
    r.event == "workflow_dispatch"
    && r.path == ".github/workflows/ppu-pr-ci.yaml"
    && r.head_branch == branch
    && r.repository == repo

abbrev pub is_titled : ℕ → String → Option Title → Bool
is_titled number sha none = false
is_titled number sha (some t) = t.number == number && t.head_sha == sha

-- The run is one of the workflow, for this head of this pull request.
abbrev pub is_for : String → String → ℕ → String → Run → Bool
is_for repo branch number sha r = is_titled number sha r.title && is_dispatched repo branch r

title_fits-is_titled :
    (number : ℕ) (sha : String) (t : Option Title)
    → title_fits (some number) (some sha) t ≡ is_titled number sha t
title_fits-is_titled number sha none = refl
title_fits-is_titled number sha (some t) = refl

is_run_of-is_for :
    (repo branch : String) (number : ℕ) (sha : String) (r : Run)
    → is_run_of repo branch (some number) (some sha) r ≡ is_for repo branch number sha r
unfolding is_run_of
is_run_of-is_for repo branch number sha r = ground (arith, title_fits-is_titled number sha r.title)

pub is_run_of-is_dispatched :
    (repo branch : String) (number : Option ℕ) (sha : Option String) (r : Run)
    → is_run_of repo branch number sha r ≡ true
    → is_dispatched repo branch r ≡ true
unfolding is_run_of
is_run_of-is_dispatched repo branch number sha r h = ground (arith, h)

any-put_run : (q : Run → Bool) (r : Run) (ss : List Run) → any q (put_run r ss) ≡ (q r || any q ss)
unfolding put_run
any-put_run q r [] = refl
any-put_run q r (s ∷ ss) = ground (arith, any-put_run q r ss)

any-newest_first : (q : Run → Bool) (rs : List Run) → any q (newest_first rs) ≡ any q rs
unfolding newest_first
any-newest_first q [] = refl
any-newest_first q (r ∷ rs) =
    any-put_run q r (newest_first rs) ∙ ap (λ b. q r || b) (any-newest_first q rs)

module _ (repo branch : String) (number : ℕ) (sha : String) where
  any-select :
      (q : Run → Bool) (rs : List Run)
      → any q (select (is_run_of repo branch (some number) (some sha)) rs)
        ≡ any (λ r. is_for repo branch number sha r && q r) rs
  any-select q [] = refl
  any-select q (r ∷ rs) = ground (arith, is_run_of-is_for repo branch number sha r, any-select q rs)

  -- A test on the runs that are found is one on the pages.
  pub any-find_runs :
      (q : Run → Bool) (rs : List Run)
      → any q (find_runs repo branch (some number) (some sha) rs)
        ≡ any (λ r. is_for repo branch number sha r && q r) rs
  unfolding find_runs
  any-find_runs q rs =
      any-newest_first q (select (is_run_of repo branch (some number) (some sha)) rs)
      ∙ any-select q rs

pub is_found-any : (q : Run → Bool) (rs : List Run) → is_found (find_first q rs) ≡ any q rs
is_found-any q [] = refl
is_found-any q (r ∷ rs) = elim (Bool-cases (q r)) [
  | inl yes' ↦ rw yes' refl
  | inr no' ↦ rw no' (is_found-any q rs)
]

-- A run that is found is one of the pages.
put_run-Mem : (x r : Run) (ss : List Run) → Memᴰ x (put_run r ss) → (x ≡ r) ⊎ Memᴰ x ss
unfolding put_run
put_run-Mem x r [] (head e) = inl e
put_run-Mem x r [] (tail m) = elim m [ ]
put_run-Mem x r (s ∷ ss) m = elim (Bool-cases (ltb r.id s.id)) [
  | inl less ↦ later (put_run-Mem x r ss) (subst (Memᴰ x) (by_less less) m)
  | inr more ↦ first (subst (Memᴰ x) (by_more more) m)
]
  where
    by_less : ltb r.id s.id ≡ true → put_run r (s ∷ ss) ≡ s ∷ put_run r ss
    by_less h = rw (put_run, h) refl

    by_more : ltb r.id s.id ≡ false → put_run r (s ∷ ss) ≡ r ∷ s ∷ ss
    by_more h = rw (put_run, h) refl

    later :
        (Memᴰ x (put_run r ss) → (x ≡ r) ⊎ Memᴰ x ss)
        → Memᴰ x (s ∷ put_run r ss)
        → (x ≡ r) ⊎ Memᴰ x (s ∷ ss)
    later before (head e) = inr (head e)
    later before (tail k) = elim (before k) [ inl e ↦ inl e | inr k' ↦ inr (tail k') ]

    first : Memᴰ x (r ∷ s ∷ ss) → (x ≡ r) ⊎ Memᴰ x (s ∷ ss)
    first (head e) = inl e
    first (tail k) = inr k

newest_first-Mem : (x : Run) (rs : List Run) → Memᴰ x (newest_first rs) → Memᴰ x rs
unfolding newest_first
newest_first-Mem x [] m = m
newest_first-Mem x (r ∷ rs) m = elim (put_run-Mem x r (newest_first rs) m) [
  | inl e ↦ head e
  | inr k ↦ tail (newest_first-Mem x rs k)
]

select-Mem :
    (p : Run → Bool) (x : Run) (rs : List Run) → Memᴰ x (select p rs) → Memᴰ x rs × (p x ≡ true)
select-Mem p x [] m = elim m [ ]
select-Mem p x (r ∷ rs) m = elim (Bool-cases (p r)) [
  | inl yes' ↦ kept (select-Mem p x rs) yes' (rw yes' at m)
  | inr no' ↦ let (k, e) = select-Mem p x rs (rw no' at m) in (tail k, e)
]
  where
    kept :
        (Memᴰ x (select p rs) → Memᴰ x rs × (p x ≡ true))
        → p r ≡ true
        → Memᴰ x (r ∷ select p rs)
        → Memᴰ x (r ∷ rs) × (p x ≡ true)
    kept before h (head e) = (head e, ap p e ∙ h)
    kept before h (tail k) = let (k', e) = before k in (tail k', e)

pub take-Mem : (n : ℕ) (x : Run) (rs : List Run) → Memᴰ x (take n rs) → Memᴰ x rs
take-Mem zero x rs m = elim m [ ]
take-Mem (suc n) x [] m = m
take-Mem (suc n) x (r ∷ rs) (head e) = head e
take-Mem (suc n) x (r ∷ rs) (tail m) = tail (take-Mem n x rs m)

pub find_runs-Mem :
    (repo branch : String) (number : Option ℕ) (sha : Option String) (x : Run) (rs : List Run)
    → Memᴰ x (find_runs repo branch number sha rs)
    → Memᴰ x rs × (is_run_of repo branch number sha x ≡ true)
unfolding find_runs
find_runs-Mem repo branch number sha x rs m =
    select-Mem (is_run_of repo branch number sha) x rs
      (newest_first-Mem x (select (is_run_of repo branch number sha) rs) m)

-- The first one that is found is the newest.
-- No run of the list is newer than the number.
abbrev pub NoNewer : ℕ → List Run → Type 0
NoNewer n [] = Unit
NoNewer n (r ∷ rs) = (r.id ≤ n) × NoNewer n rs

NoNewer-weaken : (n m : ℕ) (rs : List Run) → n ≤ m → NoNewer n rs → NoNewer m rs
NoNewer-weaken n m [] le h = tt
NoNewer-weaken n m (r ∷ rs) le (here, rest) =
    (omega (arith, le, here), NoNewer-weaken n m rs le rest)

-- The first of a list has the highest number of another one.
abbrev StartsNewest : List Run → List Run → Type 0
StartsNewest [] rs = rs ≡ []
StartsNewest (n ∷ ns) rs = NoNewer n.id rs

put_run-StartsNewest :
    (r : Run) (ss rs : List Run) → StartsNewest ss rs → StartsNewest (put_run r ss) (r ∷ rs)
unfolding put_run
put_run-StartsNewest r [] rs e = rw e (omega arith, tt)
put_run-StartsNewest r (s ∷ ss) rs h = elim (Bool-cases (ltb r.id s.id)) [
  | inl less ↦ rw less (ground (arith, less), h)
  | inr more ↦ rw more (omega arith, NoNewer-weaken s.id r.id rs (ground (arith, more)) h)
]

newest_first-StartsNewest : (rs : List Run) → StartsNewest (newest_first rs) rs
unfolding newest_first
newest_first-StartsNewest [] = refl
newest_first-StartsNewest (r ∷ rs) =
    put_run-StartsNewest r (newest_first rs) rs (newest_first-StartsNewest rs)

select_same :
    (p q : Run → Bool) (rs : List Run) → ((r : Run) → p r ≡ q r) → select p rs ≡ select q rs
select_same p q [] same = refl
select_same p q (r ∷ rs) same = rw (same r, select_same p q rs same) refl

-- The first run that is found is one of those for the head, of which none is newer.
pub find_runs-newest :
    (repo branch : String) (number : ℕ) (sha : String) (rs : List Run) (n : Run) (ns : List Run)
    → find_runs repo branch (some number) (some sha) rs ≡ n ∷ ns
    → Memᴰ n (select (is_for repo branch number sha) rs)
      × NoNewer n.id (select (is_for repo branch number sha) rs)
unfolding find_runs
find_runs-newest repo branch number sha rs n ns h =
    let p = is_run_of repo branch (some number) (some sha) in
    let q = is_for repo branch number sha in
    let same = select_same p q rs (is_run_of-is_for repo branch number sha) in
    (
      subst (Memᴰ n) same (newest_first-Mem n (select p rs) (subst (Memᴰ n) (sym h) (head refl))),
      subst (NoNewer n.id) same
          (subst (λ l. StartsNewest l (select p rs)) h (newest_first-StartsNewest (select p rs))),
    )
