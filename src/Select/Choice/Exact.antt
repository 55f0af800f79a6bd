-- ===== src/Select/Choice/Exact.antt =====
-- Exactly which tests `select_tests` of scripts/ci/ppu_ops_select.py selects, and when all of them.
use vllm_sail.Base.{
  String, ◌≡◌, refl, ◌∙◌, inl, inr, Bool, true, false, not, ◌&&◌, ◌||◌, Option, none, some,
}
use vllm_sail.Base.{
  List, [], ◌∷◌, ◌++◌, map, arith, ◌==◌, string_eq, option_eq, contains, any, all, select,
  if◌then◌else◌,
}
use vllm_sail.Base.{Bool-cases}
use mathlib.Core.Option.{some-injective}
use vllm_sail.Base.Sorting.{add, sorted_set, contains-sorted_set, contains-select}
use vllm_sail.Base.Failing.{then_require}
use vllm_sail.Select.Formats.{is_safe_path}
use vllm_sail.Select.Config.{Config, SourceRule, TestItem, matches, is_runnable}
use vllm_sail.Select.Choice.{
  Choosing, judge, by_file, add_file, add_rule, add_rules, visit, scan, Mode, full_mode, Choice,
  mode_of, runnable_ids, catalog_ids, initial, conclude, select_tests,
}

-- A changed path asks for a test: it is the test's file, or a source rule maps it to the test.
unfoldable pub asks_for : Config → String → String → Bool
asks_for c path id =
    by_file path c.test_catalog == some id
    || any (λ r. contains r.paths path && contains r.test_ids id) c.source_to_tests

abbrev is_found : Option String → Bool
is_found none = false
is_found (some id) = true

-- A changed path forces the full selection: a rule says so, or nothing at all is known of the path.
unfoldable pub forces_full : (String → String → Bool) → Config → String → Bool
forces_full glob c path =
    matches glob path c.full
    || not (
        is_found (by_file path c.test_catalog)
        || any (λ r. contains r.paths path) c.source_to_tests
        || matches glob path c.no_effect)

contains-append :
    (xs ys : List String) (x : String) → contains (xs ++ ys) x ≡ (contains xs x || contains ys x)
contains-append [] ys x = refl
contains-append (y ∷ xs) ys x = ground (arith, contains-append xs ys x)

module _ (path id : String) where
  add_rule-selected :
      (r : SourceRule) (p : Choosing × Bool)
      → contains (add_rule path r p).0.selected id
        ≡ (contains p.0.selected id || contains r.paths path && contains r.test_ids id)
  unfolding add_rule
  add_rule-selected r p = ground (arith, contains-append r.test_ids p.0.selected id)

  add_rules-selected :
      (rs : List SourceRule) (p : Choosing × Bool)
      → contains (add_rules path rs p).0.selected id ≡ (
          contains p.0.selected id || any (λ r. contains r.paths path && contains r.test_ids id) rs)
  unfolding add_rules
  add_rules-selected [] p = ground arith
  add_rules-selected (r ∷ rs) p =
      add_rules-selected rs (add_rule path r p) ∙ rw (add_rule-selected r p) (ground arith)

  add_rule-found :
      (r : SourceRule) (p : Choosing × Bool)
      → (add_rule path r p).1 ≡ (p.1 || contains r.paths path)
  unfolding add_rule
  add_rule-found r p = ground arith

  add_rules-found :
      (rs : List SourceRule) (p : Choosing × Bool)
      → (add_rules path rs p).1 ≡ (p.1 || any (λ r. contains r.paths path) rs)
  unfolding add_rules
  add_rules-found [] p = ground arith
  add_rules-found (r ∷ rs) p =
      add_rules-found rs (add_rule path r p) ∙ rw (add_rule-found r p) (ground arith)

  add_rule-full : (r : SourceRule) (p : Choosing × Bool) → (add_rule path r p).0.full ≡ p.0.full
  unfolding add_rule
  add_rule-full r p = ground arith

  add_rules-full :
      (rs : List SourceRule) (p : Choosing × Bool) → (add_rules path rs p).0.full ≡ p.0.full
  unfolding add_rules
  add_rules-full [] p = refl
  add_rules-full (r ∷ rs) p = add_rules-full rs (add_rule path r p) ∙ add_rule-full r p

  judge-selected :
      (no_effect : Bool) (p : Choosing × Bool)
      → contains (judge no_effect path p).selected id ≡ contains p.0.selected id
  judge-selected no_effect (s, f) = ground arith

  judge-full :
      (no_effect : Bool) (p : Choosing × Bool)
      → (judge no_effect path p).full ≡ (p.0.full || not (p.1 || no_effect))
  judge-full no_effect (s, f) = ground arith

  add_file-selected :
      (o : Option String) (s : Choosing)
      → contains (add_file o s).0.selected id ≡ (contains s.selected id || o == some id)
  unfolding option_eq
  add_file-selected none s = ground arith
  add_file-selected (some i) s = ground arith

  add_file-found : (o : Option String) (s : Choosing) → (add_file o s).1 ≡ is_found o
  add_file-found none s = refl
  add_file-found (some i) s = refl

  add_file-full : (o : Option String) (s : Choosing) → (add_file o s).0.full ≡ s.full
  add_file-full none s = refl
  add_file-full (some i) s = refl

module _ (glob : String → String → Bool) (c : Config) where
  visit-selected :
      (path id : String) (s : Choosing)
      → contains (visit glob c path s).selected id
        ≡ (contains s.selected id || not (matches glob path c.full) && asks_for c path id)
  unfolding visit asks_for
  visit-selected path id s = elim (Bool-cases (matches glob path c.full)) [
    | inl all' ↦ rw (all', visit) (ground arith)
    | inr some' ↦
        rw (some', visit)
          (judge-selected path id _ _
            ∙ add_rules-selected path id c.source_to_tests _
            ∙ rw (add_file-selected path id (by_file path c.test_catalog) s) (ground arith))
  ]

  visit-full :
      (path : String) (s : Choosing)
      → (visit glob c path s).full ≡ (s.full || forces_full glob c path)
  unfolding visit forces_full
  visit-full path s = elim (Bool-cases (matches glob path c.full)) [
    | inl all' ↦ rw (all', visit) (ground arith)
    | inr some' ↦
        let p = add_file (by_file path c.test_catalog) s in
        let q = add_rules path c.source_to_tests p in
        rw (some', visit)
          (judge-full path "" (matches glob path c.no_effect) q
            ∙ ground (
              arith,
              add_rules-full path "" c.source_to_tests p,
              add_rules-found path "" c.source_to_tests p,
              add_file-full path "" (by_file path c.test_catalog) s,
              add_file-found path "" (by_file path c.test_catalog) s,
            ))
  ]

  scan-selected :
      (id : String) (paths : List String) (s : Choosing)
      → contains (scan glob c paths s).selected id ≡ (
          contains s.selected id || any (λ p. not (matches glob p c.full) && asks_for c p id) paths)
  unfolding scan
  scan-selected id [] s = ground arith
  scan-selected id (p ∷ ps) s =
      scan-selected id ps (visit glob c p s) ∙ rw (visit-selected p id s) (ground arith)

  scan-full :
      (paths : List String) (s : Choosing)
      → (scan glob c paths s).full ≡ (s.full || any (forces_full glob c) paths)
  unfolding scan
  scan-full [] s = ground arith
  scan-full (p ∷ ps) s = scan-full ps (visit glob c p s) ∙ rw (visit-full p s) (ground arith)

any-add : (f : String → Bool) (x : String) (xs : List String) → any f (add x xs) ≡ (f x || any f xs)
unfolding add
any-add f x [] = refl
any-add f x (y ∷ ys) = elim (Bool-cases (x == y)) [
  | inl same ↦ let e : x ≡ y = ground arith in rw same (rw e (ground arith))
  | inr ne ↦ rw ne (ground (arith, any-add f x ys))
]

any-sorted_set : (f : String → Bool) (xs : List String) → any f (sorted_set xs) ≡ any f xs
unfolding sorted_set
any-sorted_set f [] = refl
any-sorted_set f (x ∷ xs) = any-add f x (sorted_set xs) ∙ rw (any-sorted_set f xs)

runnable-in_catalog :
    (c : Config) (x : String) (ts : List TestItem)
    → contains (map (λ t. t.id) (select (is_runnable c) ts)) x ≡ true
    → contains (map (λ t. t.id) ts) x ≡ true
runnable-in_catalog c x [] h = cc
runnable-in_catalog c x (t ∷ ts) h = ground (arith, runnable-in_catalog c x ts)

abbrev pub is_full : Mode → Bool
is_full full_mode = true
is_full _ = false

is_full-mode_of : (b : Bool) (ids : List String) → is_full (mode_of b ids) ≡ b
is_full-mode_of true ids = refl
is_full-mode_of false [] = refl
is_full-mode_of false (x ∷ xs) = refl

conclude-test_ids :
    (c : Config) (s : Choosing) (id : String)
    → contains (conclude c s).test_ids id
      ≡ (contains (runnable_ids c) id && (s.full || contains s.selected id))
unfolding conclude
conclude-test_ids c s id =
    let chosen = if s.full then catalog_ids c else s.selected in
    contains-sorted_set id (select (contains (runnable_ids c)) chosen)
    ∙ contains-select (contains (runnable_ids c)) id chosen
    ∙ ground (arith, runnable-in_catalog c id c.test_catalog)

conclude-is_full : (c : Config) (s : Choosing) → is_full (conclude c s).mode ≡ s.full
unfolding conclude
conclude-is_full c s = is_full-mode_of s.full _

module _ (glob : String → String → Bool) (c : Config) (paths : List String)
    (diff_complete force_full environment_matches : Bool) (ch : Choice)
    (chosen : select_tests glob c paths diff_complete force_full environment_matches
      ≡ some ch) where
  concluded :
      (all (is_safe_path false) paths ≡ true)
      × (conclude c
            (scan glob c (sorted_set paths) (initial diff_complete force_full environment_matches))
          ≡ ch)
  unfolding select_tests
  concluded =
      let (safe, e) = then_require (all (is_safe_path false) paths) _ chosen in
      (safe, some-injective _ _ e)

  final : Choosing
  final = scan glob c (sorted_set paths) (initial diff_complete force_full environment_matches)

  -- The selection is full exactly when it was forced, the diff was incomplete, the environment
  -- differs, or some changed path matches a full rule or is known to no rule and no test.
  pub select_tests-is_full : is_full ch.mode ≡ (
      force_full || not diff_complete || not environment_matches || any (forces_full glob c) paths)
  unfolding final
  select_tests-is_full = rw (← concluded.1) (
      conclude-is_full c final
      ∙ scan-full glob c (sorted_set paths) (initial diff_complete force_full environment_matches)
      ∙ rw (any-sorted_set (forces_full glob c) paths) (ground arith))

  -- A test is selected exactly when a board can run it, and the selection is full or a changed path
  -- that matches no full rule asks for it: as the test's file, or by a source rule.
  pub select_tests-test_ids :
      (id : String)
      → contains ch.test_ids id ≡ (
          contains (runnable_ids c) id
          && (is_full ch.mode || any (λ p. not (matches glob p c.full) && asks_for c p id) paths))
  unfolding final
  select_tests-test_ids id = rw (← concluded.1) (
      conclude-test_ids c final id
      ∙ rw (conclude-is_full c final) (
          rw
            (scan-selected glob c id (sorted_set paths)
              (initial diff_complete force_full environment_matches))
            (rw (any-sorted_set (λ p. not (matches glob p c.full) && asks_for c p id) paths))))
