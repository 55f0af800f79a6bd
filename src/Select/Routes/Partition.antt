-- ===== src/Select/Routes/Partition.antt =====
-- The groups that `route_tests` of scripts/ci/ppu_ops_select.py makes.
use vllm_sail.Base.{String, Bool, ◌&&◌, ◌||◌, some, ◌≡◌, refl, ap, ◌∙◌, inl, inr}
use vllm_sail.Base.{
  List, [], ◌∷◌, ◌++◌, arith, ◌==◌, string_eq, contains, any, all, select, Bool-cases,
}
use mathlib.Core.Option.{some-injective}
use vllm_sail.Base.Sorting.{contains-sorted_set, contains-select}
use vllm_sail.Base.Failing.{then_require, then_some}
use vllm_sail.Select.Config.{Config, known_boards}
use vllm_sail.Select.Routes.{
  Group, Routes, runs_on, ids_on, group_of, groups_for, is_item, has_route, by_id,
  validate_profiles, route_tests,
}

-- A group of the board has the test.
abbrev pub assigns : String → String → Group → Bool
assigns board id g = g.board == board && contains g.test_ids id

any-append {ℓ} :
    {A : Type ℓ} (p : A → Bool) (xs ys : List A) → any p (xs ++ ys) ≡ (any p xs || any p ys)
any-append p [] ys = refl
any-append p (x ∷ xs) ys = ground (arith, any-append p xs ys)

module _ (c : Config) (board id : String) where
  group_of-assigns :
      (b : String) (ids : List String)
      → any (assigns board id) (group_of c b ids) ≡ (b == board && contains ids id)
  group_of-assigns b [] = ground arith
  group_of-assigns b (i ∷ ids) = ground arith

  ids_on-contains :
      (test_ids : List String) (b : String)
      → contains (ids_on c test_ids b) id ≡ (runs_on c b id && contains test_ids id)
  ids_on-contains test_ids b =
      contains-sorted_set id (select (runs_on c b) test_ids)
      ∙ contains-select (runs_on c b) id test_ids

  groups_for-assigns :
      (test_ids boards : List String)
      → any (assigns board id) (groups_for c test_ids boards)
        ≡ (contains boards board && (contains test_ids id && runs_on c board id))
  unfolding groups_for
  groups_for-assigns test_ids [] = refl
  groups_for-assigns test_ids (b ∷ bs) =
      any-append (assigns board id) (group_of c b (ids_on c test_ids b)) (groups_for c test_ids bs)
      ∙ rw
          (
            group_of-assigns b (ids_on c test_ids b),
            groups_for-assigns test_ids bs,
            ids_on-contains test_ids b,
          )
          (elim (Bool-cases (b == board)) [
            | inl same ↦ let e : b ≡ board = ground arith in rw e (ground arith)
            | inr ne ↦ ground arith
          ])

-- What a routing that returns has checked, and what it holds.
pub route_tests-groups :
    (c : Config) (test_ids : List String) (r : Routes)
    → route_tests c test_ids ≡ some r
    → (validate_profiles c.execution_profiles ≡ some tt)
      × (groups_for c test_ids known_boards ≡ r.groups)
unfolding route_tests
route_tests-groups c test_ids r h =
    let (tt, valid, h1) = then_some (validate_profiles c.execution_profiles) _ h in
    let (_, h2) = then_require (all (λ id. is_item (by_id id c.test_catalog)) test_ids) _ h1 in
    let (_, h3) = then_require (all (λ id. has_route (by_id id c.test_catalog)) test_ids) _ h2 in
    (valid, ap (λ (x : Routes). x.groups) (some-injective _ _ h3))

-- Where `route_tests` returns, its groups assign a test to a board exactly when the board is known,
-- the test is one of those that are routed, and the board can run it.
pub route_tests-assigns :
    (c : Config) (test_ids : List String) (r : Routes)
    → route_tests c test_ids ≡ some r
    → (board id : String)
    → any (assigns board id) r.groups
      ≡ (contains known_boards board && (contains test_ids id && runs_on c board id))
route_tests-assigns c test_ids r h board id =
    rw (← (route_tests-groups c test_ids r h).1)
      (groups_for-assigns c board id test_ids known_boards)
