-- ===== src/Warmup/Announced.antt =====
-- Lemmas on the count of a weight and its warm-up.
use mathlib.Core.Path.{subst}
use mathlib.Core.Option.{some-injective}
use vllm_sail.Base.{
  ℕ, zero, suc, ◌+◌, ◌/◌, ◌≡◌, refl, ap, ◌∙◌, true, ◌&&◌, Option, some, Bool-cases, both_true, inl,
  inr,
}
use vllm_sail.Base.{List, ◌∷◌, length, contains, nat_eq, list_eq}
use vllm_sail.Base.Failing.{then_some}
use vllm_sail.Warmup.Values.{counting}
use vllm_sail.Warmup.Dense.{Process, Warm, Kernel, dense_values, dense_warmup}
use vllm_sail.Warmup.Grouped.{block_values, is_unpacked, warm_weight, experts_warmup}
use vllm_sail.Warmup.Count.{count_dense, add_size, count_pair}
use vllm_sail.Warmup.Single.{
  RunsAlone, After, Done, After-none, After-After, warm_values-After, length-map_lem,
}

length-counting : (first count : ℕ) → length (counting first count) ≡ count
length-counting first zero = refl
length-counting first (suc count) = ap suc (length-counting (suc first) count)

length-block_values : (block_m max_m : ℕ) → length (block_values block_m max_m) ≡ max_m / block_m
length-block_values block_m max_m = rw (length-map_lem, length-counting) refl

module _ (p : Process) (kernel : Kernel) where
  -- A dense weight.
  pub dense_warmup-After :
      (s : List ℕ) (max_tokens : ℕ) (w : Warm) (c : ℕ × List (List ℕ))
      → RunsAlone p w
      → count_dense p max_tokens s (w.cache kernel) ≡ some c
      → Done p kernel (dense_warmup p kernel s max_tokens w) w (c.0) (c.1)
  unfolding dense_warmup count_dense
  dense_warmup-After s max_tokens w c single h = elim (Bool-cases (contains (w.cache kernel) s)) [
    | inl known ↦
        let e : (0, w.cache kernel) ≡ c = some-injective _ c (rw known at h) in
        rw (← e) (w, rw known, After-none p kernel w single)
    | inr new ↦
        let (ms, found, k) = then_some (dense_values p s max_tokens) _ (rw new at h) in
        let e : (length ms, s ∷ w.cache kernel) ≡ c = some-injective _ c k in
        let (v, made, a) = warm_values-After p kernel s ms w single in
        rw (← e) (v, rw new (rw found made), a)
  ]

  -- A weight of experts, behind a warm-up of `total` calls.
  pub warm_weight-After :
      (max_m n total : ℕ) (s : List ℕ) (seen : List (List ℕ)) (u w : Warm)
      → is_unpacked kernel s ≡ true
      → max_m / p.block_m ≡ n
      → After p kernel u w total seen
      → Done p kernel
          (warm_weight p kernel max_m s w)
          u
          ((add_size n s (total, seen)).0)
          ((add_size n s (total, seen)).1)
  unfolding warm_weight add_size
  warm_weight-After max_m n total s seen u w fits same a = elim (Bool-cases (contains seen s)) [
    | inl known ↦ (w, rw a.remembered (rw known), rw known a)
    | inr new ↦
        let (v, made, b) = warm_values-After p kernel s (block_values p.block_m max_m) w a.single in
        let c : After p kernel u v (total + n) (s ∷ w.cache kernel) =
          subst (λ j. After p kernel u v (total + j) (s ∷ w.cache kernel))
            (length-block_values p.block_m max_m ∙ same)
            (After-After p kernel u w v total _ seen _ a b) in
        (
          v,
          rw a.remembered (rw new (rw fits made)),
          rw new (subst (λ more. After p kernel u v (total + n) (s ∷ more)) a.remembered c),
        )
  ]

  -- A layer of experts, where the largest number of tokens fits the number of calls.
  pub experts_warmup-After :
      (limit n : Option ℕ) (w13 w2 : List ℕ) (w : Warm) (c : ℕ × List (List ℕ))
      → RunsAlone p w
      → (is_unpacked kernel w13 && is_unpacked kernel w2) ≡ true
      → ((k : ℕ) → n ≡ some k → (max_m : ℕ) × (limit ≡ some max_m) × (max_m / p.block_m ≡ k))
      → count_pair n w13 w2 (w.cache kernel) ≡ some c
      → Done p kernel (experts_warmup p kernel limit w13 w2 w) w (c.0) (c.1)
  unfolding experts_warmup count_pair
  experts_warmup-After limit n w13 w2 w c single fit limits h =
      elim (Bool-cases (contains (w.cache kernel) w13 && contains (w.cache kernel) w2)) [
        | inl known ↦
            let e : (0, w.cache kernel) ≡ c = some-injective _ c (rw known at h) in
            rw (← e) (w, rw known, After-none p kernel w single)
        | inr new ↦
            let (k, counted, rest) = then_some n _ (rw new at h) in
            let (max_m, limited, same) = limits k counted in
            let (fit13, fit2) = both_true (is_unpacked kernel w13) _ fit in
            let one = add_size k w13 (0, w.cache kernel) in
            let (v, made, a) =
              warm_weight-After max_m k 0 w13 (w.cache kernel) w w fit13 same
                (After-none p kernel w single) in
            let (u, made_too, b) = warm_weight-After max_m k (one.0) w2 (one.1) w v fit2 same a in
            rw (← some-injective _ c rest) (u, rw new (rw limited (rw made made_too)), b)
      ]
