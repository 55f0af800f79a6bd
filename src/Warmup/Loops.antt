-- ===== src/Warmup/Loops.antt =====
-- Lemmas on the loops over weights, and on a count over the modules as a sum.
use mathlib.Core.Option.{some-injective}
use vllm_sail.Base.{
  ℕ, ◌+◌, ◌≡◌, refl, sym, ap, ◌∙◌, true, Bool, ◌&&◌, Option, some, none, Option-cases, both_true,
  inl, inr,
}
use vllm_sail.Base.{List, [], ◌∷◌, arith, all}
use vllm_sail.Base.Failing.{then_some, ◌>>=◌}
use vllm_sail.Warmup.Layers.{Layer, MoeWeights}
use vllm_sail.Warmup.Dense.{Process, Warm, Kernel}
use vllm_sail.Warmup.Grouped.{is_unpacked}
use vllm_sail.Warmup.Count.{count_dense, count_pair, count_layers}
use vllm_sail.Warmup.Model.{collect, each}
use vllm_sail.Warmup.Single.{RunsAlone, Done, After-none, After-After}

-- A count over weights.
unfoldable pub count_each {ℓ} :
    {A : Type ℓ}
    → (A → List (List ℕ) → Option (ℕ × List (List ℕ)))
    → List A
    → List (List ℕ)
    → Option (ℕ × List (List ℕ))
count_each count [] seen = some (0, seen)
count_each count (a ∷ rest) seen =
    count a seen >>= λ c. count_each count rest (c.1) >>= λ r. some (c.0 + r.0, r.1)

pub each-After {ℓ} :
    {A : Type ℓ} (p : Process) (kernel : Kernel) (good : A → Bool)
    (count : A → List (List ℕ) → Option (ℕ × List (List ℕ))) (f : A → Warm → Option Warm)
    → ((a : A) (w : Warm) (c : ℕ × List (List ℕ))
        → good a ≡ true
        → RunsAlone p w
        → count a (w.cache kernel) ≡ some c
        → Done p kernel (f a w) w (c.0) (c.1))
    → (xs : List A) (w : Warm) (c : ℕ × List (List ℕ)) → all good xs ≡ true
    → RunsAlone p w
    → count_each count xs (w.cache kernel) ≡ some c
    → Done p kernel (each f xs w) w (c.0) (c.1)
unfolding each count_each
each-After p kernel good count f one [] w c fine single h =
    rw (← some-injective _ c h) (w, refl, After-none p kernel w single)
each-After p kernel good count f one (x ∷ xs) w c fine single h =
    let (fine_x, fine_xs) = both_true (good x) _ fine in
    let (d, counted, rest) = then_some (count x (w.cache kernel)) _ h in
    let (r, counted_rest, total) = then_some (count_each count xs (d.1)) _ rest in
    let (v, made, a) = one x w d fine_x single counted in
    let (u, made_rest, b) =
      each-After p kernel good count f one xs v r fine_xs a.single (rw a.remembered counted_rest) in
    rw (← some-injective _ c total) (u, rw made made_rest, After-After p kernel w v u _ _ _ _ a b)

-- The count of a layer of experts.
abbrev pub count_experts :
    (MoeWeights → Option ℕ) → MoeWeights → List (List ℕ) → Option (ℕ × List (List ℕ))
count_experts values m = count_pair (values m) m.w13.size m.w2.size

abbrev pub weights_fit : Kernel → MoeWeights → Bool
weights_fit kernel m = is_unpacked kernel m.w13.size && is_unpacked kernel m.w2.size

module _ (p : Process) (max_tokens : ℕ) (dense : Layer → Option (Option (List ℕ)))
    (experts : Layer → Option (Option MoeWeights)) (values : MoeWeights → Option ℕ) where
  -- What a count over the modules is made of.
  pub record Split (ls : List Layer) (seen_dense seen_experts : List (List ℕ)) (n : ℕ)
      : Type 0 where
    pub sizes : List (List ℕ)
    pub weights : List MoeWeights
    pub dense_count : ℕ × List (List ℕ)
    pub experts_count : ℕ × List (List ℕ)
    pub collected_sizes : collect dense ls ≡ some sizes
    pub collected_weights : collect experts ls ≡ some weights
    pub counted_dense : count_each (count_dense p max_tokens) sizes seen_dense ≡ some dense_count
    pub counted_experts :
        count_each (count_experts values) weights seen_experts ≡ some experts_count
    pub sum : n ≡ dense_count.0 + experts_count.0

  Split-none :
      (l : Layer) (ls : List Layer) (seen_dense seen_experts : List (List ℕ)) (n : ℕ)
      → dense l ≡ some none
      → experts l ≡ some none
      → Split ls seen_dense seen_experts n
      → Split (l ∷ ls) seen_dense seen_experts n
  unfolding collect
  Split-none l ls seen_dense seen_experts n no_size no_weights r = record {
    sizes = r.sizes;
    weights = r.weights;
    dense_count = r.dense_count;
    experts_count = r.experts_count;
    collected_sizes = rw (no_size, r.collected_sizes);
    collected_weights = rw (no_weights, r.collected_weights);
    counted_dense = r.counted_dense;
    counted_experts = r.counted_experts;
    sum = r.sum;
  }

  Split-dense :
      (l : Layer) (ls : List Layer) (seen_dense seen_experts : List (List ℕ)) (n : ℕ) (s : List ℕ)
      (c : ℕ × List (List ℕ))
      → dense l ≡ some (some s)
      → experts l ≡ some none
      → count_dense p max_tokens s seen_dense ≡ some c
      → Split ls (c.1) seen_experts n
      → Split (l ∷ ls) seen_dense seen_experts (c.0 + n)
  unfolding collect count_each
  Split-dense l ls seen_dense seen_experts n s c size no_weights counted r = record {
    sizes = s ∷ r.sizes;
    weights = r.weights;
    dense_count = (c.0 + r.dense_count.0, r.dense_count.1);
    experts_count = r.experts_count;
    collected_sizes = rw (size, r.collected_sizes);
    collected_weights = rw (no_weights, r.collected_weights);
    counted_dense = rw (counted, r.counted_dense);
    counted_experts = r.counted_experts;
    sum = omega (arith, r.sum);
  }

  Split-experts :
      (l : Layer) (ls : List Layer) (seen_dense seen_experts : List (List ℕ)) (n : ℕ)
      (m : MoeWeights) (c : ℕ × List (List ℕ))
      → dense l ≡ some none
      → experts l ≡ some (some m)
      → count_experts values m seen_experts ≡ some c
      → Split ls seen_dense (c.1) n
      → Split (l ∷ ls) seen_dense seen_experts (c.0 + n)
  unfolding collect count_each
  Split-experts l ls seen_dense seen_experts n m c no_size weight counted r = record {
    sizes = r.sizes;
    weights = m ∷ r.weights;
    dense_count = r.dense_count;
    experts_count = (c.0 + r.experts_count.0, r.experts_count.1);
    collected_sizes = rw (no_size, r.collected_sizes);
    collected_weights = rw (weight, r.collected_weights);
    counted_dense = r.counted_dense;
    counted_experts = rw (counted, r.counted_experts);
    sum = omega (arith, r.sum);
  }

  -- No module is both a dense weight and a layer of experts.
  pub count_layers-Split :
      ((l : Layer) (s : List ℕ) → dense l ≡ some (some s) → experts l ≡ some none)
      → (ls : List Layer) (seen_dense seen_experts : List (List ℕ)) (n : ℕ)
      → count_layers p max_tokens dense experts values ls seen_dense seen_experts ≡ some n
      → Split ls seen_dense seen_experts n
  unfolding count_layers count_each collect
  count_layers-Split apart [] seen_dense seen_experts n h = record {
    sizes = [];
    weights = [];
    dense_count = (0, seen_dense);
    experts_count = (0, seen_experts);
    collected_sizes = refl;
    collected_weights = refl;
    counted_dense = refl;
    counted_experts = refl;
    sum = sym (some-injective 0 n h);
  }
  count_layers-Split apart (l ∷ ls) seen_dense seen_experts n h =
      let (d, took, k) = then_some (dense l) _ h in
      elim (Option-cases d) [
        | inr (s, e) ↦
            let taken : dense l ≡ some (some s) = took ∙ ap some e in
            let (c, counted, rest) =
              then_some (count_dense p max_tokens s seen_dense) _ (rw e at k) in
            let (r, counted_rest, total) =
              then_some (count_layers p max_tokens dense experts values ls (c.1) seen_experts) _
                rest in
            rw (← some-injective (c.0 + r) n total) (
              Split-dense l ls seen_dense seen_experts r s c taken (apart l s taken) counted
                (count_layers-Split apart ls _ _ r counted_rest))
        | inl e ↦
            let (g, had, j) = then_some (experts l) _ (rw e at k) in
            elim (Option-cases g) [
              | inr (m, f) ↦
                  let (c, counted, rest) =
                    then_some (count_experts values m seen_experts) _ (rw f at j) in
                  let (r, counted_rest, total) =
                    then_some (count_layers p max_tokens dense experts values ls seen_dense (c.1)) _
                      rest in
                  rw (← some-injective (c.0 + r) n total) (
                    Split-experts l ls seen_dense seen_experts r m c (took ∙ ap some e)
                      (had ∙ ap some f) counted (count_layers-Split apart ls _ _ r counted_rest))
              | inl f ↦
                  Split-none l ls seen_dense seen_experts n (took ∙ ap some e) (had ∙ ap some f)
                    (count_layers-Split apart ls _ _ n (rw f at j))
            ]
      ]
