-- ===== src/Warmup/Count.antt =====
-- How many kernel calls vllm_sail/model_executor/warmup/deep_gemm_warmup.py announces, its
-- `_count_warmup_iterations` functions. `seen` is the copy that they take of a cache.
use vllm_sail.Base.{ℕ, ◌+◌, ◌*◌, ◌/◌, ◌-◌, true, false, ◌&&◌, Option, none, some}
use vllm_sail.Base.{List, [], ◌∷◌, contains, nat_eq, list_eq, length, leb, ltb, if◌then◌else◌}
use vllm_sail.Base.Failing.{◌>>=◌, ◌>>◌, require}
use vllm_sail.Warmup.Layers.{Layer, Settings, MoeWeights}
use vllm_sail.Warmup.Eligible.{
  fp8_linear, int8_linear, bf16_linear, fp8_experts, int8_experts, bf16_experts, fp4_experts,
  fp4_masked_experts, w4a16_experts,
}
use vllm_sail.Warmup.Dense.{
  fp8, int8, bf16, grouped_fp8, grouped_int8, grouped_bf16, grouped_fp4, masked_fp4, grouped_w4a16,
  masked_w4a16, Process, Warm, dense_values,
}
use vllm_sail.Warmup.Grouped.{first, get_grouped_gemm_params, ceil_div, tokens_per_expert}

-- A dense weight.
unfoldable pub count_dense : Process → ℕ → List ℕ → List (List ℕ) → Option (ℕ × List (List ℕ))
unfolding dense_values list_eq nat_eq
count_dense p max_tokens s seen =
    if contains seen s
    then some (0, seen)
    else dense_values p s max_tokens >>= λ ms. some (length ms, s ∷ seen)

-- `if size not in seen: total += n; seen.add(size)`
unfoldable pub add_size : ℕ → List ℕ → ℕ × List (List ℕ) → ℕ × List (List ℕ)
unfolding list_eq nat_eq
add_size n s (total, seen) = if contains seen s then (total, seen) else (total + n, s ∷ seen)

-- The two weights of a layer of experts, where `n` calls are made for each.
unfoldable pub count_pair : Option ℕ → List ℕ → List ℕ → List (List ℕ) → Option (ℕ × List (List ℕ))
unfolding add_size list_eq nat_eq
count_pair n w13 w2 seen =
    if contains seen w13 && contains seen w2
    then some (0, seen)
    else n >>= λ k. some (add_size k w2 (add_size k w13 (0, seen)))

-- `(MAX_M - block_m) // block_m + 1`. Where `MAX_M` is below `block_m`, the floor is -1.
abbrev pub contiguous_values : ℕ → ℕ → ℕ
contiguous_values block_m max_m = if leb block_m max_m then (max_m - block_m) / block_m + 1 else 0

-- The number of calls for a weight, in the contiguous layout.
unfoldable pub contiguous_count : Process → ℕ → MoeWeights → Option ℕ
unfolding get_grouped_gemm_params
contiguous_count p max_tokens m =
    get_grouped_gemm_params p m.w13.size m.w2.size m.num_topk max_tokens >>= λ max_m.
    some (contiguous_values p.block_m max_m)

-- The number of calls for a weight, in the masked layout.
unfoldable pub masked_count : Process → ℕ → MoeWeights → Option ℕ
unfolding get_grouped_gemm_params
masked_count p max_tokens m = do
  _ ← get_grouped_gemm_params p m.w13.size m.w2.size m.num_topk max_tokens
  num_experts ← first m.w13.size
  require (ltb 0 num_experts)
  some (
      ceil_div (tokens_per_expert p num_experts m.num_topk max_tokens) p.block_m
      * p.block_m
      / p.block_m)

-- The loop over the modules. A module is taken as a dense weight, or else as experts, or not at all.
unfoldable pub count_layers :
    Process
    → ℕ
    → (Layer → Option (Option (List ℕ)))
    → (Layer → Option (Option MoeWeights))
    → (MoeWeights → Option ℕ)
    → List Layer
    → List (List ℕ)
    → List (List ℕ)
    → Option ℕ
unfolding count_dense count_pair
count_layers p max_tokens dense experts values [] seen_dense seen_experts = some 0
count_layers p max_tokens dense experts values (l ∷ ls) seen_dense seen_experts = dense l >>= λ d.
    elim d [
      | some s ↦ count_dense p max_tokens s seen_dense >>= λ c.
          count_layers p max_tokens dense experts values ls (c.1) seen_experts >>= λ n.
          some (c.0 + n)
      | none ↦ experts l >>= λ g. elim g [
        | some m ↦ count_pair (values m) m.w13.size m.w2.size seen_experts >>= λ c.
            count_layers p max_tokens dense experts values ls seen_dense (c.1) >>= λ n.
            some (c.0 + n)
        | none ↦ count_layers p max_tokens dense experts values ls seen_dense seen_experts
      ]
    ]

-- Where no dense weights are counted.
abbrev pub no_dense : Layer → Option (Option (List ℕ))
no_dense l = some none

module _ (e : Settings) (p : Process) (max_tokens : ℕ) (layers : List Layer) (w : Warm) where
  -- `_count_warmup_iterations`
  unfoldable pub count_warmup_iterations : Option ℕ
  unfolding count_layers fp8_linear fp8_experts contiguous_count
  count_warmup_iterations =
      count_layers p max_tokens (fp8_linear e) (fp8_experts e) (contiguous_count p max_tokens)
        layers (w.cache fp8) (w.cache grouped_fp8)

  -- `_count_warmup_iterations_int8`
  unfoldable pub count_warmup_iterations_int8 : Option ℕ
  unfolding count_layers int8_linear int8_experts contiguous_count
  count_warmup_iterations_int8 =
      count_layers p max_tokens (int8_linear e) (int8_experts e) (contiguous_count p max_tokens)
        layers (w.cache int8) (w.cache grouped_int8)

  -- `_count_warmup_iterations_bf16`
  unfoldable pub count_warmup_iterations_bf16 : Option ℕ
  unfolding count_layers bf16_linear bf16_experts contiguous_count
  count_warmup_iterations_bf16 =
      count_layers p max_tokens (bf16_linear e) (bf16_experts e) (contiguous_count p max_tokens)
        layers (w.cache bf16) (w.cache grouped_bf16)

  -- `_count_warmup_iterations_fp4`
  unfoldable pub count_warmup_iterations_fp4 : Option ℕ
  unfolding count_layers fp4_experts contiguous_count
  count_warmup_iterations_fp4 =
      count_layers p max_tokens no_dense (fp4_experts e) (contiguous_count p max_tokens) layers []
        (w.cache grouped_fp4)

  -- `_count_warmup_iterations_fp4_masked`
  unfoldable pub count_warmup_iterations_fp4_masked : Option ℕ
  unfolding count_layers fp4_masked_experts masked_count
  count_warmup_iterations_fp4_masked =
      count_layers p max_tokens no_dense (fp4_masked_experts e) (masked_count p max_tokens) layers
        [] (w.cache masked_fp4)

  -- `_count_warmup_iterations_w4a16`
  unfoldable pub count_warmup_iterations_w4a16 : Option ℕ
  unfolding count_layers w4a16_experts contiguous_count
  count_warmup_iterations_w4a16 =
      count_layers p max_tokens no_dense (w4a16_experts e false) (contiguous_count p max_tokens)
        layers [] (w.cache grouped_w4a16)

  -- `_count_warmup_iterations_w4a16_masked`
  unfoldable pub count_warmup_iterations_w4a16_masked : Option ℕ
  unfolding count_layers w4a16_experts masked_count
  count_warmup_iterations_w4a16_masked =
      count_layers p max_tokens no_dense (w4a16_experts e true) (masked_count p max_tokens) layers
        [] (w.cache masked_w4a16)
