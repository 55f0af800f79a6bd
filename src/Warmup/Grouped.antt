-- ===== src/Warmup/Grouped.antt =====
-- The warm-up of the weights of experts, vllm_sail/model_executor/warmup/deep_gemm_warmup.py. What is
-- left out is what Warmup/Dense leaves out, and the configuration that is passed to the INT8 kernel.
use Prim.Native.Nat.{max}
use vllm_sail.Base.{ℕ, ◌+◌, ◌*◌, ◌/◌, ◌-◌, Bool, ◌&&◌, Option, none, some}
use vllm_sail.Base.{
  List, [], ◌∷◌, map, ◌==◌, contains, nat_eq, list_eq, option_eq, length, leb, ltb, if◌then◌else◌,
}
use vllm_sail.Base.Failing.{◌>>=◌, ◌>>◌, require}
use vllm_sail.Warmup.Values.{counting}
use vllm_sail.Warmup.Dense.{
  Kernel, grouped_fp8, grouped_int8, grouped_bf16, grouped_fp4, masked_fp4, grouped_w4a16,
  masked_w4a16, Process, Warm, warm_values,
}

-- `w.size(0)`
abbrev pub first : List ℕ → Option ℕ
first [] = none
first (x ∷ xs) = some x

-- `_get_grouped_gemm_params`: `MAX_M`. To divide by a block size of 0 raises.
unfoldable pub get_grouped_gemm_params : Process → List ℕ → List ℕ → ℕ → ℕ → Option ℕ
unfolding nat_eq
get_grouped_gemm_params p w1 w2 num_topk max_tokens = do
  num_experts ← first w1
  others ← first w2
  require (num_experts == others)
  require (ltb 0 p.block_m)
  some (p.compute_aligned_m (p.dp_world_size * max_tokens) num_topk num_experts p.block_m)

-- `math.ceil(a / b)`, on integers that a float holds.
abbrev pub ceil_div : ℕ → ℕ → ℕ
ceil_div a b = (a + b - 1) / b

-- The number of tokens for an expert in the masked layout, before and after it is rounded up.
abbrev pub tokens_per_expert : Process → ℕ → ℕ → ℕ → ℕ
tokens_per_expert p num_experts num_topk max_tokens =
    max 1 ((p.dp_world_size * max_tokens * num_topk + num_experts - 1) / num_experts)

-- `max_tokens_per_expert`. To divide by 0 raises.
unfoldable pub max_tokens_per_expert : Process → List ℕ → ℕ → ℕ → Option ℕ
max_tokens_per_expert p w1 num_topk max_tokens = do
  num_experts ← first w1
  require (ltb 0 num_experts)
  require (ltb 0 p.block_m)
  some (
      max (ceil_div (tokens_per_expert p num_experts num_topk max_tokens) p.block_m * p.block_m)
        p.block_m)

-- `range(block_m, max_m + 1, block_m)`
abbrev pub block_values : ℕ → ℕ → List ℕ
block_values block_m max_m = map (λ i. i * block_m) (counting 1 (max_m / block_m))

-- The sizes that `w.size()` is unpacked into, or that `w.size(2)` exists for.
abbrev pub is_unpacked : Kernel → List ℕ → Bool
is_unpacked grouped_w4a16 s = leb 3 (length s)
is_unpacked masked_w4a16 s = leb 3 (length s)
is_unpacked _ s = length s == 3

-- One round of the loop over the two weights.
unfoldable pub warm_weight : Process → Kernel → ℕ → List ℕ → Warm → Option Warm
unfolding warm_values list_eq nat_eq
warm_weight p kernel max_m s w =
    if contains (w.cache kernel) s
    then some w
    else require (is_unpacked kernel s) >> warm_values p kernel s (block_values p.block_m max_m) w

-- The shape of the functions for experts: both weights, or nothing where both are remembered.
-- `limit` is the largest number of tokens.
unfoldable pub experts_warmup : Process → Kernel → Option ℕ → List ℕ → List ℕ → Warm → Option Warm
unfolding warm_weight
experts_warmup p kernel limit w1 w2 w =
    if contains (w.cache kernel) w1 && contains (w.cache kernel) w2
    then some w
    else (do max_m ← limit; v ← warm_weight p kernel max_m w1 w; warm_weight p kernel max_m w2 v)

-- The warm-ups in the contiguous layout.
unfoldable pub contiguous_warmup : Process → Kernel → List ℕ → List ℕ → ℕ → ℕ → Warm → Option Warm
unfolding experts_warmup get_grouped_gemm_params
contiguous_warmup p kernel w1 w2 num_topk max_tokens =
    experts_warmup p kernel (get_grouped_gemm_params p w1 w2 num_topk max_tokens) w1 w2

-- The warm-ups in the masked layout.
unfoldable pub masked_warmup : Process → Kernel → List ℕ → List ℕ → ℕ → ℕ → Warm → Option Warm
unfolding experts_warmup max_tokens_per_expert
masked_warmup p kernel w1 w2 num_topk max_tokens =
    experts_warmup p kernel (max_tokens_per_expert p w1 num_topk max_tokens) w1 w2

-- `_deepgemm_grouped_fp8_gemm_nt_contiguous_warmup`
unfoldable pub grouped_fp8_warmup : Process → List ℕ → List ℕ → ℕ → ℕ → Warm → Option Warm
unfolding contiguous_warmup
grouped_fp8_warmup p = contiguous_warmup p grouped_fp8

-- `_deepgemm_grouped_int8_gemm_nt_contiguous_warmup`
unfoldable pub grouped_int8_warmup : Process → List ℕ → List ℕ → ℕ → ℕ → Warm → Option Warm
unfolding contiguous_warmup
grouped_int8_warmup p = contiguous_warmup p grouped_int8

-- `_deepgemm_grouped_bf16_gemm_nt_contiguous_warmup`
unfoldable pub grouped_bf16_warmup : Process → List ℕ → List ℕ → ℕ → ℕ → Warm → Option Warm
unfolding contiguous_warmup
grouped_bf16_warmup p = contiguous_warmup p grouped_bf16

-- `_deepgemm_grouped_fp4_gemm_nt_contiguous_warmup`
unfoldable pub grouped_fp4_warmup : Process → List ℕ → List ℕ → ℕ → ℕ → Warm → Option Warm
unfolding contiguous_warmup
grouped_fp4_warmup p = contiguous_warmup p grouped_fp4

-- `_deepgemm_grouped_w4a16_gemm_nt_contiguous_warmup`
unfoldable pub grouped_w4a16_warmup : Process → List ℕ → List ℕ → ℕ → ℕ → Warm → Option Warm
unfolding contiguous_warmup
grouped_w4a16_warmup p = contiguous_warmup p grouped_w4a16

-- `_deepgemm_grouped_fp4_gemm_nt_masked_warmup`
unfoldable pub masked_fp4_warmup : Process → List ℕ → List ℕ → ℕ → ℕ → Warm → Option Warm
unfolding masked_warmup
masked_fp4_warmup p = masked_warmup p masked_fp4

-- `_deepgemm_grouped_w4a16_gemm_nt_masked_warmup`
unfoldable pub masked_w4a16_warmup : Process → List ℕ → List ℕ → ℕ → ℕ → Warm → Option Warm
unfolding masked_warmup
masked_w4a16_warmup p = masked_warmup p masked_w4a16
