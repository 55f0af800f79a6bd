-- ===== src/Warmup/Model.antt =====
-- The warm-up of a model, vllm_sail/model_executor/warmup/deep_gemm_warmup.py: the loops over its
-- modules, and `deep_gemm_warmup`. The progress bar, which only the first rank has, is left out.
use vllm_sail.Base.{ℕ, ◌+◌, Bool, true, false, ◌&&◌, Option, none, some}
use vllm_sail.Base.{List, [], ◌∷◌, ◌==◌, nat_eq, if◌then◌else◌}
use vllm_sail.Base.Failing.{◌>>=◌}
use vllm_sail.Warmup.Layers.{Layer, Settings, MoeWeights}
use vllm_sail.Warmup.Eligible.{
  fp8_linear, int8_linear, bf16_linear, fp8_experts, int8_experts, bf16_experts, fp4_experts,
  fp4_masked_experts, w4a16_experts,
}
use vllm_sail.Warmup.Dense.{
  Process, Warm, fp8_gemm_nt_warmup, int8_gemm_nt_warmup, bf16_gemm_nt_warmup,
}
use vllm_sail.Warmup.Grouped.{
  grouped_fp8_warmup, grouped_int8_warmup, grouped_bf16_warmup, grouped_fp4_warmup,
  grouped_w4a16_warmup, masked_fp4_warmup, masked_w4a16_warmup,
}
use vllm_sail.Warmup.Count.{
  count_warmup_iterations, count_warmup_iterations_int8, count_warmup_iterations_bf16,
  count_warmup_iterations_fp4, count_warmup_iterations_fp4_masked, count_warmup_iterations_w4a16,
  count_warmup_iterations_w4a16_masked,
}

-- `[m for m in model.modules() if may_use(m)]`, with what is read of each module.
unfoldable pub collect {ℓ} :
    {A : Type ℓ} → (Layer → Option (Option A)) → List Layer → Option (List A)
collect pick [] = some []
collect pick (l ∷ ls) = pick l >>= λ o.
    collect pick ls >>= λ rest. elim o [ none ↦ some rest | some a ↦ some (a ∷ rest) ]

-- A loop over what was collected.
unfoldable pub each {ℓ} : {A : Type ℓ} → (A → Warm → Option Warm) → List A → Warm → Option Warm
each f [] w = some w
each f (a ∷ rest) w = f a w >>= each f rest

-- A warm-up of experts, of their weights.
abbrev pub of_weights :
    (List ℕ → List ℕ → ℕ → ℕ → Warm → Option Warm) → ℕ → MoeWeights → Warm → Option Warm
of_weights f max_tokens m = f m.w13.size m.w2.size m.num_topk max_tokens

-- How many calls each kind of kernel is announced with.
pub record Totals : Type 0 where
  pub total : ℕ
  pub total_int8 : ℕ
  pub total_bf16 : ℕ
  pub total_fp4 : ℕ
  pub total_w4a16 : ℕ

-- The compile mode afterwards, and the module's state, or an exception.
pub record Outcome : Type 0 where
  pub compile_mode : ℕ
  pub warm : Option Warm

-- `if total:`
unfoldable pub if_any : ℕ → (Warm → Option Warm) → Warm → Option Warm
unfolding nat_eq
if_any n f w = if n == 0 then some w else f w

module _ (e : Settings) (p : Process) (max_tokens : ℕ) (layers : List Layer) where
  -- `deepgemm_fp8_gemm_nt_warmup`
  unfoldable pub deepgemm_fp8_gemm_nt_warmup : Warm → Option Warm
  unfolding collect each fp8_linear fp8_gemm_nt_warmup
  deepgemm_fp8_gemm_nt_warmup w =
      collect (fp8_linear e) layers >>= λ ds. each (λ s. fp8_gemm_nt_warmup p s max_tokens) ds w

  -- `deepgemm_int8_gemm_nt_warmup`
  unfoldable pub deepgemm_int8_gemm_nt_warmup : Warm → Option Warm
  unfolding collect each int8_linear int8_gemm_nt_warmup
  deepgemm_int8_gemm_nt_warmup w =
      collect (int8_linear e) layers >>= λ ds. each (λ s. int8_gemm_nt_warmup p s max_tokens) ds w

  -- `deepgemm_bf16_gemm_nt_warmup`
  unfoldable pub deepgemm_bf16_gemm_nt_warmup : Warm → Option Warm
  unfolding collect each bf16_linear bf16_gemm_nt_warmup
  deepgemm_bf16_gemm_nt_warmup w =
      collect (bf16_linear e) layers >>= λ ds. each (λ s. bf16_gemm_nt_warmup p s max_tokens) ds w

  -- `deepgemm_grouped_fp8_gemm_nt_contiguous_warmup`
  unfoldable pub deepgemm_grouped_fp8_warmup : Warm → Option Warm
  unfolding collect each fp8_experts grouped_fp8_warmup
  deepgemm_grouped_fp8_warmup w = collect (fp8_experts e) layers >>= λ es.
      each (of_weights (grouped_fp8_warmup p) max_tokens) es w

  -- `deepgemm_grouped_int8_gemm_nt_contiguous_warmup`
  unfoldable pub deepgemm_grouped_int8_warmup : Warm → Option Warm
  unfolding collect each int8_experts grouped_int8_warmup
  deepgemm_grouped_int8_warmup w = collect (int8_experts e) layers >>= λ es.
      each (of_weights (grouped_int8_warmup p) max_tokens) es w

  -- `deepgemm_grouped_bf16_gemm_nt_contiguous_warmup`
  unfoldable pub deepgemm_grouped_bf16_warmup : Warm → Option Warm
  unfolding collect each bf16_experts grouped_bf16_warmup
  deepgemm_grouped_bf16_warmup w = collect (bf16_experts e) layers >>= λ es.
      each (of_weights (grouped_bf16_warmup p) max_tokens) es w

  -- `deepgemm_grouped_fp4_gemm_nt_contiguous_warmup`
  unfoldable pub deepgemm_grouped_fp4_warmup : Warm → Option Warm
  unfolding collect each fp4_experts grouped_fp4_warmup
  deepgemm_grouped_fp4_warmup w = collect (fp4_experts e) layers >>= λ es.
      each (of_weights (grouped_fp4_warmup p) max_tokens) es w

  -- `deepgemm_grouped_fp4_gemm_nt_masked_warmup`
  unfoldable pub deepgemm_masked_fp4_warmup : Warm → Option Warm
  unfolding collect each fp4_masked_experts masked_fp4_warmup
  deepgemm_masked_fp4_warmup w = collect (fp4_masked_experts e) layers >>= λ es.
      each (of_weights (masked_fp4_warmup p) max_tokens) es w

  -- `deepgemm_grouped_w4a16_gemm_nt_contiguous_warmup`
  unfoldable pub deepgemm_grouped_w4a16_warmup : Warm → Option Warm
  unfolding collect each w4a16_experts grouped_w4a16_warmup
  deepgemm_grouped_w4a16_warmup w = collect (w4a16_experts e false) layers >>= λ es.
      each (of_weights (grouped_w4a16_warmup p) max_tokens) es w

  -- `deepgemm_grouped_w4a16_gemm_nt_masked_warmup`
  unfoldable pub deepgemm_masked_w4a16_warmup : Warm → Option Warm
  unfolding collect each w4a16_experts masked_w4a16_warmup
  deepgemm_masked_w4a16_warmup w = collect (w4a16_experts e true) layers >>= λ es.
      each (of_weights (masked_w4a16_warmup p) max_tokens) es w

  -- The counts that `deep_gemm_warmup` begins with.
  unfoldable pub count_totals : Warm → Option Totals
  unfolding count_warmup_iterations count_warmup_iterations_int8 count_warmup_iterations_bf16
      count_warmup_iterations_fp4 count_warmup_iterations_fp4_masked count_warmup_iterations_w4a16
      count_warmup_iterations_w4a16_masked
  count_totals w = do
    total ← count_warmup_iterations e p max_tokens layers w
    total_int8 ← count_warmup_iterations_int8 e p max_tokens layers w
    total_bf16 ← count_warmup_iterations_bf16 e p max_tokens layers w
    fp4 ← count_warmup_iterations_fp4 e p max_tokens layers w
    fp4_masked ← count_warmup_iterations_fp4_masked e p max_tokens layers w
    w4a16 ← count_warmup_iterations_w4a16 e p max_tokens layers w
    w4a16_masked ← count_warmup_iterations_w4a16_masked e p max_tokens layers w
    some (record {
      total = total;
      total_int8 = total_int8;
      total_bf16 = total_bf16;
      total_fp4 = fp4 + fp4_masked;
      total_w4a16 = w4a16 + w4a16_masked;
    })

  abbrev pub nothing_to_do : Totals → Bool
  unfolding nat_eq
  nothing_to_do t =
      t.total == 0
      && t.total_int8 == 0
      && t.total_bf16 == 0
      && t.total_fp4 == 0
      && t.total_w4a16 == 0

  -- The warm-ups, each kind where it was announced.
  unfoldable pub warm_all : Totals → Warm → Option Warm
  unfolding if_any deepgemm_fp8_gemm_nt_warmup deepgemm_int8_gemm_nt_warmup
      deepgemm_bf16_gemm_nt_warmup deepgemm_grouped_fp8_warmup deepgemm_grouped_int8_warmup
      deepgemm_grouped_bf16_warmup deepgemm_grouped_fp4_warmup deepgemm_masked_fp4_warmup
      deepgemm_grouped_w4a16_warmup deepgemm_masked_w4a16_warmup
  warm_all t w = do
    w1 ← if_any t.total (λ v. deepgemm_fp8_gemm_nt_warmup v >>= deepgemm_grouped_fp8_warmup) w
    w2 ←
        if_any t.total_int8 (λ v. deepgemm_int8_gemm_nt_warmup v >>= deepgemm_grouped_int8_warmup)
          w1
    w3 ←
        if_any t.total_bf16 (λ v. deepgemm_bf16_gemm_nt_warmup v >>= deepgemm_grouped_bf16_warmup)
          w2
    w4 ← if_any t.total_fp4 (λ v. deepgemm_grouped_fp4_warmup v >>= deepgemm_masked_fp4_warmup) w3
    if_any t.total_w4a16 (λ v. deepgemm_grouped_w4a16_warmup v >>= deepgemm_masked_w4a16_warmup) w4

  -- `set_compile_mode(old_compile_mode)`, where no warm-up raised.
  abbrev pub restored : ℕ → Option Warm → Outcome
  restored mode none = record { compile_mode = 1; warm = none }
  restored mode (some v) = record { compile_mode = mode; warm = some v }

  abbrev pub after_counting : ℕ → Warm → Option Totals → Outcome
  unfolding warm_all
  after_counting mode w none = record { compile_mode = mode; warm = none }
  after_counting mode w (some t) =
      if nothing_to_do t
      then record { compile_mode = mode; warm = some w }
      else restored mode (warm_all t w)

  -- `deep_gemm_warmup`, for the compile mode of before.
  unfoldable pub deep_gemm_warmup : ℕ → Warm → Outcome
  unfolding count_totals warm_all
  deep_gemm_warmup mode w = after_counting mode w (count_totals w)
