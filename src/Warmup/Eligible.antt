-- ===== src/Warmup/Eligible.antt =====
-- Which layers each warm-up of vllm_sail/model_executor/warmup/deep_gemm_warmup.py takes. `none` stands
-- for an exception.
use vllm_sail.Base.{ℕ, ◌%◌, Bool, true, false, not, ◌&&◌, ◌||◌, Option, none, some}
use vllm_sail.Base.{
  List, [], ◌∷◌, ◌==◌, string_eq, nat_eq, option_eq, contains, length, if◌then◌else◌,
}
use vllm_sail.Base.Failing.{◌>>=◌}
use vllm_sail.Warmup.Layers.{
  Dtype, Tensor, Fp8Method, LinearMethod, Linear, Experts, QuantConfig, Layer, Settings, MoeWeights,
  dtype_eq, bfloat16, float16, float8_e4m3fn, int8_type, mxfp4, fp8_method, compressed, unquantized,
  linear, moe, is_deep_gemm, is_batched, is_deep_gemm_mxfp4, is_batched_mxfp4, is_other_backend,
  second, extract_linear, extract_moe,
}

abbrev fits_blocks : ℕ → List ℕ → Bool
fits_blocks block (n ∷ k ∷ []) = n % block == 0 && k % block == 0
fits_blocks block size = false

module _ (e : Settings) where
  abbrev is_fp8_block : Fp8Method → Bool
  is_fp8_block m = m.block_quant && not m.use_marlin

  fp8_weight : Linear → LinearMethod → Option (Option (List ℕ))
  unfolding extract_linear string_eq nat_eq
  fp8_weight l (fp8_method m) =
      if is_fp8_block m
      then (do
        data' ← extract_linear l
        block ← second (data'.1)
        let w = data'.0
        if block == e.block_k && fits_blocks e.block_m w.size
            then some (some w.size)
            else some none)
      else some none
  fp8_weight l _ = some none

  -- `_fp8_linear_may_use_deep_gemm`, with the size of the weight of a layer that it takes.
  unfoldable pub fp8_linear : Layer → Option (Option (List ℕ))
  unfolding fp8_weight string_eq
  fp8_linear (linear l) =
      if is_other_backend e.dense_backend then some none else fp8_weight l l.quant_method
  fp8_linear _ = some none

  abbrev is_int_quantized : LinearMethod → Bool
  is_int_quantized (compressed (some format)) = format == "int-quantized"
  is_int_quantized _ = false

  -- `_int8_linear_may_use_deep_gemm`
  unfoldable pub int8_linear : Layer → Option (Option (List ℕ))
  unfolding extract_linear string_eq nat_eq
  int8_linear (linear l) =
      if is_other_backend e.dense_backend || not (is_int_quantized l.quant_method)
      then some none
      else extract_linear l >>= λ d.
          (if e.has_deep_gemm && length (d.0.size) == 2 then some (some (d.0.size)) else some none)
  int8_linear _ = some none

  abbrev is_unquantized : LinearMethod → Bool
  is_unquantized unquantized = true
  is_unquantized _ = false

  abbrev bf16_weight : Option Tensor → Option (Option (List ℕ))
  bf16_weight none = some none
  bf16_weight (some w) =
      if e.has_deep_gemm && e.is_ppu_15 && length w.size == 2 && w.dtype == bfloat16 && w.contiguous
      then some (some w.size)
      else some none

  -- `_bf16_linear_may_use_deep_gemm`
  unfoldable pub bf16_linear : Layer → Option (Option (List ℕ))
  unfolding nat_eq dtype_eq
  bf16_linear (linear l) =
      if e.dense_bf16_deepgemm && is_unquantized l.quant_method && not l.has_bias
      then bf16_weight l.weight
      else some none
  bf16_linear _ = some none

  abbrev pub holds_experts : (Experts → Bool) → Option Experts → Bool
  holds_experts wanted none = false
  holds_experts wanted (some x) = wanted x

  abbrev pub passes : (QuantConfig → Option Bool) → Option QuantConfig → Option Bool
  passes test none = some false
  passes test (some c) = test c

  -- A layer of experts of a class, whose configuration passes a test, with its weights.
  unfoldable pub experts_layer :
      (QuantConfig → Option Bool) → (Experts → Bool) → Layer → Option (Option MoeWeights)
  unfolding extract_moe string_eq
  experts_layer test wanted (moe m) = if is_other_backend e.moe_backend then some none else (do
    passed ← passes test m.quant_config
    if passed && holds_experts wanted m.fused_experts
        then (extract_moe m >>= λ w. some (some w))
        else some none)
  experts_layer test wanted _ = some none

  abbrev fits_block_k : List ℕ → Option Bool
  fits_block_k [] = some true
  fits_block_k (x ∷ xs) = second (x ∷ xs) >>= λ y. some (y == e.block_k)

  -- `_fused_moe_grouped_gemm_may_use_deep_gemm`
  unfoldable pub fp8_experts : Layer → Option (Option MoeWeights)
  unfolding experts_layer dtype_eq option_eq nat_eq
  fp8_experts =
      experts_layer
        (λ c.
          if c.quant_dtype == some float8_e4m3fn then fits_block_k c.block_shape else some false)
        is_deep_gemm

  -- `_fused_moe_grouped_gemm_may_use_deep_gemm_int8`
  unfoldable pub int8_experts : Layer → Option (Option MoeWeights)
  unfolding experts_layer dtype_eq option_eq
  int8_experts = experts_layer (λ c. some (c.quant_dtype == some int8_type)) is_deep_gemm

  abbrev pub is_sixteen_bit : Option Dtype → Bool
  is_sixteen_bit none = true
  is_sixteen_bit (some d) = contains (bfloat16 ∷ float16 ∷ []) d

  -- `_fused_moe_grouped_gemm_may_use_deep_gemm_bf16`
  unfoldable pub bf16_experts : Layer → Option (Option MoeWeights)
  unfolding experts_layer dtype_eq
  bf16_experts =
      experts_layer
        (λ c. some (
          is_sixteen_bit c.quant_dtype
          && not (
              c.use_int8_w8a16 || c.use_int4_w4a16 || c.use_fp8_w8a16 || c.use_nvfp4_w4a16
              || c.use_mxfp4_w4a16)))
        is_deep_gemm

  -- `_fused_moe_grouped_gemm_may_use_deep_gemm_fp4`
  unfoldable pub fp4_experts : Layer → Option (Option MoeWeights)
  unfolding experts_layer dtype_eq option_eq
  fp4_experts = experts_layer (λ c. some (c.quant_dtype == some mxfp4)) is_deep_gemm_mxfp4

  -- `_fused_moe_grouped_gemm_may_use_deep_gemm_fp4_masked`
  unfoldable pub fp4_masked_experts : Layer → Option (Option MoeWeights)
  unfolding experts_layer dtype_eq option_eq
  fp4_masked_experts = experts_layer (λ c. some (c.quant_dtype == some mxfp4)) is_batched_mxfp4

  -- `_fused_moe_grouped_gemm_may_use_deep_gemm_w4a16`
  unfoldable pub w4a16_experts : Bool → Layer → Option (Option MoeWeights)
  unfolding experts_layer
  w4a16_experts masked =
      experts_layer (λ c. some (c.use_mxfp4_w4a16 || c.use_int4_w4a16))
        (if masked then is_batched else is_deep_gemm)
