-- ===== src/Warmup/Layers.antt =====
-- The layers of a model as vllm_sail/model_executor/warmup/deep_gemm_warmup.py reads them. `none` stands for an exception: a failed assertion, a missing
-- attribute or an unsupported layer.
use vllm_sail.Base.{ℕ, String, Bool, true, false, not, ◌||◌, Option, none, some}
use vllm_sail.Base.{List, [], ◌∷◌, Eq, ◌==◌, string_eq, nat_eq, option_eq, contains, if◌then◌else◌}
use vllm_sail.Base.Failing.{◌>>=◌, ◌>>◌, require}

-- The element types that the code tells apart.
pub data Dtype : Type 0 where
  bfloat16 float16 float8_e4m3fn int8_type uint8 int32 mxfp4 other_type : Dtype

Dtype-discrete : Discrete Dtype
Dtype-discrete = hlevel

instance unfoldable pub dtype_eq : Eq Dtype
unfolding Dtype-discrete
dtype_eq = record { dec = Dtype-discrete }

-- A tensor, without its elements.
pub record Tensor : Type 0 where
  pub size : List ℕ
  pub dtype : Dtype
  pub contiguous : Bool

pub record Fp8Method : Type 0 where
  pub block_quant : Bool
  pub use_marlin : Bool
  pub weight_block_size : Option (List ℕ)

-- The `quant_method` of a linear layer; `compressed` has the format of its configuration.
pub data LinearMethod : Type 0 where
  fp8_method : Fp8Method → LinearMethod
  compressed : Option String → LinearMethod
  unquantized other_linear : LinearMethod

-- An attribute that is missing or no tensor is `none`; `weight_scale` is `weight_scale_inv` where the
-- layer has that.
pub record Linear : Type 0 where
  pub quant_method : LinearMethod
  pub weight : Option Tensor
  pub weight_scale : Option Tensor
  pub has_bias : Bool

-- The class of `fused_experts`. The two W4FA16MMA classes derive from those without the suffix.
pub data Experts : Type 0 where
  deep_gemm deep_gemm_w4fa16 deep_gemm_mxfp4 batched batched_w4fa16 batched_mxfp4 other_experts :
      Experts

-- `isinstance`, for the four classes that are asked for.
abbrev pub is_deep_gemm : Experts → Bool
is_deep_gemm deep_gemm = true
is_deep_gemm deep_gemm_w4fa16 = true
is_deep_gemm _ = false

abbrev pub is_batched : Experts → Bool
is_batched batched = true
is_batched batched_w4fa16 = true
is_batched _ = false

abbrev pub is_deep_gemm_mxfp4 : Experts → Bool
is_deep_gemm_mxfp4 deep_gemm_mxfp4 = true
is_deep_gemm_mxfp4 _ = false

abbrev pub is_batched_mxfp4 : Experts → Bool
is_batched_mxfp4 batched_mxfp4 = true
is_batched_mxfp4 _ = false

-- `moe_quant_config`. An empty `block_shape` is none.
pub record QuantConfig : Type 0 where
  pub quant_dtype : Option Dtype
  pub block_shape : List ℕ
  pub use_int8_w8a16 : Bool
  pub use_int4_w4a16 : Bool
  pub use_fp8_w8a16 : Bool
  pub use_nvfp4_w4a16 : Bool
  pub use_mxfp4_w4a16 : Bool

-- A `MoERunner`; `fused_experts` is `none` where there is no `moe_kernel`.
pub record Moe : Type 0 where
  pub quant_config : Option QuantConfig
  pub fused_experts : Option Experts
  pub w13_weight : Option Tensor
  pub w2_weight : Option Tensor
  pub w13_scale : Option Tensor
  pub w2_scale : Option Tensor
  pub top_k : ℕ

-- A module is a `LinearBase`, a `MoERunner` or neither.
pub data Layer : Type 0 where
  linear : Linear → Layer
  moe : Moe → Layer
  other_layer : Layer

-- The environment variables, and what is asked of the device and of DeepGEMM: `block_m` and `block_k`
-- are `get_mk_alignment_for_contiguous_layout()`.
pub record Settings : Type 0 where
  pub dense_backend : String
  pub moe_backend : String
  pub dense_bf16_deepgemm : Bool
  pub has_deep_gemm : Bool
  pub is_ppu_15 : Bool
  pub block_m : ℕ
  pub block_k : ℕ

-- `backend and backend != "deepgemm"`
abbrev pub is_other_backend : String → Bool
is_other_backend backend = not (backend == "" || backend == "deepgemm")

abbrev pub second : List ℕ → Option ℕ
second [] = none
second (x ∷ []) = none
second (x ∷ y ∷ ys) = some y

-- `_extract_data_from_linear_base_module`: the weight and the block sizes, of which a compressed layer
-- has a single number that no caller reads.
unfoldable pub extract_linear : Linear → Option (Tensor × List ℕ)
extract_linear l = extract l.quant_method
  where
    extract : LinearMethod → Option (Tensor × List ℕ)
    extract (fp8_method m) = do
      require m.block_quant
      w ← l.weight
      _ ← l.weight_scale
      sizes ← m.weight_block_size
      some (w, sizes)
    extract (compressed format) = do w ← l.weight; _ ← l.weight_scale; some (w, [])
    extract unquantized = none
    extract other_linear = none

-- What a warm-up needs of a layer of experts.
pub record MoeWeights : Type 0 where
  pub w13 : Tensor
  pub w2 : Tensor
  pub num_topk : ℕ

-- `_extract_data_from_fused_moe_module`
unfoldable pub extract_moe : Moe → Option MoeWeights
unfolding dtype_eq
extract_moe m = do
  w13 ← m.w13_weight
  w2 ← m.w2_weight
  if contains (bfloat16 ∷ float16 ∷ []) w13.dtype
      then some (record { w13 = w13; w2 = w2; num_topk = m.top_k })
      else (do
        require (contains (int8_type ∷ uint8 ∷ float8_e4m3fn ∷ int32 ∷ []) w13.dtype)
        _ ← m.w13_scale
        _ ← m.w2_scale
        some (record { w13 = w13; w2 = w2; num_topk = m.top_k }))
