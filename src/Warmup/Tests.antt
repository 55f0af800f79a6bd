-- ===== src/Warmup/Tests.antt =====
-- A node with two ranks, a model with two layers, and the theorems on the warm-up at them.
use vllm_sail.Base.{◌≡◌, refl, ◌/◌, ◌*◌, ◌+◌, ◌-◌, true, none, some}
use vllm_sail.Base.{
  [], ◌∷◌, nat_eq, string_eq, option_eq, list_eq, arith, all, List, length, Option, ℕ, false,
}
use vllm_sail.Warmup.Values.{generate_optimal_warmup_m_values}
use vllm_sail.Warmup.Layers.{
  Layer, dtype_eq, linear, moe, Tensor, Settings, float8_e4m3fn, fp8_method, deep_gemm,
}
use vllm_sail.Warmup.Dense.{Process, Warm, fp8, kernel_eq, remember, fp8_gemm_nt_warmup}
use vllm_sail.Warmup.Single.{RunsAlone}
use vllm_sail.Warmup.Fits.{is_three_dimensional}
use vllm_sail.Warmup.Model.{count_totals, Totals, deep_gemm_warmup}
use vllm_sail.Warmup.Total.{announced, deep_gemm_warmup-counts}
use vllm_sail.Warmup.Coverage.{shards, shards-eq-take}
use vllm_sail.Warmup.Once.{fp8-fp8}
use vllm_sail.Warmup.Bounds.{IsAscending, in_range, generate-IsAscending}

-- The third of three values is left out.
shards-eq-take_example : shards 2 2 (1 ∷ 2 ∷ 3 ∷ []) ≡ 1 ∷ 2 ∷ []
shards-eq-take_example = shards-eq-take 2 (1 ∷ 2 ∷ 3 ∷ []) (omega arith)

abbrev process : Process
process = record {
  ranks = some (record { local_rank = 1; world_size = 2; node_count = 1 });
  warmup = "full";
  num_sms = 4;
  cdiv = λ a b. (a + b - 1) / b;
  dp_world_size = 1;
  block_m = 16;
  compute_aligned_m = λ tokens topk experts block. experts * block;
  accepts = λ kernel s m. true;
}

abbrev size : List ℕ
size = 32 ∷ 16 ∷ []

abbrev cold : Warm
cold = record { local_rank_info = none; cache = λ k. []; calls = [] }

abbrev warmed : Warm
unfolding remember kernel_eq
warmed = remember fp8 size (record {
  local_rank_info = some (1, 2);
  cache = λ k. [];
  calls =
      record { kernel = fp8; size = size; num_tokens = 3 }
      ∷ record { kernel = fp8; size = size; num_tokens = 4 }
      ∷ [];
})

fp8-fp8_example : fp8_gemm_nt_warmup process size 9 warmed ≡ some warmed
unfolding fp8_gemm_nt_warmup nat_eq string_eq
fp8-fp8_example = fp8-fp8 process size 4 9 cold warmed refl

-- A process that is alone, and a model of a dense layer and a layer of experts in FP8.
abbrev alone : Process
alone = record process { ranks = none }

abbrev settings : Settings
settings = record {
  dense_backend = "";
  moe_backend = "deepgemm";
  dense_bf16_deepgemm = false;
  has_deep_gemm = true;
  is_ppu_15 = true;
  block_m = 16;
  block_k = 16;
}

abbrev weight : List ℕ → Option Tensor
weight s = some (record { size = s; dtype = float8_e4m3fn; contiguous = true })

abbrev layers : List Layer
layers =
    linear (record {
      quant_method = fp8_method (record {
        block_quant = true;
        use_marlin = false;
        weight_block_size = some (16 ∷ 16 ∷ []);
      });
      weight = weight size;
      weight_scale = weight (2 ∷ 1 ∷ []);
      has_bias = false;
    })
    ∷ moe (record {
      quant_config = some (record {
        quant_dtype = some float8_e4m3fn;
        block_shape = 16 ∷ 16 ∷ [];
        use_int8_w8a16 = false;
        use_int4_w4a16 = false;
        use_fp8_w8a16 = false;
        use_nvfp4_w4a16 = false;
        use_mxfp4_w4a16 = false;
      });
      fused_experts = some deep_gemm;
      w13_weight = weight (2 ∷ 32 ∷ 16 ∷ []);
      w2_weight = weight (2 ∷ 16 ∷ 16 ∷ []);
      w13_scale = weight [];
      w2_scale = weight [];
      top_k = 2;
    })
    ∷ []

abbrev totals : Totals
totals = record { total = 8; total_int8 = 0; total_bf16 = 0; total_fp4 = 0; total_w4a16 = 0 }

-- Four calls for the dense weight, and two for each weight of the experts.
deep_gemm_warmup-counts_example :
    (v : Warm) × (deep_gemm_warmup settings alone 4 layers 0 cold
      ≡ record { compile_mode = 0; warm = some v })
    × (length v.calls ≡ length cold.calls + announced totals)
unfolding is_three_dimensional RunsAlone count_totals string_eq nat_eq dtype_eq option_eq list_eq
deep_gemm_warmup-counts_example =
    deep_gemm_warmup-counts settings alone 4 layers cold refl
      (0, 1, refl, omega arith, λ kernel s m. refl) totals refl 0

generate-IsAscending_example :
    IsAscending (generate_optimal_warmup_m_values (λ a b. (a + b - 1) / b) 4 100 32)
    × (all (in_range 100) (generate_optimal_warmup_m_values (λ a b. (a + b - 1) / b) 4 100 32)
        ≡ true)
generate-IsAscending_example = generate-IsAscending 100 (λ a b. (a + b - 1) / b) 4 32
