-- ===== src/Moe/Tests.antt =====
-- A PPU with both libraries, vLLM's oracles as they might answer, and a process in which one
-- consumer has captured a function. The theorems on backends at these.
use vllm_sail.Base.{◌≡◌, refl, Bool, true, false, none, some, List, []}
use vllm_sail.Base.{◌∷◌, ◌||◌, ◌==◌, nat_eq, string_eq, option_eq, if◌then◌else◌, contains}
use vllm_sail.Base.Raising.{ok, raised, value_error}
use vllm_sail.Envs.{Environ}
use vllm_sail.Moe.Backend.{
  Backend, MoeConfig, Device, Oracle, ppu_deepgemm, batched_ppu_deepgemm, acext,
}
use vllm_sail.Moe.Fp8
use vllm_sail.Moe.Int8
use vllm_sail.Moe.Mxfp4
use vllm_sail.Moe.Unquantized
use vllm_sail.Moe.Wna16
use vllm_sail.Moe.Wna16.{Needs, Packing, ppu_reason}
use vllm_sail.Moe.Explicit.{
  asking, asking_standard, asking_lem, batched_or_refused, standard_or_refused,
}
use vllm_sail.Moe.Priority.{priorities_lem, without, fp8_members}
use vllm_sail.Moe.Tried.{select_mxfp4_moe_backend-Explains, Explains}

abbrev environ : Environ
environ = record {
  variables = ("VLLM_PPU_MOE_BACKEND", "deepgemm") ∷ [];
  strip = λ s. s;
  lower = λ s. s;
}

abbrev device : Device
device = record {
  is_ppu = true;
  is_xpu = false;
  is_capability_80 = false;
  is_deep_gemm_supported = true;
  is_acext_supported = true;
  environ = environ;
}

abbrev oracle : (Rest : Type 0) → Oracle Rest
oracle Rest = record {
  priorities = λ c w a. "TRITON" ∷ "DEEPGEMM" ∷ "BATCHED_DEEPGEMM" ∷ [];
  kernels = λ b. raised value_error;
  backend_of = λ s. raised value_error;
  select = λ c w a r. raised value_error;
  is_supported_config = λ k c w a f. true;
}

abbrev packing : Packing
packing = record {
  marlin_input_dtype = "";
  supports_marlin_layout = λ c n b. true;
  upstream_reason_of = λ b c n. none;
}

abbrev needs : Needs
needs = record {
  quant_config = record {
    has_known_type = true;
    desc_act = false;
    actorder = none;
    group_size = 32;
  };
  may_have_zp = false;
  may_have_bias = false;
  allow_tile_padding = false;
}

asking_lem_example :
    (Fp8.select_fp8_moe_backend device (oracle Bool) (asking false) none none false
      ≡ batched_or_refused true)
    × (Int8.select_int8_moe_backend device (oracle (Unit {0})) (asking false) none none
        ≡ batched_or_refused true)
    × (Unquantized.select_unquantized_moe_backend device (oracle (Unit {0})) (asking false)
        ≡ batched_or_refused true)
    × (Wna16.select_wna16_moe_backend device (oracle Needs) packing (asking false) none needs
        ≡ batched_or_refused true)
    × (Fp8.select_fp8_moe_backend device (oracle Bool) (asking_standard false) none none false
        ≡ standard_or_refused true)
unfolding ppu_reason
asking_lem_example =
    asking_lem device none none false (oracle Bool) (oracle (Unit {0})) (oracle Needs) packing needs
      false refl

abbrev mxfp4 : Mxfp4.Oracle
mxfp4 = record {
  gpt_oss_priorities = "TRITON" ∷ [];
  priorities = "DEEPGEMM_MXFP4" ∷ "TRITON" ∷ [];
  kernels = λ b. raised value_error;
  backends_of = λ s. raised value_error;
  activation_key_of = λ b. none;
  requested = λ s k. ok (Mxfp4.mma ∷ Mxfp4.bf16 ∷ []);
  resolved = λ k. k;
  filtered = λ bs k. bs;
  requires_emulation = λ c k. false;
  return_or_raise = λ b c w k f.
      if b == Mxfp4.batched_bf16 then ok (b, "PPUBatchedDeepGemmExperts") else raised value_error;
  is_supported_config = λ k c w a f. true;
  select_deepseek_v4 = λ c. raised value_error;
  static_key = "static";
  dynamic_key = "dynamic";
}

abbrev named : MoeConfig
named = record { moe_backend = "ppu_deep_gemm_w4a16"; is_batched = true; has_bias = false }

-- The second candidate is taken, in the batched format.
taken :
    Mxfp4.select_mxfp4_moe_backend device mxfp4 named none
    ≡ ok (Mxfp4.batched_bf16, "PPUBatchedDeepGemmExperts")
unfolding Mxfp4.select_mxfp4_moe_backend string_eq
taken = refl

select_mxfp4_moe_backend-Explains_example :
    Explains
      (Mxfp4.attempt device mxfp4 named none)
      (Mxfp4.batched_mma ∷ Mxfp4.batched_bf16 ∷ [])
      (Mxfp4.select_mxfp4_moe_backend device mxfp4 named none)
    × ◌≡◌ {A = List Backend}
        (Mxfp4.batched_mma ∷ Mxfp4.batched_bf16 ∷ [])
        (Mxfp4.batched_mma ∷ Mxfp4.batched_bf16 ∷ [])
unfolding Mxfp4.batched_backend string_eq
select_mxfp4_moe_backend-Explains_example =
    select_mxfp4_moe_backend-Explains device mxfp4 named none (Mxfp4.mma ∷ Mxfp4.bf16 ∷ []) refl
      refl

abbrev layer : MoeConfig
layer = record { moe_backend = "auto"; is_batched = false; has_bias = false }

-- The lists: FP8 and INT8, for a PPU on which DeepGEMM is asked for.
abbrev fp8_list : List Backend
fp8_list = "TRITON" ∷ "DEEPGEMM" ∷ ppu_deepgemm ∷ "BATCHED_DEEPGEMM" ∷ batched_ppu_deepgemm ∷ []

abbrev int8_list : List Backend
int8_list = ppu_deepgemm ∷ batched_ppu_deepgemm ∷ "TRITON" ∷ "DEEPGEMM" ∷ "BATCHED_DEEPGEMM" ∷ []

abbrev mxfp4_list : List Backend
mxfp4_list =
    "DEEPGEMM_MXFP4" ∷ Mxfp4.w4a4 ∷ Mxfp4.batched_w4a4 ∷ Mxfp4.mma ∷ Mxfp4.batched_mma ∷ Mxfp4.bf16
    ∷ Mxfp4.batched_bf16 ∷ "TRITON" ∷ []

priorities_lem_example :
    let up = (oracle Bool).priorities layer none none in
    ((without fp8_members fp8_list ≡ without fp8_members up)
      × (contains fp8_list ppu_deepgemm ≡ (true || contains up ppu_deepgemm))
      × (contains fp8_list batched_ppu_deepgemm ≡ (true || contains up batched_ppu_deepgemm)))
    × ((without Int8.ppu_members int8_list ≡ without Int8.ppu_members up)
        × (contains int8_list ppu_deepgemm ≡ Int8.deep_gemm_enabled device layer (some "deepgemm"))
        × (contains int8_list batched_ppu_deepgemm
            ≡ Int8.deep_gemm_enabled device layer (some "deepgemm"))
        × (contains int8_list acext ≡ Int8.is_wanted true (some "deepgemm") "acext"))
    × ((without Mxfp4.ppu_candidates mxfp4_list ≡ without Mxfp4.ppu_candidates mxfp4.priorities)
        × (contains mxfp4_list Mxfp4.w4a4 ≡ true))
    × ((without Mxfp4.ppu_candidates (Mxfp4.get_priority_backends_for_gpt_oss device mxfp4)
          ≡ without Mxfp4.ppu_candidates mxfp4.gpt_oss_priorities)
        × (contains (Mxfp4.get_priority_backends_for_gpt_oss device mxfp4) Mxfp4.w4a4 ≡ true))
unfolding Fp8.get_priority_backends Int8.get_priority_backends Mxfp4.get_priority_backends string_eq
    option_eq nat_eq
priorities_lem_example =
    priorities_lem device refl layer (oracle Bool) (oracle (Unit {0})) mxfp4 none none true
      (some "deepgemm") fp8_list int8_list mxfp4_list refl refl refl refl refl
