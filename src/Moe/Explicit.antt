-- ===== src/Moe/Explicit.antt =====
-- An explicit request of `ppu_deep_gemm` at a layer in the batched format, in the four oracles that
-- have one member for it.
use vllm_sail.Base.{◌≡◌, refl, some, Bool, true, false, Option, none}
use vllm_sail.Base.{string_eq, option_eq, if◌then◌else◌}
use vllm_sail.Base.Raising.{Result, ok, raised, value_error, found, ◌>>=◌}
use vllm_sail.Moe.Backend.{
  QuantKey, batched, standard, MoeConfig, Device, Selected, Oracle, batched_ppu_deepgemm,
  batched_deep_gemm_experts, ppu_deepgemm, deep_gemm_experts,
}
use vllm_sail.Moe.Fp8.{select_fp8_moe_backend}
use vllm_sail.Moe.Int8.{select_int8_moe_backend}
use vllm_sail.Moe.Unquantized.{select_unquantized_moe_backend}
use vllm_sail.Moe.Wna16.{Needs, Packing, select_wna16_moe_backend, ppu_reason}

-- The member and the class of the batched format, where the class supports the layer.
abbrev pub batched_or_refused : Bool → Result Selected
batched_or_refused supported =
    if supported then ok (batched_ppu_deepgemm, batched_deep_gemm_experts) else raised value_error

choose_one :
    (fits : Bool)
    → (found (if fits then some batched_deep_gemm_experts else none) value_error >>= λ kernel.
        ok (batched_ppu_deepgemm, kernel))
      ≡ batched_or_refused fits
choose_one true = refl
choose_one false = refl

abbrev pub standard_or_refused : Bool → Result Selected
standard_or_refused supported =
    if supported then ok (ppu_deepgemm, deep_gemm_experts) else raised value_error

choose_standard :
    (fits : Bool)
    → (found (if fits then some deep_gemm_experts else none) value_error >>= λ kernel.
        ok (ppu_deepgemm, kernel))
      ≡ standard_or_refused fits
choose_standard true = refl
choose_standard false = refl

-- A layer of the batched format for which `ppu_deep_gemm` is asked.
abbrev pub asking : Bool → MoeConfig
asking has_bias = record { moe_backend = "ppu_deep_gemm"; is_batched = true; has_bias = has_bias }

abbrev pub asking_standard : Bool → MoeConfig
asking_standard has_bias = record {
  moe_backend = "ppu_deep_gemm";
  is_batched = false;
  has_bias = has_bias;
}

abbrev pub supported :
    {Rest : Type 0} → Oracle Rest → Bool → Option QuantKey → Option QuantKey → Bool
supported o has_bias w a =
    o.is_supported_config batched_deep_gemm_experts (asking has_bias) w a batched

module _ (d : Device) (w a : Option QuantKey) (b : Bool) where
  fp8_batched :
      (o : Oracle Bool) (cutlass : Bool)
      → select_fp8_moe_backend d o (asking b) w a cutlass ≡ batched_or_refused (supported o b w a)
  unfolding select_fp8_moe_backend
  fp8_batched o cutlass = choose_one (supported o b w a)

  int8_batched :
      (o : Oracle (Unit {0}))
      → select_int8_moe_backend d o (asking b) w a ≡ batched_or_refused (supported o b w a)
  unfolding select_int8_moe_backend
  int8_batched o = choose_one (supported o b w a)

  unquantized_batched :
      (o : Oracle (Unit {0}))
      → select_unquantized_moe_backend d o (asking b) ≡ batched_or_refused (supported o b none none)
  unfolding select_unquantized_moe_backend
  unquantized_batched o = choose_one (supported o b none none)

  wna16_batched :
      (o : Oracle Needs) (p : Packing) (n : Needs)
      → ppu_reason p (asking b) n ≡ none
      → select_wna16_moe_backend d o p (asking b) w n ≡ batched_or_refused (supported o b w none)
  unfolding select_wna16_moe_backend
  wna16_batched o p n fits = rw fits (choose_one (supported o b w none))

  fp8_standard :
      (o : Oracle Bool) (cutlass : Bool)
      → select_fp8_moe_backend d o (asking_standard b) w a cutlass
        ≡ standard_or_refused
            (o.is_supported_config deep_gemm_experts (asking_standard b) w a standard)
  unfolding select_fp8_moe_backend
  fp8_standard o cutlass =
      choose_standard (o.is_supported_config deep_gemm_experts (asking_standard b) w a standard)

  -- Where `ppu_deep_gemm` is asked for a layer in the batched format, the FP8, the INT8, the
  -- unquantized and the WNA16 oracle, the last one if none of its tests refuses the layer, select
  -- the batched member of the plugin with its experts if these support the layer in that format,
  -- and raise ValueError if not; whatever the device and vLLM's own oracle are. In the standard
  -- format the FP8 oracle does the same with the standard member.
  pub asking_lem :
      (q : Oracle Bool) (o : Oracle (Unit {0})) (n : Oracle Needs) (p : Packing) (needs : Needs)
      (cutlass : Bool)
      → ppu_reason p (asking b) needs ≡ none
      → (select_fp8_moe_backend d q (asking b) w a cutlass ≡ batched_or_refused (supported q b w a))
        × (select_int8_moe_backend d o (asking b) w a ≡ batched_or_refused (supported o b w a))
        × (select_unquantized_moe_backend d o (asking b)
            ≡ batched_or_refused (supported o b none none))
        × (select_wna16_moe_backend d n p (asking b) w needs
            ≡ batched_or_refused (supported n b w none))
        × (select_fp8_moe_backend d q (asking_standard b) w a cutlass
            ≡ standard_or_refused
                (q.is_supported_config deep_gemm_experts (asking_standard b) w a standard))
  asking_lem q o n p needs cutlass fits = (
    fp8_batched q cutlass,
    int8_batched o,
    unquantized_batched o,
    wna16_batched n p needs fits,
    fp8_standard q cutlass,
  )
