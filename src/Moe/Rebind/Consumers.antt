-- ===== src/Moe/Rebind/Consumers.antt =====
-- `_ORACLE_ALIAS_CONSUMERS` of vllm_sail/registry/moe_backends/__init__.py
use vllm_sail.Base.{String, List, [], ◌∷◌}
use vllm_sail.Base.Names.{Names}

-- For each alias the modules that captured it.
abbrev pub Aliases : Type 0
Aliases = Names (List String)

abbrev pub Table : Type 0
Table = Names Aliases

unfoldable pub oracle_alias_consumers : Table
oracle_alias_consumers =
    (
      "unquantized",
      (
        "select_unquantized_moe_backend",
        "vllm.model_executor.layers.fused_moe.unquantized_fused_moe_method" ∷ [],
      )
          ∷ [],
    )
    ∷ (
      "fp8",
      ("backend_to_kernel_cls", "vllm.model_executor.layers.fused_moe.oracle.mxfp8" ∷ [])
          ∷ (
            "select_fp8_moe_backend",
            "vllm.model_executor.layers.quantization.compressed_tensors.compressed_tensors_moe.compressed_tensors_moe_w8a8_fp8"
                ∷ "vllm.model_executor.layers.quantization.fp8"
                ∷ "vllm.model_executor.layers.quantization.modelopt"
                ∷ "vllm.model_executor.layers.quantization.online.fp8"
                ∷ "vllm.model_executor.layers.quantization.quark.quark_moe" ∷ [],
          )
          ∷ (
            "convert_to_fp8_moe_kernel_format",
            "vllm.model_executor.layers.quantization.compressed_tensors.compressed_tensors_moe.compressed_tensors_moe_w8a8_fp8"
                ∷ "vllm.model_executor.layers.quantization.compressed_tensors.compressed_tensors_moe.compressed_tensors_moe_w8a8_mxfp8"
                ∷ "vllm.model_executor.layers.quantization.fp8"
                ∷ "vllm.model_executor.layers.quantization.inc.schemes.inc_mxfp8_moe"
                ∷ "vllm.model_executor.layers.quantization.modelopt"
                ∷ "vllm.model_executor.layers.quantization.quark.quark_moe" ∷ [],
          )
          ∷ (
            "make_fp8_moe_quant_config",
            "vllm.model_executor.layers.quantization.compressed_tensors.compressed_tensors_moe.compressed_tensors_moe_w8a8_fp8"
                ∷ "vllm.model_executor.layers.quantization.compressed_tensors.compressed_tensors_moe.compressed_tensors_moe_w8a8_mxfp8"
                ∷ "vllm.model_executor.layers.quantization.fp8"
                ∷ "vllm.model_executor.layers.quantization.inc.schemes.inc_mxfp8_moe"
                ∷ "vllm.model_executor.layers.quantization.modelopt"
                ∷ "vllm.model_executor.layers.quantization.quark.quark_moe" ∷ [],
          )
          ∷ [],
    )
    ∷ (
      "int8",
      (
        "convert_to_int8_moe_kernel_format",
        "vllm.model_executor.layers.quantization.compressed_tensors.compressed_tensors_moe.compressed_tensors_moe_w8a8_int8"
            ∷ "vllm.model_executor.layers.quantization.online.int8"
            ∷ "vllm.model_executor.layers.quantization.quark.quark_moe" ∷ [],
      )
          ∷ (
            "make_int8_moe_quant_config",
            "vllm.model_executor.layers.quantization.compressed_tensors.compressed_tensors_moe.compressed_tensors_moe_w8a8_int8"
                ∷ "vllm.model_executor.layers.quantization.online.int8"
                ∷ "vllm.model_executor.layers.quantization.quark.quark_moe" ∷ [],
          )
          ∷ (
            "select_int8_moe_backend",
            "vllm.model_executor.layers.quantization.compressed_tensors.compressed_tensors_moe.compressed_tensors_moe_w8a8_int8"
                ∷ "vllm.model_executor.layers.quantization.online.int8"
                ∷ "vllm.model_executor.layers.quantization.quark.quark_moe" ∷ [],
          )
          ∷ [],
    )
    ∷ (
      "mxfp4",
      ("backend_to_kernel_cls", "vllm.model_executor.layers.quantization.quark.quark_moe" ∷ [])
          ∷ (
            "convert_gpt_oss_weight_to_mxfp4_moe_kernel_format",
            "vllm.model_executor.layers.quantization.mxfp4"
                ∷ "vllm.model_executor.layers.quantization.quark.quark_moe" ∷ [],
          )
          ∷ (
            "convert_weight_to_mxfp4_moe_kernel_format",
            "vllm.model_executor.layers.quantization.mxfp4"
                ∷ "vllm.model_executor.layers.quantization.online.mxfp4" ∷ [],
          )
          ∷ (
            "make_mxfp4_moe_quant_config",
            "vllm.model_executor.layers.quantization.compressed_tensors.compressed_tensors_moe.compressed_tensors_moe_w4a4_mxfp4"
                ∷ "vllm.model_executor.layers.quantization.inc.schemes.inc_mxfp4_moe"
                ∷ "vllm.model_executor.layers.quantization.mxfp4"
                ∷ "vllm.model_executor.layers.quantization.online.mxfp4"
                ∷ "vllm.model_executor.layers.quantization.quark.quark_moe" ∷ [],
          )
          ∷ (
            "mxfp4_round_up_hidden_size_and_intermediate_size",
            "vllm.model_executor.layers.quantization.mxfp4"
                ∷ "vllm.model_executor.layers.quantization.online.mxfp4"
                ∷ "vllm.model_executor.layers.quantization.quark.quark_moe" ∷ [],
          )
          ∷ (
            "select_mxfp4_moe_backend",
            "vllm.model_executor.layers.quantization.compressed_tensors.compressed_tensors_moe.compressed_tensors_moe_w4a4_mxfp4"
                ∷ "vllm.model_executor.layers.quantization.inc.schemes.inc_mxfp4_moe"
                ∷ "vllm.model_executor.layers.quantization.mxfp4"
                ∷ "vllm.model_executor.layers.quantization.online.mxfp4"
                ∷ "vllm.model_executor.layers.quantization.quark.quark_moe" ∷ [],
          )
          ∷ (
            "select_deepseek_v4_mxfp4_moe_backend",
            "vllm.model_executor.layers.quantization.mxfp4" ∷ [],
          )
          ∷ [],
    )
    ∷ (
      "int_wna16",
      ("backend_to_kernel_cls", [])
          ∷ (
            "select_wna16_moe_backend",
            "vllm.model_executor.layers.quantization.auto_awq"
                ∷ "vllm.model_executor.layers.quantization.auto_gptq"
                ∷ "vllm.model_executor.layers.quantization.compressed_tensors.compressed_tensors_moe.compressed_tensors_moe_wna16"
                ∷ "vllm.model_executor.layers.quantization.moe_wna16"
                ∷ "vllm.model_executor.layers.quantization.quark.quark_moe" ∷ [],
          )
          ∷ (
            "make_wna16_moe_kernel",
            "vllm.model_executor.layers.quantization.auto_awq"
                ∷ "vllm.model_executor.layers.quantization.auto_gptq"
                ∷ "vllm.model_executor.layers.quantization.compressed_tensors.compressed_tensors_moe.compressed_tensors_moe_wna16"
                ∷ "vllm.model_executor.layers.quantization.moe_wna16"
                ∷ "vllm.model_executor.layers.quantization.quark.quark_moe" ∷ [],
          )
          ∷ (
            "convert_to_wna16_moe_kernel_format",
            "vllm.model_executor.layers.quantization.auto_awq"
                ∷ "vllm.model_executor.layers.quantization.auto_gptq"
                ∷ "vllm.model_executor.layers.quantization.compressed_tensors.compressed_tensors_moe.compressed_tensors_moe_wna16"
                ∷ "vllm.model_executor.layers.quantization.moe_wna16"
                ∷ "vllm.model_executor.layers.quantization.quark.quark_moe" ∷ [],
          )
          ∷ [],
    )
    ∷ []
