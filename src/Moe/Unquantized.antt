-- ===== src/Moe/Unquantized.antt =====
-- vllm_sail/registry/moe_backends/unquantized.py
use vllm_sail.Base.{String, ◌&&◌, ◌||◌, not, none, List, [], ◌∷◌}
use vllm_sail.Base.{◌++◌, ◌==◌, string_eq, option_eq, if◌then◌else◌}
use vllm_sail.Base.Raising.{Result, ok, ◌>>=◌}
use vllm_sail.Moe.Backend.{
  Backend, Kernel, MoeConfig, Device, Selected, Oracle, ppu_deepgemm, batched_ppu_deepgemm, acext,
  deep_gemm_experts, batched_deep_gemm_experts, acext_experts, choose_kernel, batched,
}
use vllm_sail.Moe.Int8.{in_use, is_wanted, deep_gemm_enabled, requested_backend}

module _ (d : Device) (o : Oracle (Unit {0})) where
  -- Where the plugin has its own list, vLLM's is not read.
  unfoldable pub get_priority_backends : MoeConfig → Result (List Backend)
  unfolding requested_backend string_eq option_eq
  get_priority_backends c =
      if d.is_ppu
      then (requested_backend d >>= λ requested. ok (
          in_use (deep_gemm_enabled d c requested) (
            is_wanted d.is_acext_supported requested "acext"
            && not (c.is_batched || c.moe_backend == "batched_triton"))
          ++ ("TRITON" ∷ "BATCHED_TRITON" ∷ [])))
      else ok (o.priorities c none none)

  unfoldable pub backend_to_kernel_cls : Backend → Result (List Kernel)
  unfolding string_eq
  backend_to_kernel_cls backend =
      if backend == ppu_deepgemm
      then ok (deep_gemm_experts ∷ [])
      else if backend == batched_ppu_deepgemm
      then ok (batched_deep_gemm_experts ∷ [])
      else if backend == acext
      then ok (acext_experts ∷ [])
      else o.kernels backend

  unfoldable pub map_unquantized_backend : String → Result Backend
  unfolding string_eq
  map_unquantized_backend runner_backend =
      if runner_backend == "ppu_deep_gemm"
      then ok ppu_deepgemm
      else if runner_backend == "ppu_acext"
      then ok acext
      else o.backend_of runner_backend

  unfoldable pub select_unquantized_moe_backend : MoeConfig → Result Selected
  unfolding backend_to_kernel_cls choose_kernel string_eq
  select_unquantized_moe_backend c =
      if c.moe_backend == "ppu_deep_gemm" && c.is_batched
      then (backend_to_kernel_cls batched_ppu_deepgemm
          >>= choose_kernel (λ k. o.is_supported_config k c none none batched) batched_ppu_deepgemm)
      else o.select c none none tt
