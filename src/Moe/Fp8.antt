-- ===== src/Moe/Fp8.antt =====
-- vllm_sail/registry/moe_backends/fp8.py
use vllm_sail.Base.{ℕ, String, Bool, true, false, ◌&&◌, Option, none, some, List, [], ◌∷◌}
use vllm_sail.Base.{◌==◌, contains, string_eq, option_eq, if◌then◌else◌}
use vllm_sail.Base.Raising.{Result, ok, ◌>>=◌}
use vllm_sail.Envs.{moe_backend, gemm_backends, is_set, choice}
use vllm_sail.Moe.Backend.{
  Backend, Kernel, QuantKey, MoeConfig, format_of, Device, Selected, Oracle, ppu_deepgemm,
  batched_ppu_deepgemm, deep_gemm_experts, batched_deep_gemm_experts, choose_kernel, insert_after,
}

-- `if member not in backends: backends.insert(backends.index(mark) + 1, member)`
unfoldable pub insert_member : Backend → Backend → List Backend → Result (List Backend)
unfolding insert_after
insert_member mark member backends =
    if contains backends member then ok backends else insert_after mark (member ∷ []) backends

unfoldable pub with_ppu_members : List Backend → Result (List Backend)
unfolding insert_member
with_ppu_members backends =
    insert_member "DEEPGEMM" ppu_deepgemm backends
    >>= insert_member "BATCHED_DEEPGEMM" batched_ppu_deepgemm

-- `is_set(…) and … == "deepgemm"`; the setting is read only where it is set.
unfoldable pub requests_deepgemm : Device → Bool → Result Bool
unfolding is_set choice option_eq
requests_deepgemm d unset =
    if is_set d.environ moe_backend
    then (choice d.environ moe_backend none gemm_backends >>= λ v. ok (v == some "deepgemm"))
    else ok unset

module _ (d : Device) (o : Oracle Bool) where
  unfoldable pub get_priority_backends :
      MoeConfig → Option QuantKey → Option QuantKey → Result (List Backend)
  unfolding requests_deepgemm with_ppu_members
  get_priority_backends c weight_key activation_key =
      let backends = o.priorities c weight_key activation_key in
      if d.is_ppu
      then (requests_deepgemm d true >>= λ wanted.
          if wanted then with_ppu_members backends else ok backends)
      else ok backends

  unfoldable pub backend_to_kernel_cls : Backend → Result (List Kernel)
  unfolding string_eq
  backend_to_kernel_cls backend =
      if backend == ppu_deepgemm
      then ok (deep_gemm_experts ∷ [])
      else if backend == batched_ppu_deepgemm
      then ok (batched_deep_gemm_experts ∷ [])
      else o.kernels backend

  unfoldable pub map_fp8_backend : String → Result Backend
  unfolding string_eq
  map_fp8_backend runner_backend =
      if runner_backend == "ppu_deep_gemm" then ok ppu_deepgemm else o.backend_of runner_backend

  abbrev pub batched_member : MoeConfig → Backend → Backend
  batched_member c backend =
      if c.is_batched && backend == ppu_deepgemm then batched_ppu_deepgemm else backend

  unfoldable pub select_ppu_backend :
      MoeConfig → Option QuantKey → Option QuantKey → Backend → Result Selected
  unfolding backend_to_kernel_cls choose_kernel
  select_ppu_backend c weight_key activation_key backend =
      let backend' = batched_member c backend in
      backend_to_kernel_cls backend'
      >>= choose_kernel (λ k. o.is_supported_config k c weight_key activation_key (format_of c))
          backend'

  abbrev pub uses_deepgemm : MoeConfig → Result Bool
  uses_deepgemm c =
      if c.moe_backend == "auto" && d.is_ppu then requests_deepgemm d false else ok false

  unfoldable pub select_fp8_moe_backend :
      MoeConfig → Option QuantKey → Option QuantKey → Bool → Result Selected
  unfolding select_ppu_backend requests_deepgemm string_eq
  select_fp8_moe_backend c weight_key activation_key allow_vllm_cutlass =
      if c.moe_backend == "ppu_deep_gemm"
      then select_ppu_backend c weight_key activation_key ppu_deepgemm
      else (uses_deepgemm c >>= λ wanted.
          if wanted
          then select_ppu_backend c weight_key activation_key ppu_deepgemm
          else o.select c weight_key activation_key allow_vllm_cutlass)

-- Weights in blocks are prepared for DeepGEMM, and others are used as they are.
unfoldable pub convert_to_fp8_moe_kernel_format {ℓ} :
    {W : Type ℓ}
    → (W → List ℕ → Result W)
    → (Backend → W → Result W)
    → Backend
    → Option (List ℕ)
    → W
    → Result W
unfolding string_eq
convert_to_fp8_moe_kernel_format prepare upstream_convert backend block_shape weights =
    if contains (ppu_deepgemm ∷ batched_ppu_deepgemm ∷ []) backend
    then elim block_shape [ none ↦ ok weights | some shape ↦ prepare weights shape ]
    else upstream_convert backend weights

-- `with_gemm1` sets `gemm1_alpha` and `gemm1_beta` of vLLM's result.
unfoldable pub make_fp8_moe_quant_config {ℓ κ} :
    {Q : Type ℓ} {A : Type κ} → Device → (A → A → Q → Q) → Result Q → A → A → Result Q
make_fp8_moe_quant_config d with_gemm1 upstream_result gemm1_alpha gemm1_beta =
    upstream_result >>= λ result.
    ok (if d.is_ppu then with_gemm1 gemm1_alpha gemm1_beta result else result)
