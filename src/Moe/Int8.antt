-- ===== src/Moe/Int8.antt =====
-- vllm_sail/registry/moe_backends/int8.py
use vllm_sail.Base.{String, Bool, ◌&&◌, ◌||◌, not, Option, none, some, List, [], ◌∷◌}
use vllm_sail.Base.{◌++◌, ◌==◌, contains, select, string_eq, option_eq, if◌then◌else◌}
use vllm_sail.Base.Raising.{Result, ok, raised, value_error, ◌>>=◌}
use vllm_sail.Envs.{moe_backend, gemm_backends, choice}
use vllm_sail.Moe.Backend.{
  Backend, Kernel, QuantKey, MoeConfig, Device, Selected, Oracle, ppu_deepgemm,
  batched_ppu_deepgemm, acext, deep_gemm_experts, batched_deep_gemm_experts, acext_experts,
  choose_kernel, batched,
}

abbrev pub ppu_members : List Backend
ppu_members = ppu_deepgemm ∷ batched_ppu_deepgemm ∷ acext ∷ []

-- `supported and (not requested or requested == name)`
abbrev pub is_wanted : Bool → Option String → String → Bool
is_wanted supported requested name = supported && (requested == none || requested == some name)

-- The members that are in use, in their order.
abbrev pub in_use : Bool → Bool → List Backend
in_use deep_gemm_enabled acext_enabled =
    (if deep_gemm_enabled then ppu_deepgemm ∷ [] else [])
    ++ (if acext_enabled then acext ∷ [] else [])
    ++ (if deep_gemm_enabled then batched_ppu_deepgemm ∷ [] else [])

unfoldable pub requested_backend : Device → Result (Option String)
unfolding choice
requested_backend d = choice d.environ moe_backend none gemm_backends

abbrev pub deep_gemm_enabled : Device → MoeConfig → Option String → Bool
deep_gemm_enabled d c requested =
    is_wanted d.is_deep_gemm_supported requested "deepgemm" && not c.has_bias

unfoldable pub is_ppu_member : Backend → Bool
unfolding string_eq
is_ppu_member = contains ppu_members

module _ (d : Device) (o : Oracle (Unit {0})) where
  unfoldable pub get_priority_backends : MoeConfig → Result (List Backend)
  unfolding requested_backend is_ppu_member option_eq
  get_priority_backends c =
      let backends = o.priorities c none none in
      if d.is_ppu
      then (requested_backend d >>= λ requested. ok (
          in_use (deep_gemm_enabled d c requested)
            (is_wanted d.is_acext_supported requested "acext")
          ++ select (λ b. not (is_ppu_member b)) backends))
      else ok backends

  unfoldable pub backend_to_kernel_cls : Backend → Result (List Kernel)
  unfolding string_eq
  backend_to_kernel_cls backend =
      if backend == ppu_deepgemm
      then ok (deep_gemm_experts ∷ [])
      else if backend == batched_ppu_deepgemm
      then ok (batched_deep_gemm_experts ∷ [])
      else if backend == acext
      then ok (acext_experts ∷ [])
      else o.kernels backend

  unfoldable pub map_int8_backend : String → Result Backend
  unfolding string_eq
  map_int8_backend runner_backend =
      if runner_backend == "ppu_deep_gemm"
      then ok ppu_deepgemm
      else if runner_backend == "ppu_acext"
      then ok acext
      else o.backend_of runner_backend

  unfoldable pub select_requested :
      MoeConfig → Option QuantKey → Option QuantKey → Backend → Result Selected
  unfolding backend_to_kernel_cls choose_kernel string_eq
  select_requested c weight_key activation_key requested =
      if requested == ppu_deepgemm
      then (backend_to_kernel_cls batched_ppu_deepgemm
          >>= choose_kernel (λ k. o.is_supported_config k c weight_key activation_key batched)
              batched_ppu_deepgemm)
      else if requested == "TRITON"
      then raised value_error
      else if requested == acext
      then raised value_error
      else o.select c weight_key activation_key tt

  unfoldable pub select_int8_moe_backend :
      MoeConfig → Option QuantKey → Option QuantKey → Result Selected
  unfolding select_requested map_int8_backend
  select_int8_moe_backend c weight_key activation_key =
      if not c.is_batched || c.moe_backend == "auto"
      then o.select c weight_key activation_key tt
      else (map_int8_backend c.moe_backend >>= select_requested c weight_key activation_key)

-- The canonical weights are what the plugin's kernels read.
unfoldable pub convert_to_int8_moe_kernel_format {ℓ} :
    {W : Type ℓ} → (Backend → W → Result W) → Backend → W → Result W
unfolding is_ppu_member
convert_to_int8_moe_kernel_format upstream_convert backend weights =
    if is_ppu_member backend then ok weights else upstream_convert backend weights
