-- ===== src/Moe/Mxfp4.antt =====
-- vllm_sail/registry/moe_backends/mxfp4.py
use vllm_sail.Base.{
  String, ◌<>◌, Bool, true, false, ◌&&◌, ◌||◌, not, Option, none, some, List, [], ◌∷◌,
}
use vllm_sail.Base.{
  ◌++◌, ◌==◌, contains, find_first, map, drop, nat_eq, string_eq, option_eq, if◌then◌else◌,
}
use vllm_sail.Base.Raising.{value_error, not_implemented_error, Result, ok, raised, ◌>>=◌}
use vllm_sail.Select.Config.{starts_with}
use vllm_sail.Moe.Backend.{
  Backend, Kernel, QuantKey, Format, MoeConfig, format_of, Device, Selected, deep_gemm_experts,
  batched_deep_gemm_experts, insert_after,
}

-- What vLLM's oracle answers. `requested` is `_get_requested_backends`, `return_or_raise` and
-- `requires_emulation` are the functions of those names, `resolved` is `_resolve_activation_key`,
-- `filtered` is `_filter_by_activation`, `static_key` and `dynamic_key` are `kMxfp4Static` and
-- `kMxfp4Dynamic`.
pub record Oracle : Type 0 where
  pub gpt_oss_priorities : List Backend
  pub priorities : List Backend
  pub kernels : Backend → Result (List Kernel)
  pub backends_of : String → Result (List Backend)
  pub activation_key_of : Backend → Option QuantKey
  pub requested : String → Option QuantKey → Result (List Backend)
  pub resolved : Option QuantKey → Option QuantKey
  pub filtered : List Backend → Option QuantKey → List Backend
  pub requires_emulation : MoeConfig → Option QuantKey → Bool
  pub return_or_raise : Backend → MoeConfig → QuantKey → Option QuantKey → Format → Result Selected
  pub is_supported_config : Kernel → MoeConfig → Option QuantKey → Option QuantKey → Format → Bool
  pub select_deepseek_v4 : MoeConfig → Result Selected
  pub static_key : QuantKey
  pub dynamic_key : QuantKey

abbrev pub w4a4 : Backend
w4a4 = "PPU_DEEPGEMM_MXFP4"

abbrev pub batched_w4a4 : Backend
batched_w4a4 = "BATCHED_PPU_DEEPGEMM_MXFP4"

abbrev pub mma : Backend
mma = "PPU_DEEPGEMM_MXFP4_BF16_MMA"

abbrev pub batched_mma : Backend
batched_mma = "BATCHED_PPU_DEEPGEMM_MXFP4_BF16_MMA"

abbrev pub bf16 : Backend
bf16 = "PPU_DEEPGEMM_MXFP4_BF16"

abbrev pub batched_bf16 : Backend
batched_bf16 = "BATCHED_PPU_DEEPGEMM_MXFP4_BF16"

-- `_PPU_CANDIDATES`
abbrev pub ppu_candidates : List Backend
ppu_candidates = w4a4 ∷ batched_w4a4 ∷ mma ∷ batched_mma ∷ bf16 ∷ batched_bf16 ∷ []

-- `text.endswith(suffix)`
ends_with : String → String → Bool
unfolding string_eq
ends_with String.[] suffix = suffix == String.[]
ends_with (String.◌∷◌ c s) suffix = if String.◌∷◌ c s == suffix then true else ends_with s suffix

-- `_batched_backend_map.get(b, b)`
unfoldable pub batched_backend : Backend → Backend
unfolding string_eq
batched_backend b =
    if b == "MARLIN"
    then "BATCHED_MARLIN"
    else if b == w4a4
    then batched_w4a4
    else if b == bf16
    then batched_bf16
    else if b == mma
    then batched_mma
    else b

-- The first candidate that `return_or_raise` takes. Only a ValueError lets the loop go on; behind
-- the last candidate the last one is raised again.
unfoldable pub try_each : (Backend → Result Selected) → List Backend → Result Selected
try_each attempt [] = raised value_error
try_each attempt (b ∷ bs) = elim (attempt b) [
  | ok s ↦ ok s
  | raised value_error ↦ try_each attempt bs
  | raised e ↦ raised e
]

module _ (d : Device) (o : Oracle) where
  unfoldable pub backend_to_kernel_cls : Backend → Result (List Kernel)
  unfolding ends_with starts_with string_eq nat_eq
  backend_to_kernel_cls backend =
      if backend == w4a4
      then ok ("PPUDeepGemmExpertsMXFP4" ∷ [])
      else if backend == batched_w4a4
      then ok ("PPUBatchedDeepGemmExpertsMXFP4" ∷ [])
      else if contains (drop 2 ppu_candidates) backend
      then (let name =
            if starts_with backend "BATCHED_"
            then batched_deep_gemm_experts
            else deep_gemm_experts in
          ok ((if ends_with backend "_MMA" then name <> "W4FA16MMA" else name) ∷ []))
      else o.kernels backend

  unfoldable pub map_mxfp4_backend : String → Result (List Backend)
  unfolding string_eq
  map_mxfp4_backend runner_backend =
      if runner_backend == "ppu_deep_gemm"
      then ok (w4a4 ∷ [])
      else if runner_backend == "ppu_deep_gemm_w4a16"
      then ok (mma ∷ bf16 ∷ [])
      else o.backends_of runner_backend

  abbrev pub lacks_ppu : List Backend → Bool
  lacks_ppu backends = d.is_ppu && not (contains backends w4a4)

  unfoldable pub get_priority_backends_for_gpt_oss : List Backend
  unfolding string_eq
  get_priority_backends_for_gpt_oss =
      if lacks_ppu o.gpt_oss_priorities
      then ppu_candidates ++ o.gpt_oss_priorities
      else o.gpt_oss_priorities

  unfoldable pub get_priority_backends : Result (List Backend)
  unfolding insert_after string_eq
  get_priority_backends =
      if lacks_ppu o.priorities
      then insert_after "DEEPGEMM_MXFP4" ppu_candidates o.priorities
      else ok o.priorities

  unfoldable pub backend_activation_key : Backend → Option QuantKey
  unfolding string_eq
  backend_activation_key backend =
      if contains (w4a4 ∷ batched_w4a4 ∷ []) backend
      then some o.dynamic_key
      else o.activation_key_of backend

  -- One round of the loop over the requested backends.
  unfoldable pub attempt : MoeConfig → Option QuantKey → Backend → Result Selected
  unfolding backend_activation_key string_eq
  attempt c key b =
      o.return_or_raise b c o.static_key
        (if b == "EMULATION" then key else backend_activation_key b) (format_of c)

  abbrev pub candidates : MoeConfig → List Backend → List Backend
  candidates c requested = if c.is_batched then map batched_backend requested else requested

  abbrev is_absent : Option QuantKey → Bool
  is_absent none = true
  is_absent (some k) = false

  -- One round of the loop over the available backends: their first class that fits.
  unfoldable pub first_fit : MoeConfig → Option QuantKey → Backend → Result (Option Kernel)
  unfolding backend_to_kernel_cls backend_activation_key
  first_fit c key b =
      let act_key = if is_absent key then backend_activation_key b else key in
      backend_to_kernel_cls b >>= λ ks.
      ok (find_first (λ k. o.is_supported_config k c (some o.static_key) act_key (format_of c)) ks)

  unfoldable pub first_available :
      MoeConfig → Option QuantKey → List Backend → Result (Option Selected)
  unfolding first_fit
  first_available c key [] = ok none
  first_available c key (b ∷ bs) = elim (first_fit c key b) [
    | raised e ↦ raised e
    | ok none ↦ first_available c key bs
    | ok (some k) ↦ ok (some (b, k))
  ]

  -- What is left where no available backend fits.
  abbrev fall_back : MoeConfig → Option Selected → Result Selected
  fall_back c (some s) = ok s
  fall_back c none =
      if d.is_xpu
      then o.return_or_raise "XPU" c o.static_key none (format_of c)
      else raised not_implemented_error

  unfoldable pub select_automatically : MoeConfig → Option QuantKey → Result Selected
  unfolding first_available get_priority_backends_for_gpt_oss
  select_automatically c key =
      if o.requires_emulation c key
      then o.return_or_raise "EMULATION" c o.static_key key (format_of c)
      else (first_available c key (o.filtered get_priority_backends_for_gpt_oss key)
          >>= fall_back c)

  unfoldable pub select_mxfp4_moe_backend : MoeConfig → Option QuantKey → Result Selected
  unfolding try_each attempt batched_backend select_automatically string_eq
  select_mxfp4_moe_backend c activation_key =
      let key = o.resolved activation_key in
      if c.moe_backend == "auto"
      then select_automatically c key
      else (o.requested c.moe_backend key >>= λ bs. try_each (attempt c key) (candidates c bs))

  unfoldable pub select_deepseek_v4_mxfp4_moe_backend : MoeConfig → Result Selected
  unfolding select_mxfp4_moe_backend string_eq
  select_deepseek_v4_mxfp4_moe_backend c =
      if d.is_ppu
      then select_mxfp4_moe_backend c (
          if d.is_capability_80 || contains ("marlin" ∷ "ppu_deep_gemm_w4a16" ∷ []) c.moe_backend
          then none
          else some o.dynamic_key)
      else o.select_deepseek_v4 c
