-- ===== src/Moe/Wna16.antt =====
-- vllm_sail/registry/moe_backends/int_wna16.py
use vllm_sail.Base.{ℕ, String, Bool, true, false, ◌&&◌, ◌||◌, not, Option, none, some, List, []}
use vllm_sail.Base.{◌∷◌, ◌++◌, ◌==◌, contains, nat_eq, string_eq, option_eq, if◌then◌else◌}
use vllm_sail.Base.Raising.{
  Result, ok, raised, value_error, assertion_error, ◌>>=◌, ◌>>◌, require, found,
}
use vllm_sail.Moe.Backend.{
  Backend, Kernel, QuantKey, Format, standard, batched, MoeConfig, Device, Selected, Oracle,
  ppu_deepgemm, batched_ppu_deepgemm, deep_gemm_experts, batched_deep_gemm_experts, choose_kernel,
}

-- What is read of a quantisation: `has_known_type` is whether it is an `AutoGPTQConfig` or a
-- `QuantizationArgs`, and an attribute that it lacks has its default.
pub record QuantConfig : Type 0 where
  pub has_known_type : Bool
  pub desc_act : Bool
  pub actorder : Option String
  pub group_size : ℕ

-- The arguments behind the weight key.
pub record Needs : Type 0 where
  pub quant_config : QuantConfig
  pub may_have_zp : Bool
  pub may_have_bias : Bool
  pub allow_tile_padding : Bool

-- Why a backend is refused, in the order in which the tests stand.
pub data Reason : Type 0 where
  zero_points_or_bias : Reason
  weight_format : Reason
  activation_ordering : Reason
  activation_packing : Reason
  tile_dimensions : Reason
  upstream_reason : String → Reason

-- `(envs.VLLM_MARLIN_INPUT_DTYPE or "").lower()`, `supports_marlin_layout` with groups of 32, and
-- vLLM's own reasons.
pub record Packing : Type 0 where
  pub marlin_input_dtype : String
  pub supports_marlin_layout : MoeConfig → ℕ → Bool → Bool
  pub upstream_reason_of : Backend → MoeConfig → Needs → Option String

abbrev pub ppu_aliases : List String
ppu_aliases = "ppu_deep_gemm" ∷ "ppu_deep_gemm_w4a16" ∷ []

unfoldable pub is_ppu_backend : Backend → Bool
unfolding string_eq
is_ppu_backend = contains (ppu_deepgemm ∷ batched_ppu_deepgemm ∷ [])

-- The five tests for the plugin's members.
unfoldable pub ppu_reason : Packing → MoeConfig → Needs → Option Reason
unfolding string_eq option_eq nat_eq
ppu_reason p c n =
    let q = n.quant_config in
    if n.may_have_zp || n.may_have_bias || c.has_bias
    then some zero_points_or_bias
    else if not q.has_known_type
    then some weight_format
    else if q.desc_act || q.actorder == some "group" || q.actorder == some "dynamic"
    then some activation_ordering
    else if contains ("int8" ∷ "fp8" ∷ []) p.marlin_input_dtype
    then some activation_packing
    else if not (q.group_size == 32) || not (p.supports_marlin_layout c 32 n.allow_tile_padding)
    then some tile_dimensions
    else none

abbrev of_upstream : Option String → Option Reason
of_upstream none = none
of_upstream (some why) = some (upstream_reason why)

unfoldable pub backend_incompatibility_reason :
    Packing → Backend → MoeConfig → Needs → Option Reason
unfolding is_ppu_backend ppu_reason
backend_incompatibility_reason p backend c n =
    if is_ppu_backend backend
    then ppu_reason p c n
    else of_upstream (p.upstream_reason_of backend c n)

abbrev is_none : Option Reason → Bool
is_none none = true
is_none (some why) = false

module _ (d : Device) (o : Oracle Needs) (p : Packing) where
  unfoldable pub backend_to_kernel_cls : Backend → Result (List Kernel)
  unfolding string_eq
  backend_to_kernel_cls backend =
      if backend == ppu_deepgemm
      then ok (deep_gemm_experts ∷ [])
      else if backend == batched_ppu_deepgemm
      then ok (batched_deep_gemm_experts ∷ [])
      else o.kernels backend

  unfoldable pub get_priority_backends : MoeConfig → List Backend
  get_priority_backends c =
      if d.is_ppu
      then ppu_deepgemm ∷ batched_ppu_deepgemm ∷ "MARLIN" ∷ "BATCHED_MARLIN" ∷ "TRITON" ∷ "HUMMING"
        ∷ "EMULATION" ∷ []
      else o.priorities c none none

  unfoldable pub map_wna16_backend : String → Result Backend
  unfolding string_eq
  map_wna16_backend runner_backend =
      if contains ppu_aliases runner_backend then ok ppu_deepgemm else o.backend_of runner_backend

  unfoldable pub select_batched_ppu_backend : MoeConfig → Option QuantKey → Needs → Result Selected
  unfolding backend_incompatibility_reason backend_to_kernel_cls choose_kernel
  select_batched_ppu_backend c weight_key n = do
    require (is_none (backend_incompatibility_reason p batched_ppu_deepgemm c n)) value_error
    kernels ← backend_to_kernel_cls batched_ppu_deepgemm
    choose_kernel (λ k. o.is_supported_config k c weight_key none batched) batched_ppu_deepgemm
        kernels

  unfoldable pub select_wna16_moe_backend : MoeConfig → Option QuantKey → Needs → Result Selected
  unfolding select_batched_ppu_backend string_eq
  select_wna16_moe_backend c weight_key n =
      if contains ppu_aliases c.moe_backend && c.is_batched
      then select_batched_ppu_backend c weight_key n
      else o.select c weight_key none n

  abbrev listed_experts : List Kernel
  listed_experts =
      "MarlinExperts" ∷ "BatchedMarlinExperts" ∷ "TritonWNA16Experts" ∷ deep_gemm_experts
      ∷ batched_deep_gemm_experts ∷ "TrtLlmMxint4ExpertsMonolithic" ∷ "XPUExpertsWNA16"
      ∷ "CPUExpertsInt4" ∷ "ZentorchExpertsInt4" ∷ "Int4EmulationTritonExperts"
      ∷ "Rdna3WNA16Experts" ∷ []

  unfoldable pub allowed_experts : Backend → Result (List Kernel)
  unfolding backend_to_kernel_cls string_eq
  allowed_experts backend =
      if backend == "HUMMING"
      then (backend_to_kernel_cls "HUMMING" >>= λ more. ok (listed_experts ++ more))
      else ok listed_experts

-- vLLM's conversion is asked to pack for Marlin where a member of the plugin is used.
unfoldable pub convert_to_wna16_moe_kernel_format {ℓ} :
    {W : Type ℓ} → (Backend → W → Result W) → Backend → W → Result W
unfolding is_ppu_backend
convert_to_wna16_moe_kernel_format upstream_convert backend weights =
    upstream_convert (if is_ppu_backend backend then "MARLIN" else backend) weights

-- What `maybe_make_prepare_finalize` gives: its format, and what it answers on its size.
pub record Prepared : Type 0 where
  pub format : Format
  pub max_num_tokens : Option ℕ
  pub num_dispatchers : ℕ

-- A `FusedMoEKernel`: the class of its experts, and the arguments that depend on the format.
pub record MoeKernel : Type 0 where
  pub experts : Kernel
  pub extra_args : Option (ℕ × ℕ)

unfoldable pub extra_args_of : Prepared → Format → Result (Option (ℕ × ℕ))
extra_args_of p standard = ok none
extra_args_of p batched = elim p.max_num_tokens [
  | none ↦ raised assertion_error
  | some n ↦ ok (some (n, p.num_dispatchers))
]

module _ (d : Device) (o : Oracle Needs) (p : Packing) where
  unfoldable pub make_wna16_moe_kernel :
      (Kernel → Option Prepared) → Kernel → Backend → Result MoeKernel
  unfolding allowed_experts extra_args_of string_eq
  make_wna16_moe_kernel prepare experts backend = do
    allowed ← allowed_experts d o p backend
    require (contains allowed experts) assertion_error
    prepared ← found (prepare experts) assertion_error
    extra ← extra_args_of prepared prepared.format
    ok (record { experts = experts; extra_args = extra })
