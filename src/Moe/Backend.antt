-- ===== src/Moe/Backend.antt =====
-- What the oracles of vllm_sail/registry/moe_backends share: enum members, a layer's configuration,
-- the device, and what vLLM's own oracle answers.
use vllm_sail.Base.{String, Bool, Option, none, some, List, [], ◌∷◌, ◌++◌, ◌==◌}
use vllm_sail.Base.{find_first, string_eq, if◌then◌else◌}
use vllm_sail.Base.Names.{Names, lookup, insert}
use vllm_sail.Base.Raising.{Result, ok, raised, value_error, other_error, ◌>>=◌, found}
use vllm_sail.Envs.{Environ}

-- A member of an `Enum`, with its value, which is a text here.
pub record Member : Type 0 where
  pub name : String
  pub value : String

-- The tables in which CPython keeps the members of an `Enum`.
pub record EnumClass : Type 0 where
  pub member_map : Names Member
  pub value2member_map : Names Member
  pub member_names : List String

abbrev add_member : EnumClass → Member → EnumClass
add_member c m = record c {
  member_map = insert m.name m c.member_map;
  value2member_map = insert m.value m c.value2member_map;
  member_names = c.member_names ++ (m.name ∷ []);
}

-- `extend_enum`
unfoldable pub extend_enum : EnumClass → String → String → Member × EnumClass
unfolding lookup insert
extend_enum c name value = elim (lookup name c.member_map) [
  | some m ↦ (m, c)
  | none ↦ let m : Member = record { name = name; value = value } in (m, add_member c m)
]

-- Members and expert classes are told apart by their names.
abbrev pub Backend : Type 0
Backend = String

abbrev pub Kernel : Type 0
Kernel = String

-- vLLM's description of a quantisation.
abbrev pub QuantKey : Type 0
QuantKey = String

-- `FusedMoEActivationFormat`
pub data Format : Type 0 where
  standard batched : Format

-- What the oracles read of a `FusedMoEConfig`. `is_batched` is
-- `moe_parallel_config.use_batched_activation_format`.
pub record MoeConfig : Type 0 where
  pub moe_backend : String
  pub is_batched : Bool
  pub has_bias : Bool

abbrev pub format_of : MoeConfig → Format
format_of c = if c.is_batched then batched else standard

-- `current_platform`, the probes of the libraries, and the environment.
pub record Device : Type 0 where
  pub is_ppu : Bool
  pub is_xpu : Bool
  pub is_capability_80 : Bool
  pub is_deep_gemm_supported : Bool
  pub is_acext_supported : Bool
  pub environ : Environ

abbrev pub Selected : Type 0
Selected = Backend × Kernel

-- What an oracle of vLLM answers that the plugin replaces, and what the expert classes say of a
-- configuration. `Rest` stands for the arguments that are only handed on.
pub record Oracle (Rest : Type 0) : Type 0 where
  pub priorities : MoeConfig → Option QuantKey → Option QuantKey → List Backend
  pub kernels : Backend → Result (List Kernel)
  pub backend_of : String → Result Backend
  pub select : MoeConfig → Option QuantKey → Option QuantKey → Rest → Result Selected
  pub is_supported_config : Kernel → MoeConfig → Option QuantKey → Option QuantKey → Format → Bool

-- The members that the plugin adds to the enums but for MXFP4, and the classes that they stand for.
abbrev pub ppu_deepgemm : Backend
ppu_deepgemm = "PPU_DEEPGEMM"

abbrev pub batched_ppu_deepgemm : Backend
batched_ppu_deepgemm = "BATCHED_PPU_DEEPGEMM"

abbrev pub acext : Backend
acext = "ACEXT"

abbrev pub deep_gemm_experts : Kernel
deep_gemm_experts = "PPUDeepGemmExperts"

abbrev pub batched_deep_gemm_experts : Kernel
batched_deep_gemm_experts = "PPUBatchedDeepGemmExperts"

abbrev pub acext_experts : Kernel
acext_experts = "AcextExperts"

-- `for kernel_cls in kernels: … return backend, kernel_cls` and the `raise` behind it, which reads
-- a `reason` that no round has set where there is no class.
unfoldable pub choose_kernel : (Kernel → Bool) → Backend → List Kernel → Result Selected
choose_kernel supported backend [] = raised other_error
choose_kernel supported backend (k ∷ ks) =
    found (find_first supported (k ∷ ks)) value_error >>= λ kernel. ok (backend, kernel)

-- `backends.insert(backends.index(mark) + 1, …)`, for members in a row.
unfoldable pub insert_after : Backend → List Backend → List Backend → Result (List Backend)
unfolding string_eq
insert_after mark members [] = raised value_error
insert_after mark members (b ∷ bs) =
    if mark == b
    then ok (b ∷ members ++ bs)
    else (insert_after mark members bs >>= λ rest. ok (b ∷ rest))
