-- ===== src/Envs.antt =====
-- The settings of vllm_sail/envs.py: environment variables with the spellings that older releases
-- used, read when they are asked for.
use Prim.Native.Char.{code}
use vllm_sail.Base.{String, ◌<>◌, Bool, true, false, Option, none, some, List, [], ◌∷◌}
use vllm_sail.Base.{◌==◌, contains, any, nat_eq, string_eq, if◌then◌else◌}
use vllm_sail.Base.Names.{Names, lookup}
use vllm_sail.Base.Raising.{Result, ok, raised, value_error}
use vllm_sail.Patch.Path.{is_nonempty}

-- `os.environ`; `str.strip` and `str.lower`, of which the getters use `text.strip().lower()`.
pub record Environ : Type 0 where
  pub variables : Names String
  pub strip : String → String
  pub lower : String → String

-- The text behind a prefix, where it has that prefix.
drop_prefix : String → String → Option String
unfolding nat_eq
drop_prefix String.[] s = some s
drop_prefix (String.◌∷◌ c p) String.[] = none
drop_prefix (String.◌∷◌ c p) (String.◌∷◌ d s) = if code c == code d then drop_prefix p s else none

abbrev pub moe_backend : String
moe_backend = "VLLM_SAIL_MOE_BACKEND"

abbrev profile : String
profile = "VLLM_SAIL_NVTX_PROFILE"

-- The keys of `environment_variables`.
abbrev setting_names : List String
setting_names =
    "PPU_SDK" ∷ "VLLM_GDN_DECODE_KERNEL" ∷ "VLLM_SAIL_FUSED_RMSNORM_QUANT"
    ∷ "VLLM_SAIL_USE_OPT_TOKEN_GROUP_QUANT" ∷ "VLLM_SAIL_DENSE_BF16_DEEPGEMM" ∷ "VLLM_SAIL_USE_PLA"
    ∷ "VLLM_SAIL_DEEPGEMM_MOE_TP_FUSED" ∷ moe_backend ∷ "VLLM_SAIL_DENSE_BACKEND"
    ∷ "VLLM_SAIL_DISABLE_MOE_WNA16_CUDA" ∷ "VLLM_SAIL_FORCE_MOE_WNA16_CUDA"
    ∷ "VLLM_SAIL_ENABLE_MOE_MARLIN" ∷ "VLLM_SAIL_USE_TRITON_INT8_QUANT"
    ∷ "VLLM_SAIL_FUSED_GDN_DECODE" ∷ "VLLM_DEEPEPLL_RECV_HOOK" ∷ profile
    ∷ "VLLM_SAIL_NVTX_DUMP_TOPK" ∷ "VLLM_SAIL_NVTX_VFA_DUMP_SEQLEN" ∷ []

-- `_aliases[name]`, for a key.
aliases_of : String → List String
unfolding drop_prefix string_eq
aliases_of name = elim (drop_prefix "VLLM_SAIL_" name) [
  | none ↦ []
  | some rest ↦ ("VLLM_PPU_" <> rest) ∷ (if name == profile then "SAIL_NVTX_PROFILE" ∷ [] else [])
]

-- `_aliases.get(name, ())`
aliases : String → List String
unfolding aliases_of string_eq
aliases name = if contains setting_names name then aliases_of name else []

-- `_canonical_names.get(name, name)`
canonical_among : List String → String → String
unfolding aliases_of string_eq
canonical_among [] name = name
canonical_among (key ∷ keys) name =
    if contains (aliases_of key) name then key else canonical_among keys name

unfoldable pub env_names : String → List String
unfolding canonical_among aliases
env_names name = let key = canonical_among setting_names name in key ∷ aliases key

unfoldable pub first_set : Names String → List String → Option String
unfolding lookup
first_set variables [] = none
first_set variables (candidate ∷ candidates) = elim (lookup candidate variables) [
  | some raw ↦ some raw
  | none ↦ first_set variables candidates
]

unfoldable pub read_env : Environ → String → Option String
unfolding first_set env_names
read_env e name = first_set e.variables (env_names name)

abbrev truthy : List String
truthy = "true" ∷ "1" ∷ "yes" ∷ "on" ∷ []

unfoldable pub bool_setting : Environ → String → Bool → Bool
unfolding read_env string_eq
bool_setting e name default = elim (read_env e name) [
  | none ↦ default
  | some raw ↦ contains truthy (e.lower (e.strip raw))
]

-- `GEMM_BACKENDS`
abbrev pub gemm_backends : List String
gemm_backends = "deepgemm" ∷ "acext" ∷ "triton" ∷ []

one_of : List String → String → Result (Option String)
unfolding string_eq
one_of choices value = if contains choices value then ok (some value) else raised value_error

unfoldable pub choice : Environ → String → Option String → List String → Result (Option String)
unfolding read_env one_of is_nonempty
choice e name default choices = elim (read_env e name) [
  | none ↦ ok default
  | some raw ↦
      if is_nonempty (e.strip raw) then one_of choices (e.lower (e.strip raw)) else ok default
]

abbrev is_some : Option String → Bool
is_some none = false
is_some (some raw) = true

unfoldable pub is_set : Environ → String → Bool
unfolding env_names lookup
is_set e name = any (λ candidate. is_some (lookup candidate e.variables)) (env_names name)
