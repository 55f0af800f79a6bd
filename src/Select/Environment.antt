-- ===== src/Select/Environment.antt =====
-- `validate_environment`, `validate_fingerprint` and `validate_runtime_profile` of
-- scripts/ci/ppu_ops_select.py.
use vllm_sail.Base.{ℕ, String, Bool, true, false, not, ◌&&◌, ◌||◌, Option, none, some}
use vllm_sail.Base.{
  List, [], ◌∷◌, map, ◌==◌, Eq, string_eq, nat_eq, list_eq, option_eq, leb, length, contains, any,
  all, select,
}
use vllm_sail.Base.Failing.{◌>>=◌, ◌>>◌, require}
use vllm_sail.Patch.Path.{is_nonblank}
use vllm_sail.Select.Formats.{is_sha256, digest_image, sha, decimal}
use vllm_sail.Select.Config.{known_boards, starts_with}

-- What was built. The hashes and the architectures may be missing in an observed build.
pub record Fingerprint : Type 0 where
  pub sdk_sha256 : Option String
  pub torch_sha256 : Option String
  pub pytorch_sail_arch : Option (List String)
  pub build_image : String
  pub vllm_commit : String

Fingerprint-discrete : Discrete Fingerprint
unfolding option_eq
Fingerprint-discrete =
    hlevel (
      string_eq.dec,
      (option_eq ⦃e = string_eq⦄).dec,
      (option_eq ⦃e = list_eq ⦃e = string_eq⦄⦄).dec,
    )

instance unfoldable pub fingerprint_eq : Eq Fingerprint
unfolding Fingerprint-discrete
fingerprint_eq = record { dec = Fingerprint-discrete }

-- `packages` holds the versions of torch, triton and pla, and `uses_pla` tells whether `runtime_env`
-- is the one that the code wants.
pub record RuntimeProfile : Type 0 where
  pub board : String
  pub capability : List ℕ
  pub sdk_identity : String
  pub driver_identity : String
  pub packages : List String
  pub uses_pla : Bool

pub record Evidence : Type 0 where
  pub board : String
  pub run_id : String
  pub run_attempt : String
  pub tested_sha : String
  pub run_url : String

pub record EnvironmentFile : Type 0 where
  pub schema : ℕ
  pub qualified : Bool
  pub build : Option Fingerprint
  pub runtime_image : Option String
  pub profiles : List RuntimeProfile
  pub evidence : List Evidence

abbrev is_hash : Option String → Bool
is_hash none = false
is_hash (some s) = is_sha256 s

unfoldable pub validate_fingerprint : Fingerprint → Option (Unit {0})
unfolding is_sha256 list_eq string_eq option_eq digest_image sha
validate_fingerprint b = do
  require (is_hash b.sdk_sha256)
  require (is_hash b.torch_sha256)
  require (b.pytorch_sail_arch == some ("ppu_10" ∷ "ppu_15" ∷ []))
  _ ← digest_image b.build_image
  _ ← sha b.vllm_commit
  some tt

-- `lower` is `str.lower`, of which nothing is assumed.
module _ (lower : String → String) where
  is_known : String → Bool
  unfolding is_nonblank string_eq
  is_known s = is_nonblank s && not (lower s == "unknown")

  unfoldable pub is_valid_runtime_profile : RuntimeProfile → Bool
  unfolding is_known nat_eq
  is_valid_runtime_profile p =
      length p.capability == 2
      && is_known p.sdk_identity
      && is_known p.driver_identity
      && length p.packages == 3
      && all is_known p.packages
      && p.uses_pla

  abbrev optional : {A B : Type 0} → (A → Option B) → Option A → Option (Unit {0})
  optional check none = some tt
  optional check (some a) = check a >>= λ _. some tt

  same_run : Evidence → Evidence → Bool
  unfolding string_eq
  same_run a b = a.board == b.board && a.run_id == b.run_id && a.run_attempt == b.run_attempt

  -- The loop over the evidence, with the records that were seen.
  check_evidence : List Evidence → List Evidence → Option (Unit {0})
  unfolding same_run decimal sha starts_with string_eq
  check_evidence seen [] = some tt
  check_evidence seen (r ∷ rs) =
      let rest = check_evidence (r ∷ seen) rs in
      do
        require (contains known_boards r.board)
        _ ← decimal r.run_id
        _ ← decimal r.run_attempt
        _ ← sha r.tested_sha
        require (starts_with r.run_url "https://")
        require (not (any (same_run r) seen))
        rest

  abbrev runs_of : String → List Evidence → List Evidence
  runs_of board = select (λ r. r.board == board)

  abbrev is_some : {A : Type 0} → Option A → Bool
  is_some none = false
  is_some (some a) = true

  -- What a qualified environment has.
  is_qualified : EnvironmentFile → Bool
  unfolding string_eq
  is_qualified e =
      is_some e.build
      && is_some e.runtime_image
      && all (contains (map (λ p. p.board) e.profiles)) known_boards
      && all (λ board. leb 3 (length (runs_of board e.evidence))) known_boards

  -- `validate_environment`
  unfoldable pub validate_environment : EnvironmentFile → Option Bool
  unfolding validate_fingerprint digest_image is_valid_runtime_profile check_evidence is_qualified
  validate_environment e = do
    require (e.schema == 1)
    optional validate_fingerprint e.build
    optional digest_image e.runtime_image
    require (all (contains known_boards) (map (λ p. p.board) e.profiles))
    require (all is_valid_runtime_profile e.profiles)
    check_evidence [] e.evidence
    require (not e.qualified || is_qualified e)
    some e.qualified
