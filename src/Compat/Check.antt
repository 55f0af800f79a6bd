-- ===== src/Compat/Check.antt =====
-- `installed_vllm_version` and `check_vllm_compatibility` of vllm_sail/compat.py, without messages
-- and warnings.
use vllm_sail.Base.{
  ℕ, String, Bool, true, false, not, ◌&&◌, Option, none, some, List, if◌then◌else◌,
}
use vllm_sail.Patch.Path.{is_nonempty}
use vllm_sail.Compat.Version.{Texts, strip, version_key, is_dev_build, key_ltb}

-- The environment variable `VLLM_VERSION`, and vLLM's own version where its import works.
pub record Installed : Type 0 where
  pub override : Option String
  pub detected : Option String

abbrev detected_version : Option String → String
detected_version none = "unknown"
detected_version (some v) = v

abbrev pub is_explicit : Option String → Bool
is_explicit none = false
is_explicit (some v) = true

abbrev overridden : Option String → Option String → String
overridden none detected = detected_version detected
overridden (some v) detected = if is_nonempty v then strip v else detected_version detected

-- `installed_vllm_version`
unfoldable pub installed_vllm_version : Installed → String
unfolding strip is_nonempty
installed_vllm_version i = overridden i.override i.detected

-- How the check ends: `unverifiable` and `unsupported` are the two RuntimeErrors, `broken` is another
-- exception.
pub data Verdict : Type 0 where
  supported unverifiable unsupported broken : Verdict

-- The range check, for the lower and the upper bound. The flag says that the version is that of a
-- development build and not given by the variable.
unfoldable pub judge_key : Bool → Option (List ℕ) → List ℕ → List ℕ → Verdict
unfolding key_ltb
judge_key doubtful none low high = unverifiable
judge_key doubtful (some key) low high =
    if doubtful && key_ltb key low
    then unverifiable
    else if not (key_ltb key low) && key_ltb key high
    then supported
    else unsupported

abbrev pub judge_all :
    Bool → Option (Option (List ℕ)) → Option (Option (List ℕ)) → Option (Option (List ℕ)) → Verdict
judge_all doubtful (some key) (some (some low)) (some (some high)) = judge_key doubtful key low high
judge_all _ _ _ _ = broken

-- What the check finds where it does not answer from its cache.
unfoldable pub verdict : Texts → Installed → Verdict
unfolding version_key is_dev_build installed_vllm_version judge_key
verdict t i =
    let version = installed_vllm_version i in
    judge_all (is_dev_build t version && not (is_explicit i.override)) (version_key t version)
      (version_key t "0.31.0") (version_key t "0.32.0")

abbrev pub is_supported : Verdict → Bool
is_supported supported = true
is_supported _ = false

-- `check_vllm_compatibility`, with the new `_checked`.
unfoldable pub check_vllm_compatibility : Texts → Installed → Bool → Bool → Verdict × Bool
unfolding verdict
check_vllm_compatibility t i force checked =
    if checked && not force then (supported, checked) else (verdict t i, is_supported (verdict t i))
