-- ===== src/Compat/Queries.antt =====
-- `vllm_version_is` and `vllm_version_at_least` of vllm_sail/compat.py. `none` stands for the ValueError of
-- `int`.
use Prim.Native.Char.{code}
use vllm_sail.Base.{
  ℕ, String, Bool, true, false, not, ◌&&◌, Option, none, some, List, ◌==◌, nat_eq, string_eq, ◌≡◌,
  refl,
}
use vllm_sail.Base.Failing.{◌>>=◌}
use vllm_sail.Compat.Version.{Texts, lstrip, up_to, version_key, key_ltb}
use vllm_sail.Compat.Check.{Installed, installed_vllm_version, check_vllm_compatibility, supported}
use vllm_sail.Compat.Range.{check_vllm_compatibility-IsInRange}

-- `vllm_version_is`
unfoldable pub vllm_version_is : Installed → String → Bool
unfolding installed_vllm_version lstrip up_to string_eq nat_eq
vllm_version_is i target =
    up_to (λ c. code c == b'+') (lstrip (λ c. code c == b'v') (installed_vllm_version i))
    == lstrip (λ c. code c == b'v') target

abbrev is_at_least : Option (List ℕ) → Option (List ℕ) → Bool
is_at_least none wanted = false
is_at_least (some current) none = false
is_at_least (some current) (some wanted) = not (key_ltb current wanted)

-- `vllm_version_at_least`
unfoldable pub vllm_version_at_least : Texts → Installed → String → Option Bool
unfolding version_key installed_vllm_version key_ltb
vllm_version_at_least t i target = do
  current ← version_key t (installed_vllm_version i)
  wanted ← version_key t target
  some (is_at_least current wanted)

-- Where the check is forced or no earlier one is remembered, and it returns, `vllm_version_at_least`
-- answers True for the lower bound 0.31.0, and False for the upper bound 0.32.0.
pub check-at_least :
    (t : Texts) (i : Installed) (force checked : Bool)
    → (checked && not force) ≡ false
    → (check_vllm_compatibility t i force checked).0 ≡ supported
    → (vllm_version_at_least t i "0.31.0" ≡ some true)
      × (vllm_version_at_least t i "0.32.0" ≡ some false)
unfolding vllm_version_at_least
check-at_least t i force checked fresh h =
    let r = check_vllm_compatibility-IsInRange t i force checked fresh h in
    (rw (r.key_is, r.low_is, r.not_below) refl, rw (r.key_is, r.high_is, r.below) refl)
