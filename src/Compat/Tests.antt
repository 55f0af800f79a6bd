-- ===== src/Compat/Tests.antt =====
-- A release in the range, and texts whose digits are those of ASCII.
use Prim.Native.Char.{code}
use vllm_sail.Base.{
  ℕ, String, true, ◌&&◌, none, some, refl, false, ◌≡◌, leb, ◌-◌, ◌+◌, ◌*◌, nat_eq, string_eq,
}
use vllm_sail.Compat.Version.{Texts}
use vllm_sail.Compat.Check.{Installed, check_vllm_compatibility}
use vllm_sail.Compat.Queries.{vllm_version_is, vllm_version_at_least, check-at_least}
use vllm_sail.Compat.Range.{IsInRange, check_vllm_compatibility-IsInRange}

abbrev value_from : ℕ → String → ℕ
value_from n String.[] = n
value_from n (String.◌∷◌ c s) = value_from (n * 10 + (code c - 48)) s

abbrev texts : Texts
texts = record {
  is_digit = λ c. leb 48 (code c) && leb (code c) 57;
  int_of = λ s. some (value_from 0 s);
  lower = λ s. s;
}

abbrev release : Installed
release = record { override = none; detected = some "v0.31.2+cu128" }

check_vllm_compatibility-IsInRange_example : IsInRange texts release
unfolding check_vllm_compatibility nat_eq string_eq
check_vllm_compatibility-IsInRange_example =
    check_vllm_compatibility-IsInRange texts release true true refl refl

check-at_least_example :
    (vllm_version_at_least texts release "0.31.0" ≡ some true)
    × (vllm_version_at_least texts release "0.32.0" ≡ some false)
unfolding check_vllm_compatibility nat_eq string_eq
check-at_least_example = check-at_least texts release true true refl refl

-- The text "v0.31.2+cu128" is version 0.31.2.
release_is : vllm_version_is release "0.31.2" ≡ true
unfolding vllm_version_is nat_eq string_eq
release_is = refl
