-- ===== src/Compat/Range.antt =====
-- Which versions `check_vllm_compatibility` of vllm_sail/compat.py accepts, and what it remembers.
use vllm_sail.Base.{
  ℕ, Bool, true, false, not, ◌&&◌, Option, none, some, List, ◌≡◌, refl, ap, if◌then◌else◌,
}
use vllm_sail.Compat.Version.{Texts, version_key, is_dev_build, key_ltb}
use vllm_sail.Compat.Check.{
  Installed, installed_vllm_version, is_explicit, supported, unverifiable, unsupported, judge_key,
  judge_all, verdict, check_vllm_compatibility,
}

-- The version's key lies between the two bounds.
pub record IsInRange (t : Texts) (i : Installed) : Type 0 where
  pub key : List ℕ
  pub low : List ℕ
  pub high : List ℕ
  pub key_is : version_key t (installed_vllm_version i) ≡ some (some key)
  pub low_is : version_key t "0.31.0" ≡ some (some low)
  pub high_is : version_key t "0.32.0" ≡ some (some high)
  pub not_below : key_ltb key low ≡ false
  pub below : key_ltb key high ≡ true

in_bounds :
    (doubtful below above : Bool)
    → (if doubtful && below
        then unverifiable
        else if not below && above
        then supported
        else unsupported)
      ≡ supported
    → (below ≡ false) × (above ≡ true)
in_bounds true true above h = cc
in_bounds false true above h = cc
in_bounds true false true h = (refl, refl)
in_bounds true false false h = cc
in_bounds false false true h = (refl, refl)
in_bounds false false false h = cc

judge_key-supported :
    (doubtful : Bool) (o : Option (List ℕ)) (low high : List ℕ)
    → judge_key doubtful o low high ≡ supported
    → (key : List ℕ) × (o ≡ some key) × (key_ltb key low ≡ false) × (key_ltb key high ≡ true)
unfolding judge_key
judge_key-supported doubtful none low high h = cc
judge_key-supported doubtful (some key) low high h =
    let (above, below) = in_bounds doubtful (key_ltb key low) (key_ltb key high) h in
    (key, refl, above, below)

-- What a good judgement has read.
abbrev Reads :
    Option (Option (List ℕ)) → Option (Option (List ℕ)) → Option (Option (List ℕ)) → Type 0
Reads k l h =
    (key : List ℕ) × (low : List ℕ) × (high : List ℕ) × (k ≡ some (some key))
    × (l ≡ some (some low))
    × (h ≡ some (some high))
    × (key_ltb key low ≡ false)
    × (key_ltb key high ≡ true)

judge_all-Reads :
    (doubtful : Bool) (k l h : Option (Option (List ℕ)))
    → judge_all doubtful k l h ≡ supported
    → Reads k l h
judge_all-Reads doubtful (some k) (some (some low)) (some (some high)) e =
    let (key, q, above, below) = judge_key-supported doubtful k low high e in
    (key, low, high, ap some q, refl, refl, above, below)
judge_all-Reads doubtful none l h e = cc
judge_all-Reads doubtful (some k) none h e = cc
judge_all-Reads doubtful (some k) (some none) h e = cc
judge_all-Reads doubtful (some k) (some (some low)) none e = cc
judge_all-Reads doubtful (some k) (some (some low)) (some none) e = cc

verdict-IsInRange : (t : Texts) (i : Installed) → verdict t i ≡ supported → IsInRange t i
unfolding verdict
verdict-IsInRange t i h =
    let (key, low, high, a, b, c, d, e) =
      judge_all-Reads (is_dev_build t (installed_vllm_version i) && not (is_explicit i.override))
        (version_key t (installed_vllm_version i)) (version_key t "0.31.0") (version_key t "0.32.0")
        h in
    record {
      key = key;
      low = low;
      high = high;
      key_is = a;
      low_is = b;
      high_is = c;
      not_below = d;
      below = e;
    }

-- Where the check is forced or no earlier one is remembered, and it returns, the key of the installed
-- version lies in the supported range: it is not below that of 0.31.0, and below that of 0.32.0.
pub check_vllm_compatibility-IsInRange :
    (t : Texts) (i : Installed) (force checked : Bool)
    → (checked && not force) ≡ false
    → (check_vllm_compatibility t i force checked).0 ≡ supported
    → IsInRange t i
unfolding check_vllm_compatibility
check_vllm_compatibility-IsInRange t i force checked fresh h = verdict-IsInRange t i (rw fresh at h)
