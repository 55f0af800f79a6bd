-- ===== src/Warmup/Coverage.antt =====
-- Which token counts the ranks of a node warm up together.
use native.Mathlib.Omega.{div_any}
use native.Mathlib.Nat.{mul-le-mul_right, mul-div-le, suc-mul, zero-mul, min-eq_right, mod-eq_of_lt}
use vllm_sail.Base.{ℕ, zero, suc, ◌+◌, ◌*◌, ◌/◌, ◌%◌, ◌-◌, ◌≤◌, ◌≡◌, refl, sym, false, ◌<◌, ◌∙◌, ap}
use vllm_sail.Base.{List, [], ◌∷◌, ◌++◌, arith, length, take, drop, leb}
use vllm_sail.Warmup.Layout.{shard_m_values}

-- The shards of the first ranks, one behind another.
abbrev pub shards : ℕ → ℕ → List ℕ → List ℕ
shards zero world_size ms = []
shards (suc rank) world_size ms = shards rank world_size ms ++ shard_m_values rank world_size ms

module _ {ℓ} {A : Type ℓ} where
  take-split : (m k : ℕ) (xs : List A) → m ≤ k → take k xs ≡ take m xs ++ drop m (take k xs)
  take-split zero k xs h = refl
  take-split (suc m) zero xs h = absurd (omega arith)
  take-split (suc m) (suc k) [] h = refl
  take-split (suc m) (suc k) (x ∷ xs) h =
      ap (λ (r : List A). x ∷ r) (take-split m k xs (omega arith))

  take-empty : (n : ℕ) → take {A = A} n [] ≡ []
  take-empty zero = refl
  take-empty (suc n) = refl

  drop-empty : (n : ℕ) → drop {A = A} n [] ≡ []
  drop-empty zero = refl
  drop-empty (suc n) = refl

  take-all : (n : ℕ) (xs : List A) → length xs ≤ n → take n xs ≡ xs
  take-all zero [] h = refl
  take-all zero (x ∷ xs) h = absurd (omega arith)
  take-all (suc n) [] h = refl
  take-all (suc n) (x ∷ xs) h = ap (λ (r : List A). x ∷ r) (take-all n xs (omega arith))

in_bounds :
    (rank world_size count : ℕ)
    → suc rank ≤ world_size
    → rank * (count / world_size) + count / world_size ≤ count
in_bounds rank world_size count below =
    let chunk = count / world_size in
    omega (arith, mul-le-mul_right chunk below, suc-mul rank chunk, mul-div-le count world_size)

shard-eq-slice :
    (rank world_size : ℕ) (ms : List ℕ)
    → 2 ≤ world_size
    → suc rank ≤ world_size
    → shard_m_values rank world_size ms
      ≡ drop
          (rank * (length ms / world_size))
          (take (rank * (length ms / world_size) + length ms / world_size) ms)
unfolding shard_m_values
shard-eq-slice rank world_size [] two below =
    let several : leb world_size 1 ≡ false = ground arith in
    rw several (rw (take-empty, drop-empty))
shard-eq-slice rank world_size (m ∷ ms) two below =
    let several : leb world_size 1 ≡ false = ground arith in
    rw several (rw (min-eq_right (in_bounds rank world_size (length (m ∷ ms)) below)))

shards-eq-take_first :
    (rank world_size : ℕ) (ms : List ℕ)
    → 2 ≤ world_size
    → rank ≤ world_size
    → shards rank world_size ms ≡ take (rank * (length ms / world_size)) ms
shards-eq-take_first zero world_size ms two below = rw (zero-mul (length ms / world_size))
shards-eq-take_first (suc rank) world_size ms two below =
    let chunk = length ms / world_size in
    rw
      (
        shards-eq-take_first rank world_size ms two (omega arith),
        shard-eq-slice rank world_size ms two below,
        suc-mul rank chunk,
      )
      (sym (take-split (rank * chunk) (rank * chunk + chunk) ms (omega arith)))

-- What all ranks of a node warm up, where there are two or more: the values but the last few, as many
-- as the remainder of the values' number by the ranks' number.
pub shards-eq-take :
    (world_size : ℕ) (ms : List ℕ)
    → 2 ≤ world_size
    → shards world_size world_size ms ≡ take (length ms - length ms % world_size) ms
shards-eq-take world_size ms two =
    shards-eq-take_first world_size world_size ms two (omega arith)
    ∙ ap (λ (k : ℕ). take k ms) (omega (arith, div_any (length ms) world_size))

-- Where there are more ranks than values, no rank warms up anything.
pub shards_few :
    (world_size : ℕ) (ms : List ℕ)
    → 2 ≤ world_size
    → length ms < world_size
    → shards world_size world_size ms ≡ []
shards_few world_size ms two few =
    let none_left : length ms - length ms % world_size ≡ 0 =
      omega (arith, mod-eq_of_lt {n = length ms} {m = world_size} few) in
    shards-eq-take world_size ms two ∙ rw none_left
