-- ===== src/Warmup/Bounds.antt =====
-- The token counts of the relaxed warm-up are in order, positive and bounded.
use Prim.Native.Nat.{max}
use native.Mathlib.Nat.{mul-le-mul}
use vllm_sail.Base.{
  ℕ, zero, suc, ◌*◌, ◌/◌, ◌≤◌, ◌<◌, ◌≡◌, refl, ◌∙◌, Bool, true, false, ◌&&◌, inl, inr,
}
use vllm_sail.Base.{
  List, [], ◌∷◌, ◌++◌, map, arith, all, select, ◌==◌, nat_eq, ltb, leb, Bool-cases,
}
use vllm_sail.Warmup.Values.{
  counting, add_m, sorted_m, small_cases, block_ms, block_ns, waves, multiples, for_blocks,
  for_all_blocks, generate_optimal_warmup_m_values,
}

-- Each number is below the next.
abbrev pub Below : ℕ → List ℕ → Type 0
Below m [] = Unit
Below m (x ∷ xs) = m < x

abbrev pub IsAscending : List ℕ → Type 0
IsAscending [] = Unit
IsAscending (x ∷ xs) = Below x xs × IsAscending xs

add_m-Below : (y m : ℕ) (xs : List ℕ) → y < m → Below y xs → Below y (add_m m xs)
unfolding add_m
add_m-Below y m [] h k = h
add_m-Below y m (x ∷ xs) h k = elim (Bool-cases (m == x)) [
  | inl same ↦ rw same k
  | inr ne ↦ elim (Bool-cases (ltb m x)) [ inl lt ↦ rw (ne, lt) h | inr ge ↦ rw (ne, ge) k ]
]

above : (m x : ℕ) → (m == x) ≡ false → ltb m x ≡ false → x < m
above m x ne ge = ground arith

below : (m x : ℕ) → ltb m x ≡ true → m < x
below m x lt = ground arith

add_m-IsAscending : (m : ℕ) (xs : List ℕ) → IsAscending xs → IsAscending (add_m m xs)
unfolding add_m
add_m-IsAscending m [] s = (tt, tt)
add_m-IsAscending m (x ∷ xs) (b, s) = elim (Bool-cases (m == x)) [
  | inl same ↦ rw same (b, s)
  | inr ne ↦ elim (Bool-cases (ltb m x)) [
    | inl lt ↦ rw (ne, lt) (below m x lt, (b, s))
    | inr ge ↦ rw (ne, ge) (add_m-Below x m xs (above m x ne ge) b, add_m-IsAscending m xs s)
  ]
]

sorted_m-IsAscending : (xs : List ℕ) → IsAscending (sorted_m xs)
unfolding sorted_m
sorted_m-IsAscending [] = tt
sorted_m-IsAscending (x ∷ xs) = add_m-IsAscending x (sorted_m xs) (sorted_m-IsAscending xs)

module _ (p : ℕ → Bool) where
  all-append : (xs ys : List ℕ) → all p (xs ++ ys) ≡ (all p xs && all p ys)
  all-append [] ys = refl
  all-append (x ∷ xs) ys = ground (arith, all-append xs ys)

  all-add_m : (m : ℕ) (xs : List ℕ) → p m ≡ true → all p xs ≡ true → all p (add_m m xs) ≡ true
  unfolding add_m
  all-add_m m [] h k = ground arith
  all-add_m m (x ∷ xs) h k = ground (arith, all-add_m m xs h)

  all-sorted_m : (xs : List ℕ) → all p xs ≡ true → all p (sorted_m xs) ≡ true
  unfolding sorted_m
  all-sorted_m [] h = refl
  all-sorted_m (x ∷ xs) h =
      all-add_m x (sorted_m xs) (ground arith) (all-sorted_m xs (ground arith))

-- At least 1, and at most the given number of tokens or 64.
abbrev pub in_range : ℕ → ℕ → Bool
in_range max_tokens m = leb 1 m && leb m (max 64 max_tokens)

module _ (max_tokens : ℕ) where
  within : (m : ℕ) → (leb 1 m && leb m 64) ≡ true → in_range max_tokens m ≡ true
  within m h = ground arith

  all-within :
      (xs : List ℕ) → all (λ m. leb 1 m && leb m 64) xs ≡ true → all (in_range max_tokens) xs ≡ true
  all-within [] h = refl
  all-within (x ∷ xs) h =
      let here = within x (ground arith) in rw (here, all-within xs (ground arith))

  all-select :
      (xs : List ℕ)
      → all (in_range max_tokens) (select (λ m. leb 1 m && leb m max_tokens) xs) ≡ true
  all-select [] = refl
  all-select (x ∷ xs) = ground (arith, all-select xs)

  -- Multiples that do not exceed the number of tokens.
  all-multiples :
      (block_m first count : ℕ)
      → 1 ≤ block_m
      → 1 ≤ first
      → all
          (in_range max_tokens)
          (select (λ m. leb m max_tokens) (map (λ i. i * block_m) (counting first count)))
        ≡ true
  all-multiples block_m first zero b f = refl
  all-multiples block_m first (suc count) b f =
      let rest = all-multiples block_m (suc first) count b (omega arith) in
      let positive : 1 ≤ first * block_m = mul-le-mul f b in ground arith

  module _ (cdiv : ℕ → ℕ → ℕ) (num_sms n : ℕ) where
    all-for_blocks :
        (block_m : ℕ) (ns : List ℕ)
        → 1 ≤ block_m
        → all (in_range max_tokens) (for_blocks cdiv num_sms max_tokens n block_m ns) ≡ true
    all-for_blocks block_m [] b = refl
    all-for_blocks block_m (block_n ∷ ns) b =
        let rest = all-for_blocks block_m ns b in
        elim (Bool-cases (ltb n block_n)) [
          | inl skipped ↦ rw skipped rest
          | inr taken ↦ rw taken (
              all-append (in_range max_tokens)
                (waves cdiv num_sms max_tokens n block_m block_n
                  ++ multiples cdiv num_sms max_tokens n block_m)
                _
              ∙ rw rest (
                  rw
                    (all-append (in_range max_tokens)
                      (waves cdiv num_sms max_tokens n block_m block_n)
                      (multiples cdiv num_sms max_tokens n block_m))
                    (rw (
                      all-select _,
                      all-multiples block_m 1 (max_tokens / block_m) b (omega arith),
                    ))))
        ]

    all-for_all_blocks :
        (ms : List ℕ)
        → all (leb 1) ms ≡ true
        → all (in_range max_tokens) (for_all_blocks cdiv num_sms max_tokens n ms) ≡ true
    all-for_all_blocks [] h = refl
    all-for_all_blocks (block_m ∷ ms) h =
        let first = for_blocks cdiv num_sms max_tokens n block_m (block_ns n) in
        all-append (in_range max_tokens) first (for_all_blocks cdiv num_sms max_tokens n ms)
        ∙ rw (
          all-for_blocks block_m (block_ns n) (ground arith),
          all-for_all_blocks ms (ground arith),
        )

    all-small : all (in_range max_tokens) small_cases ≡ true
    all-small = all-within small_cases refl

    -- The values of the relaxed warm-up ascend, so none stands twice; each is at least 1, and at
    -- most the larger of 64 and the number of tokens.
    pub generate-IsAscending :
        IsAscending (generate_optimal_warmup_m_values cdiv num_sms max_tokens n)
        × (all (in_range max_tokens) (generate_optimal_warmup_m_values cdiv num_sms max_tokens n)
            ≡ true)
    unfolding generate_optimal_warmup_m_values
    generate-IsAscending =
        let ms = small_cases ++ for_all_blocks cdiv num_sms max_tokens n block_ms in
        (
          sorted_m-IsAscending ms,
          all-sorted_m (in_range max_tokens) ms (
              rw (
                all-append (in_range max_tokens) small_cases
                    (for_all_blocks cdiv num_sms max_tokens n block_ms),
                all-small,
                all-for_all_blocks block_ms refl,
              )),
        )
