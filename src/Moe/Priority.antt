-- ===== src/Moe/Priority.antt =====
-- The candidates that the oracles of vllm_sail/registry/moe_backends try, beside vLLM's own.
use vllm_sail.Base.{◌≡◌, refl, ◌∙◌, Bool, true, false, ◌||◌, not, Option, List, []}
use vllm_sail.Base.{◌∷◌, ◌++◌, ◌==◌, select, all, contains, string_eq, arith, Bool-cases, inl, inr}
use vllm_sail.Base.{none, String, option_eq}
use vllm_sail.Base.{◌&&◌, some}
use vllm_sail.Base.Sorting.{contains-append, contains-select}
use vllm_sail.Base.Raising.{ok, then_ok, ok-injective}
use vllm_sail.Moe.Backend.{
  Backend, QuantKey, MoeConfig, Device, Oracle, ppu_deepgemm, batched_ppu_deepgemm, acext,
  insert_after,
}
use vllm_sail.Moe.Fp8
use vllm_sail.Moe.Int8
use vllm_sail.Moe.Mxfp4

-- What is left of a list behind the removal of some members.
abbrev pub without : List Backend → List Backend → List Backend
without gone = select (λ b. not (contains gone b))

without-append :
    (gone xs ys : List Backend) → without gone (xs ++ ys) ≡ without gone xs ++ without gone ys
without-append gone [] ys = refl
without-append gone (x ∷ xs) ys = ground (arith, without-append gone xs ys)

without_gone :
    (gone ms xs : List Backend)
    → all (contains gone) ms ≡ true
    → without gone (ms ++ xs) ≡ without gone xs
without_gone gone [] xs h = refl
without_gone gone (m ∷ ms) xs h = ground (arith, without_gone gone ms xs)

insert_after_lem :
    (mark : Backend) (ms xs r : List Backend)
    → insert_after mark ms xs ≡ ok r
    → ((gone : List Backend) → all (contains gone) ms ≡ true → without gone r ≡ without gone xs)
      × ((x : Backend) → contains r x ≡ (contains ms x || contains xs x))
unfolding insert_after
insert_after_lem mark ms [] r h = cc
insert_after_lem mark ms (x ∷ xs) r h = elim (Bool-cases (mark == x)) [
  | inl same ↦
      let e = ok-injective (x ∷ ms ++ xs) r (rw same at h) in
      (
        λ gone all. rw (← e) (ground (arith, without_gone gone ms xs)),
        λ y. rw (← e) (ground (arith, contains-append ms xs y)),
      )
  | inr other ↦
      let (rest, k, q) =
        then_ok (insert_after mark ms xs) (λ rest. ok (x ∷ rest)) (rw other at h) in
      let e = ok-injective (x ∷ rest) r q in
      let (kept, has) = insert_after_lem mark ms xs rest k in
      (λ gone all. rw (← e) (ground (arith, kept gone all)), λ y. rw (← e) (ground (arith, has y)))
]

abbrev pub fp8_members : List Backend
fp8_members = ppu_deepgemm ∷ batched_ppu_deepgemm ∷ []

abbrev pub int8_members : List Backend
int8_members = ppu_deepgemm ∷ batched_ppu_deepgemm ∷ acext ∷ []

abbrev pub mxfp4_members : List Backend
mxfp4_members =
    "PPU_DEEPGEMM_MXFP4" ∷ "BATCHED_PPU_DEEPGEMM_MXFP4" ∷ "PPU_DEEPGEMM_MXFP4_BF16_MMA"
    ∷ "BATCHED_PPU_DEEPGEMM_MXFP4_BF16_MMA" ∷ "PPU_DEEPGEMM_MXFP4_BF16"
    ∷ "BATCHED_PPU_DEEPGEMM_MXFP4_BF16" ∷ []

-- One member that is put behind a mark where it is missing.
insert_member_lem :
    (mark m : Backend) (xs r : List Backend)
    → Fp8.insert_member mark m xs ≡ ok r
    → ((gone : List Backend) → contains gone m ≡ true → without gone r ≡ without gone xs)
      × ((x : Backend) → contains r x ≡ (x == m || contains xs x))
unfolding Fp8.insert_member
insert_member_lem mark m xs r h = elim (Bool-cases (contains xs m)) [
  | inl there ↦
      let e = ok-injective xs r (rw there at h) in
      (λ gone all. rw (← e), λ x. rw (← e) (known x there))
  | inr missing ↦
      let (kept, has) = insert_after_lem mark (m ∷ []) xs r (rw missing at h) in
      (λ gone all. kept gone (ground arith), λ x. ground (arith, has x))
]
  where
    known : (x : Backend) → contains xs m ≡ true → contains xs x ≡ (x == m || contains xs x)
    known x there = ground arith

with_ppu_members_lem :
    (xs r : List Backend)
    → Fp8.with_ppu_members xs ≡ ok r
    → (without fp8_members r ≡ without fp8_members xs)
      × (contains r ppu_deepgemm ≡ true)
      × (contains r batched_ppu_deepgemm ≡ true)
unfolding Fp8.with_ppu_members
with_ppu_members_lem xs r h =
    let (ys, k, k') =
      then_ok (Fp8.insert_member "DEEPGEMM" ppu_deepgemm xs)
        (Fp8.insert_member "BATCHED_DEEPGEMM" batched_ppu_deepgemm) h in
    let (kept, has) = insert_member_lem "DEEPGEMM" ppu_deepgemm xs ys k in
    let (kept', has') = insert_member_lem "BATCHED_DEEPGEMM" batched_ppu_deepgemm ys r k' in
    (
      kept' fp8_members (ground arith) ∙ kept fp8_members (ground arith),
      ground (arith, has' ppu_deepgemm, has ppu_deepgemm),
      ground (arith, has' batched_ppu_deepgemm),
    )

without-without : (gone xs : List Backend) → without gone (without gone xs) ≡ without gone xs
without-without gone [] = refl
without-without gone (x ∷ xs) = ground (arith, without-without gone xs)

-- What is in use stands in front of the rest.
in_use_lem :
    (deep fast : Bool) (xs : List Backend)
    → let rest = without Int8.ppu_members xs in
      let r = Int8.in_use deep fast ++ rest in
      (without Int8.ppu_members r ≡ rest)
      × (contains r ppu_deepgemm ≡ deep)
      × (contains r batched_ppu_deepgemm ≡ deep)
      × (contains r acext ≡ fast)
unfolding string_eq
in_use_lem deep fast xs = in_front deep fast
  where
    absent :
        (m : Backend)
        → contains Int8.ppu_members m ≡ true
        → contains (without Int8.ppu_members xs) m ≡ false
    absent m h = contains-select (λ b. not (contains Int8.ppu_members b)) m xs ∙ rw h

    same : without Int8.ppu_members (without Int8.ppu_members xs) ≡ without Int8.ppu_members xs
    same = without-without Int8.ppu_members xs

    in_front :
        (deep fast : Bool)
        → let rest = without Int8.ppu_members xs in
          let r = Int8.in_use deep fast ++ rest in
          (without Int8.ppu_members r ≡ rest)
          × (contains r ppu_deepgemm ≡ deep)
          × (contains r batched_ppu_deepgemm ≡ deep)
          × (contains r acext ≡ fast)
    in_front true true = (same, refl, refl, refl)
    in_front true false = (same, refl, refl, absent acext refl)
    in_front false true = (same, absent ppu_deepgemm refl, absent batched_ppu_deepgemm refl, refl)
    in_front false false =
        (same, absent ppu_deepgemm refl, absent batched_ppu_deepgemm refl, absent acext refl)

module _ (d : Device) (ppu : d.is_ppu ≡ true) (c : MoeConfig) where
  fp8_lem :
      (o : Oracle Bool) (w a : Option QuantKey) (wanted : Bool) (r : List Backend)
      → Fp8.requests_deepgemm d true ≡ ok wanted
      → Fp8.get_priority_backends d o c w a ≡ ok r
      → let up = o.priorities c w a in
        (without fp8_members r ≡ without fp8_members up)
        × (contains r ppu_deepgemm ≡ (wanted || contains up ppu_deepgemm))
        × (contains r batched_ppu_deepgemm ≡ (wanted || contains up batched_ppu_deepgemm))
  unfolding Fp8.get_priority_backends
  fp8_lem o w a true r asked h =
      let (kept, one, two) = with_ppu_members_lem (o.priorities c w a) r (rw (ppu, asked) at h) in
      (kept, one, two)
  fp8_lem o w a false r asked h =
      let e = ok-injective (o.priorities c w a) r (rw (ppu, asked) at h) in
      (rw (← e), rw (← e), rw (← e))

  int8_lem :
      (o : Oracle (Unit {0})) (requested : Option String) (r : List Backend)
      → Int8.requested_backend d ≡ ok requested
      → Int8.get_priority_backends d o c ≡ ok r
      → let deep = Int8.deep_gemm_enabled d c requested in
        (without Int8.ppu_members r ≡ without Int8.ppu_members (o.priorities c none none))
        × (contains r ppu_deepgemm ≡ deep)
        × (contains r batched_ppu_deepgemm ≡ deep)
        × (contains r acext ≡ Int8.is_wanted d.is_acext_supported requested "acext")
  unfolding Int8.get_priority_backends
  int8_lem o requested r asked h =
      let deep = Int8.deep_gemm_enabled d c requested in
      let fast = Int8.is_wanted d.is_acext_supported requested "acext" in
      let xs = o.priorities c none none in
      let e =
        ok-injective (Int8.in_use deep fast ++ without Int8.ppu_members xs) r
          (rw (ppu, asked) at h) in
      rw (← e) (in_use_lem deep fast xs)

  mxfp4_lem :
      (o : Mxfp4.Oracle) (r : List Backend)
      → Mxfp4.get_priority_backends d o ≡ ok r
      → (without Mxfp4.ppu_candidates r ≡ without Mxfp4.ppu_candidates o.priorities)
        × (contains r Mxfp4.w4a4 ≡ true)
  unfolding Mxfp4.get_priority_backends
  mxfp4_lem o r h = elim (Bool-cases (contains o.priorities Mxfp4.w4a4)) [
    | inl there ↦
        let e = ok-injective o.priorities r (rw (ppu, there) at h) in (rw (← e), rw (← e) there)
    | inr missing ↦
        let (kept, has) =
          insert_after_lem "DEEPGEMM_MXFP4" Mxfp4.ppu_candidates o.priorities r
            (rw (ppu, missing) at h) in
        (kept Mxfp4.ppu_candidates refl, has Mxfp4.w4a4)
  ]

  gpt_oss_lem :
      (o : Mxfp4.Oracle)
      → let r = Mxfp4.get_priority_backends_for_gpt_oss d o in
        (without Mxfp4.ppu_candidates r ≡ without Mxfp4.ppu_candidates o.gpt_oss_priorities)
        × (contains r Mxfp4.w4a4 ≡ true)
  unfolding Mxfp4.get_priority_backends_for_gpt_oss
  gpt_oss_lem o = elim (Bool-cases (contains o.gpt_oss_priorities Mxfp4.w4a4)) [
    | inl there ↦ (rw (ppu, there), rw (ppu, there) there)
    | inr missing ↦ (
      rw (ppu, missing)
          (without_gone Mxfp4.ppu_candidates Mxfp4.ppu_candidates o.gpt_oss_priorities refl),
      rw (ppu, missing),
    )
  ]

  -- On a PPU the lists of candidates that the FP8, the INT8 and the two MXFP4 functions give are
  -- vLLM's own lists, in order, but for the members that the plugin adds. The FP8 list has both of
  -- these where the setting asks for DeepGEMM or is not set, and else those that vLLM's list had.
  -- The INT8 list has the two for DeepGEMM just where DeepGEMM is supported and not excluded by
  -- the setting, and the layer has no bias, and the one for Acext just where Acext is supported and
  -- not excluded by the setting. The MXFP4 lists have the W4A4 member.
  pub priorities_lem :
      (q : Oracle Bool) (o : Oracle (Unit {0})) (x : Mxfp4.Oracle) (w a : Option QuantKey)
      (wanted : Bool) (requested : Option String) (r1 r2 r3 : List Backend)
      → Fp8.requests_deepgemm d true ≡ ok wanted
      → Int8.requested_backend d ≡ ok requested
      → Fp8.get_priority_backends d q c w a ≡ ok r1
      → Int8.get_priority_backends d o c ≡ ok r2
      → Mxfp4.get_priority_backends d x ≡ ok r3
      → let up = q.priorities c w a in
        let deep =
          d.is_deep_gemm_supported
          && (requested == none || requested == some "deepgemm")
          && not c.has_bias in
        let fast = d.is_acext_supported && (requested == none || requested == some "acext") in
        let r4 = Mxfp4.get_priority_backends_for_gpt_oss d x in
        ((without fp8_members r1 ≡ without fp8_members up)
          × (contains r1 ppu_deepgemm ≡ (wanted || contains up ppu_deepgemm))
          × (contains r1 batched_ppu_deepgemm ≡ (wanted || contains up batched_ppu_deepgemm)))
        × ((without int8_members r2 ≡ without int8_members (o.priorities c none none))
            × (contains r2 ppu_deepgemm ≡ deep)
            × (contains r2 batched_ppu_deepgemm ≡ deep)
            × (contains r2 acext ≡ fast))
        × ((without mxfp4_members r3 ≡ without mxfp4_members x.priorities)
            × (contains r3 "PPU_DEEPGEMM_MXFP4" ≡ true))
        × ((without mxfp4_members r4 ≡ without mxfp4_members x.gpt_oss_priorities)
            × (contains r4 "PPU_DEEPGEMM_MXFP4" ≡ true))
  priorities_lem q o x w a wanted requested r1 r2 r3 asked asked' h1 h2 h3 = (
    fp8_lem q w a wanted r1 asked h1,
    int8_lem o requested r2 asked' h2,
    mxfp4_lem x r3 h3,
    gpt_oss_lem x,
  )
