-- ===== src/Native/Division.antt =====
-- Properties of the operations of a manifest, vllm_sail/native/manifest.py.
use vllm_sail.Base.{
  String, Bool, true, false, not, ◌||◌, Option, some, ◌≡◌, refl, sym, ◌∙◌, inl, inr,
}
use vllm_sail.Base.{
  List, [], ◌∷◌, ◌++◌, arith, ◌==◌, ==_true, string_eq, contains, select, Bool-cases,
}
use vllm_sail.Base.Sorting.{IsDistinct, contains-sorted_set, contains-append}
use vllm_sail.Native.Manifest.{
  Entry, Manifest, Raw, of_tier, compiled, excluded, all_ops, ops, excluded_ops, load,
}
use vllm_sail.Native.Sound.{load-IsSound}

-- What two entries have in common.
IsDistinct-append :
    (xs ys : List String)
    → IsDistinct (xs ++ ys)
    → IsDistinct ys × ((x : String) → contains xs x ≡ true → contains ys x ≡ false)
IsDistinct-append [] ys d = (d, λ x h. cc)
IsDistinct-append (y ∷ xs) ys (fresh, d) =
    let (distinct, apart) = IsDistinct-append xs ys d in
    (
      distinct,
      λ x h. elim (Bool-cases (x == y)) [
        | inl same ↦
            let e : x ≡ y = ==_true x y same in
            let split = contains-append xs ys y in rw e (ground arith)
        | inr other ↦ apart x (rw other at h)
      ],
    )

all_ops-select :
    (p : Entry → Bool) (es : List Entry) (x : String)
    → contains (all_ops (select p es)) x ≡ true
    → contains (all_ops es) x ≡ true
all_ops-select p [] x h = h
all_ops-select p (e ∷ es) x h = elim (Bool-cases (p e)) [
  | inl kept ↦
      let k : contains (e.ops ++ all_ops (select p es)) x ≡ true = rw kept at h in
      let a = contains-append e.ops (all_ops (select p es)) x in
      let b = contains-append e.ops (all_ops es) x in ground (arith, all_ops-select p es x)
  | inr left ↦
      let k : contains (all_ops (select p es)) x ≡ true = rw left at h in
      let b = contains-append e.ops (all_ops es) x in ground (arith, all_ops-select p es x k)
]

-- Each operation belongs to one part of a list of entries that is divided by a test.
all_ops-apart :
    (p : Entry → Bool) (es : List Entry)
    → IsDistinct (all_ops es)
    → (x : String) → contains (all_ops (select p es)) x ≡ true
    → contains (all_ops (select (λ e. not (p e)) es)) x ≡ false
all_ops-apart p [] d x h = refl
all_ops-apart p (e ∷ es) d x h =
    let (d_es, apart) = IsDistinct-append e.ops (all_ops es) d in
    let rest = all_ops-apart p es d_es x in
    elim (Bool-cases (p e)) [
      | inl kept ↦
          let k : contains (e.ops ++ all_ops (select p es)) x ≡ true = rw kept at h in
          let a = contains-append e.ops (all_ops (select p es)) x in
          let b = all_ops-select (λ f. not (p f)) es x in
          let here = apart x in rw kept (ground arith)
      | inr left ↦
          let k : contains (all_ops (select p es)) x ≡ true = rw left at h in
          let a = contains-append e.ops (all_ops (select (λ f. not (p f)) es)) x in
          let b = all_ops-select p es x k in let here = apart x in rw left (ground arith)
    ]

all_ops-cover :
    (p : Entry → Bool) (es : List Entry) (x : String)
    → contains (all_ops es) x
      ≡ (contains (all_ops (select p es)) x || contains (all_ops (select (λ e. not (p e)) es)) x)
all_ops-cover p [] x = refl
all_ops-cover p (e ∷ es) x =
    let a = contains-append e.ops (all_ops es) x in
    let b = contains-append e.ops (all_ops (select p es)) x in
    let c = contains-append e.ops (all_ops (select (λ f. not (p f)) es)) x in
    let rest = all_ops-cover p es x in
    elim (Bool-cases (p e)) [
      | inl kept ↦ rw kept (ground arith)
      | inr left ↦ rw left (ground arith)
    ]

-- How the operations of a manifest are divided, where `chosen` are the entries that are compiled.
pub record Divides (m : Manifest) (chosen : List Entry) : Type 0 where
  pub is_compiled : compiled m ≡ some chosen
  pub cover :
      (op : String)
      → contains (ops m.entries) op ≡ (contains (ops chosen) op || contains (excluded_ops m) op)
  pub apart : (op : String) → contains (ops chosen) op ≡ true → contains (excluded_ops m) op ≡ false

-- Of a manifest that `load` returns, `compiled` raises no exception, and an operation that an entry
-- declares is either one of a compiled entry or one of `excluded_ops`, which get a stub, and not both.
pub load-Divides :
    (strip : String → String) (file : Option Raw) (m : Manifest)
    → load strip file ≡ some m
    → (chosen : List Entry) × Divides m chosen
unfolding compiled of_tier ops excluded_ops excluded
load-Divides strip file m h =
    let sound = load-IsSound strip file m h in
    let p : Entry → Bool = λ e. contains m.compiled_tiers e.tier in
    (
      select p m.entries,
      record {
        is_compiled = rw (sound.compiled_tiers);
        cover = λ op.
            rw
              (
                contains-sorted_set op (all_ops m.entries),
                contains-sorted_set op (all_ops (select p m.entries)),
                contains-sorted_set op (all_ops (select (λ e. not (p e)) m.entries)),
              )
              (all_ops-cover p m.entries op);
        apart = λ op k.
            contains-sorted_set op (all_ops (select (λ e. not (p e)) m.entries))
            ∙ all_ops-apart p m.entries sound.ops_once op
                (sym (contains-sorted_set op (all_ops (select p m.entries))) ∙ k);
      },
    )
