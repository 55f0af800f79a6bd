-- ===== src/Patch/Commit.antt =====
-- What `_record_original_attribute` and the steps of an installation behind the guard leave behind.
use vllm_sail.Base.{String, ◌≡◌, refl, sym, ap, ◌∙◌, ◌≢◌, inl, inr, Bool, true, false}
use vllm_sail.Base.{Option, [], ◌∷◌, arith, Option-cases, Bool-cases}
use vllm_sail.Base.{◌++◌, nat_eq, string_eq}
use vllm_sail.Base.Names.{Names, insert}
use vllm_sail.Patch.Heap.{
  Ref, Cell, null, marker, Kind, PatchRecord, World, get_attribute, put_attribute, put_cell, update,
}
use vllm_sail.Patch.Monad.{
  Error, Result, ok, raised, M, allocate, set_attribute, type_error, attribute_error, return,
  follow, ◌>>=◌, ◌>>◌,
}
use vllm_sail.Patch.Attributes.{
  Metadata, patch_marker, append_record, find_marker, add_entry, with_entry, marker_of_cell,
  record_original_attribute,
}
use vllm_sail.Patch.Install.{commit, new_record}

-- A bind that ends well has two parts that end well.
pub >>=-eq-ok :
    {A B : Type 0} (m : M A) (f : A → M B) (w : World) {b : B} {u : World}
    → (m >>= f) w ≡ (ok b, u)
    → (a : A) × (v : World) × (m w ≡ (ok a, v)) × (f a v ≡ (ok b, u))
>>=-eq-ok {A} {B} m f w {b} {u} h = split (m w) refl h
  where
    split :
        (r : Result A × World)
        → m w ≡ r
        → follow r f ≡ (ok b, u)
        → (a : A) × (v : World) × (m w ≡ (ok a, v)) × (f a v ≡ (ok b, u))
    split (ok a, v) e h = (a, v, e, h)
    split (raised x, v) e h = cc

pub ok-injective :
    {A : Type 0} (a b : A) {w v : World}
    → ◌≡◌ {A = Result A × World} (ok a, w) (ok b, v)
    → (a ≡ b) × (w ≡ v)
ok-injective a b h = (cc, ap (λ p. p.1) h)

pub ok-ne-raised :
    {A : Type 0} {a : A} {e : Error} {w v : World}
    → ◌≢◌ {A = Result A × World} (ok a, w) (raised e, v)
ok-ne-raised h = cc

-- What `find_marker` gives where it ends well: a dict that is a marker. Only a cell may be new.
record Found (w v : World) (d : Ref) : Type 0 where
  entries : Names (Option Ref)
  cell_is : v.cell d ≡ marker entries
  others : (q : Ref) → q ≢ w.fresh → v.cell q ≡ w.cell q
  own_is : v.own ≡ w.own
  registry_is : v.registry ≡ w.registry
  python_is : v.python ≡ w.python

allocate-Found : (d : Ref) (w v : World) → allocate (marker []) w ≡ (ok d, v) → Found w v d
unfolding put_cell nat_eq
allocate-Found d w v h =
    let (p, q) = ok-injective w.fresh d h in
    record {
      entries = [];
      cell_is = rw (← p, ← q) (ground arith);
      others = λ x ne. rw (← q) (ground arith);
      own_is = rw (← q);
      registry_is = rw (← q);
      python_is = rw (← q);
    }

marker_of_cell-Found :
    (r d : Ref) (c : Cell) (w v : World)
    → w.cell r ≡ c
    → marker_of_cell r c w ≡ (ok d, v)
    → Found w v d
unfolding marker_of_cell
marker_of_cell-Found r d null w v e h = allocate-Found d w v h
marker_of_cell-Found r d (marker es) w v e h =
    let (p, q) = ok-injective r d h in
    record {
      entries = es;
      cell_is = rw (← p, ← q) e;
      others = λ x ne. rw (← q);
      own_is = rw (← q);
      registry_is = rw (← q);
      python_is = rw (← q);
    }
marker_of_cell-Found r d _ w v e h = cc

find_marker-Found : (r d : Ref) (w v : World) → find_marker r w ≡ (ok d, v) → Found w v d
unfolding find_marker
find_marker-Found r d w v h = elim (Option-cases (get_attribute w r patch_marker)) [
  | inl absent ↦ allocate-Found d w v (rw (absent, find_marker) at h)
  | inr (m, present) ↦ marker_of_cell-Found m d (w.cell m) w v refl (rw (present, find_marker) at h)
]

abbrev pub is_marker : Cell → Bool
is_marker (marker _) = true
is_marker _ = false

marker-ne-other :
    (entries : Names (Option Ref)) (c : Cell) → is_marker c ≡ false → marker entries ≢ c
marker-ne-other entries c other e = cc (ap is_marker e)

-- What `_record_original_attribute` leaves where it ends well.
pub record Recorded (holder : Ref) (full : String) (original : Option Ref) (w v : World)
    : Type 0 where
  pub dict : Ref
  pub entries : Names (Option Ref)
  pub cell_is : v.cell dict ≡ marker (insert full original entries)
  pub others :
      (q : Ref) (c : Cell) → q ≢ w.fresh → w.cell q ≡ c → is_marker c ≡ false → v.cell q ≡ c
  pub own_is : v.own ≡ update w.own holder (insert patch_marker dict (w.own holder))
  pub registry_is : v.registry ≡ w.registry
  pub python_is : v.python ≡ w.python

update_self {ℓ} : {A : Type ℓ} (f : Ref → A) (r : Ref) (a : A) → update f r a r ≡ a
update_self f r a = ground arith

set_attribute-eq-ok :
    (r : Ref) (name : String) (a : Ref) (e : Error) (w : World) {t : Unit {0}} {u : World}
    → set_attribute r name a e w ≡ (ok t, u)
    → put_attribute w r name a ≡ u
set_attribute-eq-ok r name a e w h = elim (Bool-cases (w.python.settable r name)) [
  | inl settable ↦ (ok-injective tt _ (rw settable at h)).1
  | inr refused ↦ absurd (ok-ne-raised (sym (rw refused at h)))
]

add_entry-Recorded :
    (holder d : Ref) (full : String) (original : Option Ref) (w u v : World)
    → Found w u d
    → (add_entry d full original >> set_attribute holder patch_marker d type_error) u ≡ (ok tt, v)
    → Recorded holder full original w v
unfolding put_attribute put_cell
add_entry-Recorded holder d full original w u v f h =
    let q =
      set_attribute-eq-ok holder patch_marker d type_error (add_entry d full original u).1 h in
    record {
      dict = d;
      entries = f.entries;
      cell_is = rw (← q) (update_self u.cell d _ ∙ ap (with_entry full original) f.cell_is);
      others = λ x c ne e plain'. rw (← q) (keep x c e plain' (f.others x ne));
      own_is = rw (← q) (
          ap (λ (o : Ref → Names Ref). update o holder (insert patch_marker d (o holder)))
            f.own_is);
      registry_is = rw (← q) f.registry_is;
      python_is = rw (← q) f.python_is;
    }
  where
    keep :
        (x : Ref) (c : Cell)
        → w.cell x ≡ c
        → is_marker c ≡ false
        → u.cell x ≡ w.cell x
        → update u.cell d (with_entry full original (u.cell d)) x ≡ c
    keep x c e other same = elim (nat_eq.dec x d) [
      | yes at ↦ absurd (marker-ne-other f.entries c other (sym f.cell_is ∙ rw (← at) (same ∙ e)))
      | no off ↦ ground arith
    ]

pub record_original_attribute-Recorded :
    (holder : Ref) (full : String) (original : Option Ref) (w v : World)
    → record_original_attribute holder full original w ≡ (ok tt, v)
    → Recorded holder full original w v
unfolding record_original_attribute
record_original_attribute-Recorded holder full original w v h =
    let (d, u, made, rest) =
      >>=-eq-ok (find_marker holder)
        (λ d. add_entry d full original >> set_attribute holder patch_marker d type_error) w h in
    add_entry-Recorded holder d full original w u v (find_marker-Found holder d w u made) rest

-- What an installation leaves behind the guard, where it ends well.
pub record Committed (owner : Ref) (name full : String) (original : Option Ref) (p : PatchRecord)
    (holder : Ref) (installed : Ref) (w v : World) : Type 0 where
  pub noted : World
  pub recorded : Recorded holder full original w noted
  pub cell_is : v.cell ≡ noted.cell
  pub own_is : v.own ≡ update noted.own owner (insert name installed (noted.own owner))
  pub registry_is : v.registry ≡ w.registry ++ (p ∷ [])
  pub python_is : v.python ≡ w.python

pub commit-Committed :
    (owner : Ref) (name full : String) (m : Metadata) (k : Kind) (original : Option Ref)
    (source : Option String) (holder installed : Ref) (w v : World) {r : Ref}
    → commit owner name full m k original source holder installed w ≡ (ok r, v)
    → (r ≡ installed)
      × Committed owner name full original
          (new_record full m k original source)
          holder
          installed
          w
          v
unfolding commit put_attribute
commit-Committed owner name full m k original source holder installed w v {r} h =
    let (_, u, noted, rest) = >>=-eq-ok (record_original_attribute holder full original) _ w h in
    let c = record_original_attribute-Recorded holder full original w u noted in
    let (_, t, set, end) =
      >>=-eq-ok (set_attribute owner name installed attribute_error)
        (λ _. append_record p >> return installed) u rest in
    let s = set_attribute-eq-ok owner name installed attribute_error u set in
    let (result, q) = ok-injective installed r end in
    (
      sym result,
      record {
        noted = u;
        recorded = c;
        cell_is = rw (← q, ← s);
        own_is = rw (← q, ← s);
        registry_is = rw (← q, ← s) (ap (λ l. l ++ (p ∷ [])) c.registry_is);
        python_is = rw (← q, ← s) c.python_is;
      },
    )
  where
    p : PatchRecord
    p = new_record full m k original source
