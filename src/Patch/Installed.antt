-- ===== src/Patch/Installed.antt =====
-- What an installation of vllm_sail/patch/utils.py has done where it ends well.
use vllm_sail.Base.{String, ◌≡◌, refl, ap, ◌∙◌, ◌≢◌, ◌⊎◌, true, Option, none, some}
use vllm_sail.Base.{arith, nat_eq, string_eq}
use vllm_sail.Base.Names.{Names, lookup, insert, lookup-insert, lookup-insert_self}
use vllm_sail.Patch.Heap.{Ref, Cell, marker, PatchRecord, World, get_attribute, update}
use vllm_sail.Patch.Monad.{key_error, Result, ok, raised}
use vllm_sail.Patch.Attributes.{patch_marker, is_marked}
use vllm_sail.Patch.Commit.{Committed}
use vllm_sail.Patch.Run.{original_of, entry_of}

-- What `original_of` answers for the original that a patch found.
abbrev pub noted_original : Option Ref → Result Ref
noted_original none = raised key_error
noted_original (some original) = ok original

module _ (owner : Ref) (name full : String) (original : Option Ref) (p : PatchRecord) (holder : Ref)
    (installed : Ref) (w v : World)
    (c : Committed owner name full original p holder installed w v) where
  own_lem :
      (o : Ref)
      → v.own o
        ≡ update
            (update w.own holder (insert patch_marker c.recorded.dict (w.own holder)))
            owner
            (insert name installed
              (update w.own holder (insert patch_marker c.recorded.dict (w.own holder)) owner))
            o
  own_lem o =
      ap (λ (f : Ref → Names Ref). f o) c.own_is
      ∙ ap (λ (f : Ref → Names Ref). update f owner (insert name installed (f owner)) o)
          c.recorded.own_is

  -- The owner has the attribute.
  pub lookup-Committed : lookup name (v.own owner) ≡ some installed
  lookup-Committed = rw own_lem (
      ground (
        arith,
        lookup-insert_self name installed
            (update w.own holder (insert patch_marker c.recorded.dict (w.own holder)) owner),
      ))

  pub get_attribute-Committed : get_attribute v owner name ≡ some installed
  unfolding get_attribute
  get_attribute-Committed = rw (lookup-Committed, get_attribute)

  -- No other attribute but a marker has changed.
  pub lookup-Committed_other :
      (o : Ref) (k : String)
      → k ≢ patch_marker
      → (o ≢ owner) ⊎ (k ≢ name)
      → lookup k (v.own o) ≡ lookup k (w.own o)
  lookup-Committed_other o k ne other = rw own_lem (
      ground (
        arith,
        lookup-insert k name installed
            (update w.own holder (insert patch_marker c.recorded.dict (w.own holder)) owner),
        lookup-insert k patch_marker c.recorded.dict (w.own holder),
      ))

  -- The holder has the marker, with the original under the target's name.
  marker-Committed :
      name ≢ patch_marker → get_attribute v holder patch_marker ≡ some c.recorded.dict
  unfolding get_attribute
  marker-Committed ne =
      let e : lookup patch_marker (v.own holder) ≡ some c.recorded.dict = rw own_lem (
        ground (
          arith,
          lookup-insert patch_marker name installed
              (update w.own holder (insert patch_marker c.recorded.dict (w.own holder)) owner),
          lookup-insert_self patch_marker c.recorded.dict (w.own holder),
        )) in
      rw (e, get_attribute)

  pub marked-Committed :
      name ≢ patch_marker
      → (entries : Names (Option Ref)) × (d : Ref) × (get_attribute v holder patch_marker ≡ some d)
        × (v.cell d ≡ marker (insert full original entries))
  marked-Committed ne = (
    c.recorded.entries,
    c.recorded.dict,
    marker-Committed ne,
    ap (λ (f : Ref → Cell). f c.recorded.dict) c.cell_is ∙ c.recorded.cell_is,
  )

  pub original_of-Committed :
      name ≢ patch_marker → original_of v holder full ≡ noted_original original
  unfolding original_of
  original_of-Committed ne =
      let (entries, d, found, is) = marked-Committed ne in
      rw (found, original_of) (rw is (entry entries original))
    where
      entry :
          (entries : Names (Option Ref)) (o : Option Ref)
          → entry_of full (marker (insert full o entries)) ≡ noted_original o
      entry entries none = rw (lookup-insert_self full none entries, entry_of)
      entry entries (some o) = rw (lookup-insert_self full (some o) entries, entry_of)

  -- The holder counts as patched.
  pub is_marked-Committed : name ≢ patch_marker → is_marked v holder ≡ true
  unfolding is_marked
  is_marked-Committed ne =
      let (entries, d, found, is) = marked-Committed ne in rw (found, is_marked) (rw is refl)
