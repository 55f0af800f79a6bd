-- ===== src/Select/Choice/Loop.antt =====
-- The loop of `select_tests` over the changed paths.
use vllm_sail.Base.{String, Bool, true, false, not, ◌&&◌, Option, none, some}
use vllm_sail.Base.{List, [], ◌∷◌, ◌++◌, ◌==◌, string_eq, contains, if◌then◌else◌}
use vllm_sail.Select.Config.{Config, SourceRule, TestItem, matches, starts_with}

pub record Choosing : Type 0 where
  pub selected : List String
  pub reasons : List String
  pub matched : List String
  pub unmapped : List String
  pub full : Bool

-- `by_file.get(path)`: of two items with one file the later counts.
unfoldable pub by_file : String → List TestItem → Option String
unfolding string_eq
by_file path [] = none
by_file path (t ∷ ts) = elim (by_file path ts) [
  | some id ↦ some id
  | none ↦ if path == t.test then some t.id else none
]

-- `if path in by_file`
abbrev pub add_file : Option String → Choosing → Choosing × Bool
add_file none s = (s, false)
add_file (some id) s =
    (record s { selected = id ∷ s.selected; reasons = "test_changed" ∷ s.reasons }, true)

-- One source rule.
unfoldable pub add_rule : String → SourceRule → Choosing × Bool → Choosing × Bool
unfolding string_eq
add_rule path r p =
    if contains r.paths path
    then (
      record (p.0) {
        selected = r.test_ids ++ p.0.selected;
        matched = r.id ∷ p.0.matched;
        reasons = "mapped_source" ∷ p.0.reasons;
      },
      true,
    )
    else p

-- `for rule in rules["source_to_tests"]`
unfoldable pub add_rules : String → List SourceRule → Choosing × Bool → Choosing × Bool
unfolding add_rule
add_rules path [] p = p
add_rules path (r ∷ rs) p = add_rules path rs (add_rule path r p)

abbrev pub unmapped_path : String → Choosing → Choosing
unmapped_path path s = record s {
  full = true;
  unmapped = path ∷ s.unmapped;
  reasons = "unmapped_path" ∷ s.reasons;
}

-- A path that found nothing has to be without effect.
abbrev pub judge : Bool → String → Choosing × Bool → Choosing
judge no_effect path (s, found) = if not found && not no_effect then unmapped_path path s else s

-- One round.
unfoldable pub visit : (String → String → Bool) → Config → String → Choosing → Choosing
unfolding matches by_file add_rules starts_with
visit glob c path s =
    if matches glob path c.full
    then record s {
      full = true;
      reasons =
          (if starts_with path "csrc/" then "native_change" else "global_dependency") ∷ s.reasons;
    }
    else judge (matches glob path c.no_effect) path
        (add_rules path c.source_to_tests (add_file (by_file path c.test_catalog) s))

unfoldable pub scan : (String → String → Bool) → Config → List String → Choosing → Choosing
unfolding visit
scan glob c [] s = s
scan glob c (path ∷ paths) s = scan glob c paths (visit glob c path s)
