-- ===== src/Moe/Items.antt =====
-- The rows of `_ORACLE_ALIAS_CONSUMERS` of vllm_sail/registry/moe_backends/__init__.py one by one,
-- and what keeps them apart.
use mathlib.Core.Path.{subst}
use vllm_sail.Base.{String, ◌≡◌, refl, sym, ◌≢◌, ◌⊎◌, inl, inr, Bool, true, false}
use vllm_sail.Base.{not, Option, some, List, [], ◌∷◌, ◌++◌, ◌==◌, string_eq}
use vllm_sail.Base.{ap, ◌∙◌}
use vllm_sail.Base.{arith, ◌&&◌, ==_refl, both_true}
use vllm_sail.Patch.Heap.{Ref, World, get_attribute}
use vllm_sail.Patch.Attributes.{patch_marker}
use vllm_sail.Moe.Rebind.{Table, Aliases, oracle_name}
use vllm_sail.Moe.Placed.{is_plain, is_named}

-- A row of the table: an oracle, an alias and a consumer.
abbrev pub Item : Type 0
Item = String × String × String

unfoldable pub name_items : String → String → List String → List Item
name_items b a [] = []
name_items b a (n ∷ ns) = (b, a, n) ∷ name_items b a ns

unfoldable pub alias_items : String → Aliases → List Item
unfolding name_items
alias_items b [] = []
alias_items b ((a, ns) ∷ rest) = name_items b a ns ++ alias_items b rest

unfoldable pub items : Table → List Item
unfolding alias_items
items [] = []
items ((b, aliases) ∷ rest) = alias_items b aliases ++ items rest

-- The items that were passed, the last one in front.
unfoldable pub push : List Item → List Item → List Item
push [] done = done
push (x ∷ xs) done = push xs (x ∷ done)

-- What keeps two items apart: they are not one place, and the later consumer is not the earlier
-- oracle.
abbrev pub apart : Item → Item → Bool
apart (b, a, n) (b', a', n') = not (a == a' && n == n') && not (n == oracle_name b')

abbrev pub apart_all : Item → List Item → Bool
apart_all x [] = true
apart_all x (y ∷ ys) = apart x y && apart_all x ys

abbrev pub is_clear : Item → Bool
is_clear (b, a, n) =
    not (n == oracle_name b) && (is_plain a && (is_named n && is_named (oracle_name b)))

-- Every item is apart from those in front of it.
unfoldable pub separate : List Item → List Item → Bool
unfolding is_plain is_named string_eq
separate done [] = true
separate done (x ∷ xs) = apart_all x done && is_clear x && separate (x ∷ done) xs

and_assoc : (a b c : Bool) → (a && (b && c)) ≡ (a && b && c)
and_assoc a b c = ground arith

pub separate-append :
    (done xs ys : List Item)
    → separate done (xs ++ ys) ≡ (separate done xs && separate (push xs done) ys)
unfolding separate push
separate-append done [] ys = refl
separate-append done (x ∷ xs) ys =
    let fits = apart_all x done && is_clear x in
    ap (λ rest. fits && rest) (separate-append (x ∷ done) xs ys)
    ∙ and_assoc fits (separate (x ∷ done) xs) (separate (push xs (x ∷ done)) ys)

pub push-append : (xs ys done : List Item) → push (xs ++ ys) done ≡ push ys (push xs done)
unfolding push
push-append [] ys done = refl
push-append (x ∷ xs) ys done = push-append xs ys (x ∷ done)

abbrev pub Listed : Item → List Item → Type 0
Listed x [] = ⊥
Listed x (y ∷ ys) = (x ≡ y) ⊎ Listed x ys

-- Each consumer in the list that is loaded reads what its oracle does.
abbrev pub Agrees : (String → Option Ref) → World → Item → Type 0
Agrees loaded w (b, a, n) =
    (c o : Ref)
    → loaded n ≡ some c
    → w.python.imports (oracle_name b) ≡ some o
    → get_attribute w c a ≡ get_attribute w o a

-- The alias is an attribute's name, and both modules are in the table.
abbrev pub IsPlaced : Item → Type 0
IsPlaced (b, a, n) = (is_plain a ≡ true) × (is_named n ≡ true) × (is_named (oracle_name b) ≡ true)

abbrev pub AllAgree : (String → Option Ref) → World → List Item → Type 0
AllAgree loaded w [] = Unit
AllAgree loaded w ((b, a, n) ∷ xs) =
    Agrees loaded w (b, a, n) × IsPlaced (b, a, n) × AllAgree loaded w xs

pub plain-ne-patch_marker : (a : String) → is_plain a ≡ true → a ≢ patch_marker
unfolding is_plain
plain-ne-patch_marker a h e =
    let (_, other) = both_true _ (not (a == patch_marker)) h in
    let same : (a == patch_marker) ≡ true = rw e (==_refl patch_marker) in
    let k : false ≡ true = rw same at other in cc

pub swapped : (a a' n n' : String) → not (a == a' && n == n') ≡ true → (a' == a && n' == n) ≡ false
swapped a a' n n' h = ground arith

pub unnamed : (a a' n o : String) → not (n == o) ≡ true → (a' == a && o == n) ≡ false
unnamed a a' n o h = ground arith

pub Listed-Agrees :
    (loaded : String → Option Ref) (w : World) (b a n : String) (xs : List Item)
    → AllAgree loaded w xs
    → Listed (b, a, n) xs
    → Agrees loaded w (b, a, n)
Listed-Agrees loaded w b a n [] agree l = absurd l
Listed-Agrees loaded w b a n ((b', a', n') ∷ xs) (agree, plain', rest) (inl e) =
    subst (Agrees loaded w) (sym e) agree
Listed-Agrees loaded w b a n ((b', a', n') ∷ xs) (agree, plain', rest) (inr l) =
    Listed-Agrees loaded w b a n xs rest l

pub Listed-push :
    (x : Item) (xs done : List Item) → Listed x xs ⊎ Listed x done → Listed x (push xs done)
unfolding push
Listed-push x [] done (inl l) = absurd l
Listed-push x [] done (inr l) = l
Listed-push x (y ∷ xs) done (inl (inl e)) = Listed-push x xs (y ∷ done) (inr (inl e))
Listed-push x (y ∷ xs) done (inl (inr l)) = Listed-push x xs (y ∷ done) (inl l)
Listed-push x (y ∷ xs) done (inr l) = Listed-push x xs (y ∷ done) (inr (inr l))
