-- ===== src/Base/Sorting.antt =====
-- Python's `<` on texts, `sorted` of a list and `sorted` of a set, for texts.
use Prim.Native.Char.{Char, code}
use Prim.Native.String.{String}
use mathlib.Core.Path.{◌≡◌, refl, ◌∙◌}
use mathlib.Core.Logic.{inl, inr}
use mathlib.Core.Bool.{Bool, true, false, not, ◌||◌, ◌&&◌}
use mathlib.Core.List.{List, [], ◌∷◌, ◌++◌}
use native.Mathlib.Omega.{arith}
use text.Mathlib.TextEquality.{Char-path}
use vllm_sail.Base.Equality.{◌==◌, ltb, contains, string_eq, if◌then◌else◌}
use vllm_sail.Base.Cases.{Bool-cases}
use vllm_sail.Base.Lists.{select}

-- `s < t`, by code points.
unfoldable pub str_ltb : String → String → Bool
str_ltb String.[] String.[] = false
str_ltb String.[] (String.◌∷◌ d t) = true
str_ltb (String.◌∷◌ c s) String.[] = false
str_ltb (String.◌∷◌ c s) (String.◌∷◌ d t) =
    ltb (code c) (code d) || not (ltb (code d) (code c)) && str_ltb s t

str_ltb_asym : (s t : String) → str_ltb s t ≡ true → str_ltb t s ≡ false
unfolding str_ltb
str_ltb_asym String.[] String.[] h = refl
str_ltb_asym String.[] (String.◌∷◌ d t) h = refl
str_ltb_asym (String.◌∷◌ c s) String.[] h = cc
str_ltb_asym (String.◌∷◌ c s) (String.◌∷◌ d t) h = ground (arith, str_ltb_asym s t)

str_ltb_irrefl : (s : String) → str_ltb s s ≡ false
unfolding str_ltb
str_ltb_irrefl String.[] = refl
str_ltb_irrefl (String.◌∷◌ c s) = ground (arith, str_ltb_irrefl s)

same_head : (c d : Char) (s t : String) → c ≡ d → s ≡ t → String.◌∷◌ c s ≡ String.◌∷◌ d t
same_head c d s t p q i = String.◌∷◌ (p i) (q i)

-- Texts neither of which is smaller are equal.
str_ltb_total : (s t : String) → str_ltb s t ≡ false → str_ltb t s ≡ false → s ≡ t
unfolding str_ltb
str_ltb_total String.[] String.[] h k = refl
str_ltb_total String.[] (String.◌∷◌ d t) h k = cc
str_ltb_total (String.◌∷◌ c s) String.[] h k = cc
str_ltb_total (String.◌∷◌ c s) (String.◌∷◌ d t) h k =
    same_head c d s t (Char-path c d (ground arith))
      (str_ltb_total s t (ground arith) (ground arith))

-- `set.add`, for a set that is kept in order.
unfoldable pub add : String → List String → List String
add x [] = x ∷ []
add x (y ∷ ys) = if x == y then y ∷ ys else if str_ltb x y then x ∷ y ∷ ys else y ∷ add x ys

-- `sorted(set(xs))`
unfoldable pub sorted_set : List String → List String
sorted_set [] = []
sorted_set (x ∷ xs) = add x (sorted_set xs)

-- A text put into an ordered list, in front of those that it does not exceed.
unfoldable pub put_in_order : String → List String → List String
put_in_order x [] = x ∷ []
put_in_order x (y ∷ ys) = if str_ltb y x then y ∷ put_in_order x ys else x ∷ y ∷ ys

-- `sorted(xs)`
unfoldable pub sorted : List String → List String
sorted [] = []
sorted (x ∷ xs) = put_in_order x (sorted xs)

-- Each text is smaller than the next.
abbrev pub Follows : String → List String → Type 0
Follows x [] = Unit
Follows x (y ∷ ys) = str_ltb x y ≡ true

abbrev pub IsSorted : List String → Type 0
IsSorted [] = Unit
IsSorted (x ∷ xs) = Follows x xs × IsSorted xs

add-Follows :
    (y x : String) (ys : List String) → str_ltb y x ≡ true → Follows y ys → Follows y (add x ys)
unfolding add
add-Follows y x [] h k = h
add-Follows y x (z ∷ zs) h k = ground arith

str_gt : (x y : String) → (x == y) ≡ false → str_ltb x y ≡ false → str_ltb y x ≡ true
str_gt x y ne ge = elim (Bool-cases (str_ltb y x)) [
  | inl gt ↦ gt
  | inr le ↦ let e = str_ltb_total x y ge le in ground arith
]

add-IsSorted : (x : String) (xs : List String) → IsSorted xs → IsSorted (add x xs)
unfolding add
add-IsSorted x [] s = (tt, tt)
add-IsSorted x (y ∷ ys) (f, s) = elim (Bool-cases (x == y)) [
  | inl same ↦ rw same (f, s)
  | inr ne ↦ elim (Bool-cases (str_ltb x y)) [
    | inl lt ↦ rw ne (rw lt (lt, (f, s)))
    | inr ge ↦ rw ne (rw ge (add-Follows y x ys (str_gt x y ne ge) f, add-IsSorted x ys s))
  ]
]

-- The elements of a set stand in order.
pub sorted_set-IsSorted : (xs : List String) → IsSorted (sorted_set xs)
unfolding sorted_set
sorted_set-IsSorted [] = tt
sorted_set-IsSorted (x ∷ xs) = add-IsSorted x (sorted_set xs) (sorted_set-IsSorted xs)

add_first : (x : String) (xs : List String) → Follows x xs → add x xs ≡ x ∷ xs
unfolding add
add_first x [] h = refl
add_first x (y ∷ ys) h = ground (arith, str_ltb_irrefl y)

put_first : (x : String) (xs : List String) → Follows x xs → put_in_order x xs ≡ x ∷ xs
unfolding put_in_order
put_first x [] h = refl
put_first x (y ∷ ys) h = ground (arith, str_ltb_asym x y h)

-- A list in order is its own set, and its own sorted list.
pub sorted_set-eq_self : (xs : List String) → IsSorted xs → sorted_set xs ≡ xs
unfolding sorted_set
sorted_set-eq_self [] s = refl
sorted_set-eq_self (x ∷ xs) (f, s) = rw (sorted_set-eq_self xs s) (add_first x xs f)

pub sorted-eq_self : (xs : List String) → IsSorted xs → sorted xs ≡ xs
unfolding sorted
sorted-eq_self [] s = refl
sorted-eq_self (x ∷ xs) (f, s) = rw (sorted-eq_self xs s) (put_first x xs f)

-- To keep duplicates makes no difference where there are none.
abbrev pub IsDistinct : List String → Type 0
IsDistinct [] = Unit
IsDistinct (x ∷ xs) = (contains xs x ≡ false) × IsDistinct xs

contains-add : (x y : String) (xs : List String) → contains (add x xs) y ≡ (y == x || contains xs y)
unfolding add
contains-add x y [] = refl
contains-add x y (z ∷ zs) = ground (arith, contains-add x y zs)

-- A set has the elements of the list that it is made from.
pub contains-sorted_set :
    (y : String) (xs : List String) → contains (sorted_set xs) y ≡ contains xs y
unfolding sorted_set
contains-sorted_set y [] = refl
contains-sorted_set y (x ∷ xs) = contains-add x y (sorted_set xs) ∙ rw (contains-sorted_set y xs)

put_in_order-eq-add :
    (x : String) (xs : List String) → contains xs x ≡ false → put_in_order x xs ≡ add x xs
unfolding put_in_order add
put_in_order-eq-add x [] h = refl
put_in_order-eq-add x (y ∷ ys) h = elim (Bool-cases (x == y)) [
  | inl same ↦ ground arith
  | inr ne ↦ elim (Bool-cases (str_ltb x y)) [
    | inl lt ↦ rw ne (rw lt (rw (str_ltb_asym x y lt)))
    | inr ge ↦ rw ne (rw ge (rw (str_gt x y ne ge) (rw (put_in_order-eq-add x ys (ground arith)))))
  ]
]

pub sorted-eq-sorted_set : (xs : List String) → IsDistinct xs → sorted xs ≡ sorted_set xs
unfolding sorted sorted_set
sorted-eq-sorted_set [] d = refl
sorted-eq-sorted_set (x ∷ xs) (fresh, d) =
    rw (sorted-eq-sorted_set xs d)
      (put_in_order-eq-add x (sorted_set xs) (contains-sorted_set x xs ∙ fresh))

-- What a filter keeps.
pub contains-select :
    (p : String → Bool) (x : String) (xs : List String)
    → contains (select p xs) x ≡ (p x && contains xs x)
contains-select p x [] = ground arith
contains-select p x (y ∷ ys) = elim (Bool-cases (x == y)) [
  | inl same ↦ let e : x ≡ y = ground arith in rw e (ground (arith, contains-select p y ys))
  | inr ne ↦ ground (arith, contains-select p x ys)
]

contains-put_in_order :
    (x y : String) (xs : List String) → contains (put_in_order x xs) y ≡ (y == x || contains xs y)
unfolding put_in_order
contains-put_in_order x y [] = refl
contains-put_in_order x y (z ∷ zs) = ground (arith, contains-put_in_order x y zs)

-- Sorting keeps the elements.
pub contains-sorted : (y : String) (xs : List String) → contains (sorted xs) y ≡ contains xs y
unfolding sorted
contains-sorted y [] = refl
contains-sorted y (x ∷ xs) = contains-put_in_order x y (sorted xs) ∙ rw (contains-sorted y xs)

-- What stands in one list or in another.
pub contains-append :
    (xs ys : List String) (x : String) → contains (xs ++ ys) x ≡ (contains xs x || contains ys x)
contains-append [] ys x = refl
contains-append (y ∷ xs) ys x = ground (arith, contains-append xs ys x)
