-- ===== src/Compat/Version.antt =====
-- Versions as texts and as keys: `_version_key` and `is_dev_build` of vllm_sail/compat.py.
use Prim.Native.Char.{Char, code}
use vllm_sail.Base.{ℕ, String, Bool, true, false, not, ◌&&◌, ◌||◌, Option, none, some}
use vllm_sail.Base.{List, [], ◌∷◌, ◌==◌, nat_eq, length, leb, ltb, if◌then◌else◌}
use vllm_sail.Base.Failing.{◌>>=◌}
use vllm_sail.Patch.Path.{is_space, split_dot}
use vllm_sail.Select.Config.{starts_with}

-- `str.isdigit` of a character, `int` of a text (`none` raises ValueError), and `str.lower`.
pub record Texts : Type 0 where
  pub is_digit : Char → Bool
  pub int_of : String → Option ℕ
  pub lower : String → String

abbrev trimmed : Char → String → String
trimmed c String.[] = if is_space c then String.[] else String.◌∷◌ c String.[]
trimmed c (String.◌∷◌ d s) = String.◌∷◌ c (String.◌∷◌ d s)

unfoldable pub rstrip : String → String
unfolding is_space
rstrip String.[] = String.[]
rstrip (String.◌∷◌ c s) = trimmed c (rstrip s)

unfoldable pub lstrip : (Char → Bool) → String → String
lstrip p String.[] = String.[]
lstrip p (String.◌∷◌ c s) = let rest = lstrip p s in if p c then rest else String.◌∷◌ c s

-- `text.strip()`
unfoldable pub strip : String → String
unfolding rstrip lstrip is_space
strip s = lstrip is_space (rstrip s)

-- The text in front of the first character of a kind: `split("+", 1)[0]`, and the leading digits.
unfoldable pub up_to : (Char → Bool) → String → String
up_to p String.[] = String.[]
up_to p (String.◌∷◌ c s) = let rest = up_to p s in if p c then String.[] else String.◌∷◌ c rest

abbrev is_empty : String → Bool
is_empty String.[] = true
is_empty (String.◌∷◌ c s) = false

-- The loop over the chunks.
unfoldable pub parts_of : Texts → List String → Option (List ℕ)
unfolding up_to
parts_of t [] = some []
parts_of t (chunk ∷ chunks) =
    let rest = parts_of t chunks in
    let digits = up_to (λ c. not (t.is_digit c)) chunk in
    if is_empty digits then some [] else t.int_of digits >>= λ n. rest >>= λ ns. some (n ∷ ns)

-- `_version_key`: the outer `none` is a ValueError, the inner one is `None`.
unfoldable pub version_key : Texts → String → Option (Option (List ℕ))
unfolding strip lstrip up_to parts_of split_dot nat_eq
version_key t version =
    let head = up_to (λ c. code c == b'+') (lstrip (λ c. code c == b'v') (strip version)) in
    parts_of t (split_dot head) >>= λ parts.
    some (if leb 2 (length parts) then some parts else none)

-- `part in text`
unfoldable pub has_part : String → String → Bool
unfolding starts_with
has_part part String.[] = starts_with String.[] part
has_part part (String.◌∷◌ c s) = starts_with (String.◌∷◌ c s) part || has_part part s

-- `is_dev_build`. A text that ends in `.dev` contains it.
unfoldable pub is_dev_build : Texts → String → Bool
unfolding strip has_part
is_dev_build t version =
    let lowered = t.lower (strip version) in has_part ".dev" lowered || has_part "+g" lowered

-- `a < b` of two tuples.
unfoldable pub key_ltb : List ℕ → List ℕ → Bool
unfolding nat_eq
key_ltb a [] = false
key_ltb [] (y ∷ ys) = true
key_ltb (x ∷ xs) (y ∷ ys) = ltb x y || x == y && key_ltb xs ys
