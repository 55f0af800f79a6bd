-- ===== src/Patch/Path.antt =====
-- The dotted paths of vllm_sail/patch/utils.py: `str.strip` as a truth value, `str.split(".")`,
-- `str.rpartition(".")` and `"." in path`.
use Prim.Native.Char.{Char, code}
use vllm_sail.Base.{ℕ, String, Bool, true, false, ◌&&◌, ◌||◌, Option, none, some}
use vllm_sail.Base.{List, [], ◌∷◌, ◌==◌, nat_eq, if◌then◌else◌, contains, leb, not}

abbrev pub is_dot : Char → Bool
is_dot c = code c == b'.'

-- The white space outside ASCII and outside U+2000 to U+200A.
abbrev wide_spaces : List ℕ
wide_spaces = 0x85 ∷ 0xa0 ∷ 0x1680 ∷ 0x2028 ∷ 0x2029 ∷ 0x202f ∷ 0x205f ∷ 0x3000 ∷ []

-- What `str.strip` removes.
unfoldable pub is_space : Char → Bool
unfolding nat_eq
is_space c =
    leb 9 (code c) && leb (code c) 13
    || leb 28 (code c) && leb (code c) 32
    || leb 0x2000 (code c) && leb (code c) 0x200a
    || contains wide_spaces (code c)

-- `bool(text.strip())`: some character is no white space.
unfoldable pub is_nonblank : String → Bool
unfolding is_space
is_nonblank String.[] = false
is_nonblank (String.◌∷◌ c s) = not (is_space c) || is_nonblank s

-- `bool(text)`
unfoldable pub is_nonempty : String → Bool
is_nonempty String.[] = false
is_nonempty (String.◌∷◌ c s) = true

-- `"." in text`
unfoldable pub has_dot : String → Bool
unfolding nat_eq
has_dot String.[] = false
has_dot (String.◌∷◌ c s) = is_dot c || has_dot s

unfoldable pub rpartition_step : Char → String → Option (String × String) → Option (String × String)
unfolding nat_eq
rpartition_step c s (some (head, last)) = some (String.◌∷◌ c head, last)
rpartition_step c s none = if is_dot c then some (String.[], s) else none

-- `text.rpartition(".")`: the texts before and after the last dot, or `none` where there is none.
unfoldable pub rpartition_dot : String → Option (String × String)
unfolding rpartition_step
rpartition_dot String.[] = none
rpartition_dot (String.◌∷◌ c s) = rpartition_step c s (rpartition_dot s)

-- `text.split(".")`; the first word is passed on separately, since there always is one.
split_from : String → String × List String
unfolding nat_eq
split_from String.[] = (String.[], [])
split_from (String.◌∷◌ c s) =
    let (word, words) = split_from s in
    if is_dot c then (String.[], word ∷ words) else (String.◌∷◌ c word, words)

unfoldable pub split_dot : String → List String
unfolding split_from
split_dot s = let (word, words) = split_from s in word ∷ words
