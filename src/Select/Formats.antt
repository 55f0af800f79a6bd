-- ===== src/Select/Formats.antt =====
-- The checks of scripts/ci/ppu_ops_select.py on single values: lists of texts, paths, commit hashes,
-- image digests and decimal numbers. What Python tests about the type of a JSON value holds by the
-- types here.
use Prim.Native.Char.{code}
use vllm_sail.Base.{ℕ, String, Bool, true, false, not, ◌&&◌, ◌||◌, Option, some}
use vllm_sail.Base.{
  List, [], ◌∷◌, ◌==◌, nat_eq, string_eq, leb, contains, any, all, length, if◌then◌else◌,
}
use vllm_sail.Base.Sorting.{sorted_set}
use vllm_sail.Base.Failing.{◌>>=◌, ◌>>◌, require}

-- The code points of a text.
abbrev pub codes : String → List ℕ
codes String.[] = []
codes (String.◌∷◌ c s) = code c ∷ codes s

abbrev pub is_nonempty : String → Bool
is_nonempty String.[] = false
is_nonempty (String.◌∷◌ c s) = true

-- `strings(value)`: no empty text and no duplicate.
unfoldable pub strings : List String → Option (List String)
unfolding sorted_set
strings xs = do require (all is_nonempty xs); require (length xs == length (sorted_set xs)); some xs

-- `strings(value, nonempty=True)`
unfoldable pub nonempty_strings : List String → Option (List String)
unfolding strings
nonempty_strings xs = do ys ← strings xs; require (not (length ys == 0)); some ys

abbrev in_range : ℕ → ℕ → ℕ → Bool
in_range low high c = leb low c && leb c high

abbrev is_digit : ℕ → Bool
is_digit = in_range b'0' b'9'

abbrev is_lower_hex : ℕ → Bool
is_lower_hex c = is_digit c || in_range b'a' b'f' c

abbrev pub is_alphanumeric : ℕ → Bool
is_alphanumeric c = is_digit c || in_range b'a' b'z' c || in_range b'A' b'Z' c

-- `[0-9a-f]{n}`
is_hex : ℕ → List ℕ → Bool
unfolding nat_eq
is_hex n cs = length cs == n && all is_lower_hex cs

-- The components between slashes, of which the first is passed on separately.
components_from : List ℕ → List ℕ × List (List ℕ)
unfolding nat_eq
components_from [] = ([], [])
components_from (c ∷ cs) =
    let (word, words) = components_from cs in
    if c == b'/' then ([], word ∷ words) else (c ∷ word, words)

components : List ℕ → List (List ℕ)
unfolding components_from
components cs = let (word, words) = components_from cs in word ∷ words

-- `text.rstrip("/")`
strip_slashes : List ℕ → List ℕ
unfolding nat_eq
strip_slashes [] = []
strip_slashes (c ∷ cs) = trimmed c (strip_slashes cs)
  where
    trimmed : ℕ → List ℕ → List ℕ
    trimmed c [] = if c == b'/' then [] else c ∷ []
    trimmed c (d ∷ ds) = c ∷ d ∷ ds

-- A component that is neither empty nor `.` nor `..`.
abbrev is_component : List ℕ → Bool
is_component [] = false
is_component (c ∷ []) = not (c == b'.')
is_component (c ∷ d ∷ []) = not (c == b'.' && d == b'.')
is_component (c ∷ d ∷ e ∷ cs) = true

abbrev starts_badly : List ℕ → Bool
starts_badly [] = false
starts_badly (c ∷ cs) = c == b'/' || c == b'-'

-- Backslash, NUL, colon, line feed and carriage return.
abbrev bad_path_codes : List ℕ
bad_path_codes = 92 ∷ 0 ∷ b':' ∷ 10 ∷ 13 ∷ []

abbrev glob_codes : List ℕ
glob_codes = b'*' ∷ b'?' ∷ b'[' ∷ b']' ∷ []

-- `safe_path(value, pattern=pattern)` as a truth value.
unfoldable pub is_safe_path : Bool → String → Bool
unfolding nat_eq components strip_slashes
is_safe_path pattern s =
    is_nonempty s
    && not (starts_badly (codes s))
    && not (any (contains bad_path_codes) (codes s))
    && all is_component (components (strip_slashes (codes s)))
    && (pattern || not (any (contains glob_codes) (codes s)))

unfoldable pub safe_path : Bool → String → Option String
unfolding is_safe_path
safe_path pattern s = require (is_safe_path pattern s) >> some s

-- `sha(value)`
unfoldable pub is_sha : String → Bool
unfolding is_hex
is_sha s = is_hex 40 (codes s)

unfoldable pub sha : String → Option String
unfolding is_sha
sha s = require (is_sha s) >> some s

-- `[0-9a-f]{64}`
unfoldable pub is_sha256 : String → Bool
unfolding is_hex
is_sha256 s = is_hex 64 (codes s)

abbrev is_image_code : ℕ → Bool
is_image_code c = is_alphanumeric c || contains (b'.' ∷ b'_' ∷ b':' ∷ b'/' ∷ b'-' ∷ []) c

-- `sha256:[0-9a-f]{64}`
is_digest : List ℕ → Bool
unfolding is_hex
is_digest (s ∷ h ∷ a ∷ two ∷ five ∷ six ∷ colon ∷ digest) =
    s == b's'
    && h == b'h'
    && a == b'a'
    && two == b'2'
    && five == b'5'
    && six == b'6'
    && colon == b':'
    && is_hex 64 digest
is_digest _ = false

-- The rest of an image name, up to its digest. No code of the name is `@`.
is_image_rest : List ℕ → Bool
unfolding is_digest
is_image_rest [] = false
is_image_rest (c ∷ cs) = if c == b'@' then is_digest cs else is_image_code c && is_image_rest cs

is_image : List ℕ → Bool
unfolding is_image_rest
is_image [] = false
is_image (c ∷ cs) = is_alphanumeric c && is_image_rest cs

-- `digest_image(value)`
unfoldable pub digest_image : String → Option String
unfolding is_image
digest_image s = require (is_image (codes s)) >> some s

unfoldable pub is_decimal : List ℕ → Bool
unfolding nat_eq
is_decimal [] = false
is_decimal (c ∷ cs) = in_range b'1' b'9' c && all is_digit cs

-- `decimal(value)`
unfoldable pub decimal : String → Option String
unfolding is_decimal
decimal s = require (is_decimal (codes s)) >> some s
