-- ===== src/Native/Quoted.antt =====
-- How TOML reads what vllm_sail/native/porting.py quotes.
use Prim.Native.Char.{Char, code}
use Prim.Native.String.append
use text.Mathlib.TextEquality.{Char-path}
use vllm_sail.Base.{
  String, Bool, true, false, not, ◌&&◌, ◌||◌, Option, none, some, ◌<>◌, ◌≡◌, refl, inl, inr,
}
use vllm_sail.Base.{◌==◌, ==_true, nat_eq, leb, if◌then◌else◌, Bool-cases, both_true}
use vllm_sail.Base.Failing.{◌>>=◌}
use vllm_sail.Native.Render.{backslash, quote, replace_char, escape}

-- A character that a basic string of TOML may hold: no control character but the tab.
abbrev pub is_plain : Char → Bool
unfolding nat_eq
is_plain c = (leb 32 (code c) || code c == 9) && not (code c == 127)

unfoldable pub all_plain : String → Bool
unfolding nat_eq
all_plain String.[] = true
all_plain (String.◌∷◌ c s) = is_plain c && all_plain s

-- How TOML reads a basic string behind its opening quote, as far as `_escape` escapes: the value, and
-- what follows the closing quote. `escaped` tells that a backslash stands before.
unfoldable pub read_basic : Bool → String → Option (String × String)
unfolding nat_eq
read_basic escaped String.[] = none
read_basic true (String.◌∷◌ c s) =
    let rest = read_basic false s in
    if code c == code backslash || code c == code quote
    then (rest >>= λ r. some (String.◌∷◌ c (r.0), r.1))
    else none
read_basic false (String.◌∷◌ c s) =
    let rest = read_basic false s in
    let behind = read_basic true s in
    if code c == code quote
    then some ("", s)
    else if code c == code backslash
    then behind
    else if is_plain c
    then (rest >>= λ r. some (String.◌∷◌ c (r.0), r.1))
    else none

escape-backslash :
    (s : String)
    → escape (String.◌∷◌ backslash s) ≡ String.◌∷◌ backslash (String.◌∷◌ backslash (escape s))
unfolding escape replace_char nat_eq
escape-backslash s = refl

escape-quote :
    (s : String) → escape (String.◌∷◌ quote s) ≡ String.◌∷◌ backslash (String.◌∷◌ quote (escape s))
unfolding escape replace_char nat_eq
escape-quote s = refl

escape_other :
    (c : Char) (s : String)
    → (code c == code backslash) ≡ false
    → (code c == code quote) ≡ false
    → escape (String.◌∷◌ c s) ≡ String.◌∷◌ c (escape s)
unfolding escape replace_char
escape_other c s a b = rw a (rw b refl)

-- A value without control characters is read back from its quoted form: `_escape`, a closing quote and
-- any further text are read as the value and that text.
pub read_basic-escape :
    (value rest : String)
    → all_plain value ≡ true
    → read_basic false (escape value <> String.◌∷◌ quote rest) ≡ some (value, rest)
unfolding read_basic escape replace_char all_plain nat_eq
read_basic-escape String.[] rest plain = rw (append.nil (String.◌∷◌ quote rest)) refl
read_basic-escape (String.◌∷◌ c s) rest plain =
    let (plain_c, plain_s) = both_true (is_plain c) _ plain in
    let back = read_basic-escape s rest plain_s in
    let tail = String.◌∷◌ quote rest in
    elim (Bool-cases (code c == code backslash)) [
      | inl a ↦
          let e : c ≡ backslash = Char-path c backslash (==_true (code c) (code backslash) a) in
          rw (
            e,
            escape-backslash s,
            append.cons backslash (String.◌∷◌ backslash (escape s)) tail,
            append.cons backslash (escape s) tail,
            back,
          )
      | inr a ↦ elim (Bool-cases (code c == code quote)) [
        | inl b ↦
            let e : c ≡ quote = Char-path c quote (==_true (code c) (code quote) b) in
            rw (
              e,
              escape-quote s,
              append.cons backslash (String.◌∷◌ quote (escape s)) tail,
              append.cons quote (escape s) tail,
              back,
            )
        | inr b ↦ rw (escape_other c s a b, append.cons c (escape s) tail, a, b, plain_c, back)
      ]
    ]
