-- ===== src/Text.antt =====
-- What the program uses of Rust's `str`: trimming, prefixes, splitting. Code points stand for chars.
pub mod Prefix
pub mod Trim
pub mod Words
pub mod Replace
pub mod Decimal
pub mod Slack
use Prim.Native.String.{String, [], ◌∷◌}
use Prim.Native.String
use matrix_bridge_slack.Prelude.{
  ℕ, Char, code, Bool, true, false, not, ◌&&◌, ◌||◌, Option, none, some, List, [], ◌∷◌, leb, eqb,
  is_some, retain, ◌==◌, if◌then◌else◌,
}

infixr 65 ◌⧺◌
-- concatenation of texts, as `format!` and `push_str` do it
abbrev pub ◌⧺◌ : String → String → String
s ⧺ t = String.◌++◌ s t

abbrev pub is_blank : String → Bool
is_blank [] = true
is_blank (c ∷ s) = false

abbrev pub same : Char → Char → Bool
same c d = eqb (code c) (code d)

-- Unicode's White_Space, which `char::is_whitespace` tests
unfoldable pub whitespace_code : ℕ → Bool
whitespace_code n =
    (leb 0x9 n && leb n 0xd)
    || eqb n 0x20
    || eqb n 0x85
    || eqb n 0xa0
    || eqb n 0x1680
    || (leb 0x2000 n && leb n 0x200a)
    || eqb n 0x2028
    || eqb n 0x2029
    || eqb n 0x202f
    || eqb n 0x205f
    || eqb n 0x3000

abbrev pub is_whitespace : Char → Bool
is_whitespace c = whitespace_code (code c)

unfoldable pub trim_start : String → String
trim_start [] = []
trim_start (c ∷ s) = let rest = trim_start s in if is_whitespace c then rest else c ∷ s

unfoldable pub trim_end : String → String
trim_end [] = []
trim_end (c ∷ s) =
    let rest = trim_end s in if is_blank rest && is_whitespace c then [] else c ∷ rest

unfoldable pub trim : String → String
unfolding trim_start trim_end
trim s = trim_end (trim_start s)

-- `s.strip_prefix(p)`
unfoldable pub strip_prefix : String → String → Option String
strip_prefix s [] = some s
strip_prefix [] (d ∷ p) = none
strip_prefix (c ∷ s) (d ∷ p) = let rest = strip_prefix s p in if same c d then rest else none

-- `s.strip_suffix(p)`
unfoldable pub strip_suffix : String → String → Option String
strip_suffix [] p = if p == [] then some [] else none
strip_suffix (c ∷ s) p =
    let shorter = strip_suffix s p in
    if (c ∷ s) == p then some [] else elim shorter [ none ↦ none | some t ↦ some (c ∷ t) ]

abbrev pub starts_with : String → String → Bool
starts_with s p = is_some (strip_prefix s p)

-- `s.contains(ch)`
unfoldable pub contains_char : String → ℕ → Bool
contains_char [] n = false
contains_char (c ∷ s) n = eqb (code c) n || contains_char s n

-- a character in front of the first piece
abbrev pub extend : Char → List String → List String
extend c [] = (c ∷ []) ∷ []
extend c (w ∷ ws) = (c ∷ w) ∷ ws

-- `s.split(char::is_whitespace)`
unfoldable pub split_blanks : String → List String
split_blanks [] = [] ∷ []
split_blanks (c ∷ s) =
    let rest = split_blanks s in if is_whitespace c then [] ∷ rest else extend c rest

-- `s.split_whitespace()`: the pieces that are not empty
unfoldable pub split_whitespace : String → List String
unfolding split_blanks
split_whitespace s = retain (λ w. not (is_blank w)) (split_blanks s)

-- `s.split_once(ch)`
unfoldable pub split_once : String → ℕ → Option (String × String)
split_once [] n = none
split_once (c ∷ s) n =
    let later = split_once s n in
    if eqb (code c) n
    then some ([], s)
    else elim later [ none ↦ none | some (a, b) ↦ some (c ∷ a, b) ]

-- `parts.join(sep)`
unfoldable pub join : String → List String → String
join sep [] = []
join sep (w ∷ []) = w
join sep (w ∷ v ∷ ws) = w ⧺ sep ⧺ join sep (v ∷ ws)
