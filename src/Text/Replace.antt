-- ===== src/Text/Replace.antt =====
-- Rust's `str::replace`, by a character and by a text, `lines`, and `split` by a character.
pub mod Laws
use Prim.Native.String.{String, [], ◌∷◌, count}
use matrix_bridge_slack.Prelude.{
  ℕ, zero, suc, List, [], ◌∷◌, eqb, code, Char, Bool, ◌&&◌, Option, none, some, if◌then◌else◌,
}
use matrix_bridge_slack.Text.{◌⧺◌, is_blank, starts_with, extend, strip_suffix}

-- `s.replace(ch, to)`
unfoldable pub replace_char : ℕ → String → String → String
replace_char n to [] = []
replace_char n to (c ∷ s) =
    let rest = replace_char n to s in if eqb (code c) n then to ⧺ rest else c ∷ rest

abbrev pub chars_after_first : String → ℕ
chars_after_first [] = 0
chars_after_first (c ∷ s) = count s

-- `s.replace(from, to)` for a `from` that is not empty; `skip` characters belong to the last match
unfoldable pub replace_from : String → String → ℕ → String → String
replace_from from to skip [] = []
replace_from from to (suc skip) (c ∷ s) = replace_from from to skip s
replace_from from to zero (c ∷ s) =
    let after = replace_from from to (chars_after_first from) s in
    let kept = replace_from from to zero s in
    if starts_with (c ∷ s) from then to ⧺ after else c ∷ kept

unfoldable pub replace : String → String → String → String
unfolding replace_from
replace s from to = replace_from from to zero s

-- `s.split(ch)`
unfoldable pub split_char : ℕ → String → List String
split_char n [] = [] ∷ []
split_char n (c ∷ s) =
    let rest = split_char n s in if eqb (code c) n then [] ∷ rest else extend c rest

-- the last piece is left out if it is empty
abbrev pub drop_last_blank : List String → List String
drop_last_blank [] = []
drop_last_blank (w ∷ []) = if is_blank w then [] else w ∷ []
drop_last_blank (w ∷ v ∷ ws) = w ∷ drop_last_blank (v ∷ ws)

abbrev drop_cr : Option String → String → String
drop_cr none line = line
drop_cr (some shorter) line = shorter

abbrev pub map_text : (String → String) → List String → List String
map_text f [] = []
map_text f (w ∷ ws) = f w ∷ map_text f ws

-- `s.trim_end_matches(ch)`
unfoldable pub trim_end_char : ℕ → String → String
trim_end_char n [] = []
trim_end_char n (c ∷ s) =
    let rest = trim_end_char n s in if is_blank rest && eqb (code c) n then [] else c ∷ rest

-- `s.lines()`: a line ends at a line feed, and a carriage return before it is left out
unfoldable pub lines : String → List String
unfolding split_char strip_suffix
lines s =
    map_text (λ line. drop_cr (strip_suffix line "\r") line) (drop_last_blank (split_char 10 s))
