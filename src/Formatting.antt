-- ===== src/Formatting.antt =====
-- utils/formatting.rs: names made from a pattern with `:key` variables.
use Prim.Native.String.{[], ◌∷◌}
use text.Mathlib.TextLemmas.{nil-append, cons-append}
use matrix_bridge_slack.Prelude.{
  Char, code, eqb, ap, ◌≡◌, refl, String, false, List, [], ◌∷◌, arith, Bool-cases, inl, inr,
}
use matrix_bridge_slack.Text.{◌⧺◌, contains_char, strip_prefix, starts_with}
use matrix_bridge_slack.Text.Replace.{replace, replace_from}

unfoldable pub apply_pattern_string : String → List (String × String) → String
apply_pattern_string pattern [] = pattern
apply_pattern_string pattern ((key, value) ∷ vars) =
    apply_pattern_string (replace pattern (":" ⧺ key) value) vars

no_match :
    (key : String) (c : Char) (s : String)
    → eqb (code c) 58 ≡ false
    → starts_with (c ∷ s) (":" ⧺ key) ≡ false
unfolding strip_prefix
no_match key c s h = rw (cons-append ":" "" key) (rw (nil-append key) (ground (arith, h)))

replace_plain :
    (key value text : String)
    → contains_char text 58 ≡ false
    → replace_from (":" ⧺ key) value 0 text ≡ text
unfolding contains_char replace_from
replace_plain key value [] h = refl
replace_plain key value (c ∷ s) h = elim (Bool-cases (eqb (code c) 58)) [
  | inl colon ↦ absurd (ground (arith, rw colon at h))
  | inr other ↦
      rw (no_match key c s other) (ap (λ t. c ∷ t) (replace_plain key value s (rw other at h)))
]

-- A pattern without a colon is the name, whatever the variables are.
pub apply_pattern_string-plain :
    (pattern : String) (vars : List (String × String))
    → contains_char pattern 58 ≡ false
    → apply_pattern_string pattern vars ≡ pattern
unfolding apply_pattern_string replace
apply_pattern_string-plain pattern [] h = refl
apply_pattern_string-plain pattern ((key, value) ∷ vars) h =
    rw (replace_plain key value pattern h) (apply_pattern_string-plain pattern vars h)

test :
    apply_pattern_string ":username#:tag"
      (("id", "1234") ∷ ("tag", "5678") ∷ ("username", "testuser") ∷ [])
    ≡ "testuser#5678"
unfolding apply_pattern_string replace strip_prefix
test = refl
