-- ===== src/Text/Words.antt =====
-- The pieces between white space, and those of words printed with single spaces.
use Prim.Native.String.{String, [], ◌∷◌}
use text.Mathlib.TextLemmas.{nil-append, cons-append}
use matrix_bridge_slack.Prelude.{
  ◌≡◌, refl, ap, false, arith, Bool-cases, inl, inr, not, Char, List, [], ◌∷◌, All, retain,
}
use matrix_bridge_slack.Text.{
  ◌⧺◌, is_blank, is_whitespace, whitespace_code, extend, split_blanks, split_whitespace, join,
  trim_end, trim,
}
use matrix_bridge_slack.Text.Trim.{
  NoBlank, trim_end-NoBlank, trim_end-append_fixed, is_blank-append, is_blank-StartsSolid,
  StartsSolid, StartsSolid-append, trim_start-StartsSolid,
}

-- A word: not empty, and without white space.
abbrev pub IsWord : String → Type 0
IsWord w = (is_blank w ≡ false) × NoBlank w

extend-NoBlank :
    (c : Char) (ws : List String)
    → is_whitespace c ≡ false
    → All NoBlank ws
    → All NoBlank (extend c ws)
extend-NoBlank c [] h hs = ((h, tt), tt)
extend-NoBlank c (w ∷ ws) h (k, ks) = ((h, k), ks)

split_blanks-NoBlank : (s : String) → All NoBlank (split_blanks s)
unfolding split_blanks
split_blanks-NoBlank [] = (tt, tt)
split_blanks-NoBlank (c ∷ s) = elim (Bool-cases (is_whitespace c)) [
  | inl e ↦ rw e (tt, split_blanks-NoBlank s)
  | inr e ↦ rw e (extend-NoBlank c (split_blanks s) e (split_blanks-NoBlank s))
]

retain-IsWord : (ws : List String) → All NoBlank ws → All IsWord (retain (λ w. not (is_blank w)) ws)
retain-IsWord [] h = tt
retain-IsWord ([] ∷ ws) (h, hs) = retain-IsWord ws hs
retain-IsWord ((c ∷ w) ∷ ws) (h, hs) = ((refl, h), retain-IsWord ws hs)

pub split_whitespace-IsWord : (s : String) → All IsWord (split_whitespace s)
unfolding split_whitespace
split_whitespace-IsWord s = retain-IsWord _ (split_blanks-NoBlank s)

-- A word in front of a space is the first piece.
split_blanks-word : (w s : String) → NoBlank w → split_blanks (w ⧺ " " ⧺ s) ≡ w ∷ split_blanks s
unfolding split_blanks whitespace_code
split_blanks-word [] s h = rw nil-append (rw (cons-append " " "" s) (rw (nil-append s)))
split_blanks-word (c ∷ w) s (h, hs) =
    rw (cons-append c w (" " ⧺ s)) (rw h (rw (split_blanks-word w s hs)))

split_blanks-last : (w : String) → NoBlank w → split_blanks w ≡ w ∷ []
unfolding split_blanks
split_blanks-last [] h = refl
split_blanks-last (c ∷ w) (h, hs) = rw h (rw (split_blanks-last w hs))

pub split_whitespace-join : (ws : List String) → All IsWord ws → split_whitespace (join " " ws) ≡ ws
unfolding split_whitespace join
split_whitespace-join [] h = refl
split_whitespace-join ([] ∷ ws) h = absurd (ground arith)
split_whitespace-join ((c ∷ w) ∷ []) ((_, h), _) = rw (split_blanks-last (c ∷ w) h)
split_whitespace-join ((c ∷ w) ∷ v ∷ ws) ((_, h), hs) =
    rw (split_blanks-word (c ∷ w) (join " " (v ∷ ws)) h)
      (ap (◌∷◌ (c ∷ w)) (split_whitespace-join (v ∷ ws) hs))

StartsSolid-IsWord : (w : String) → IsWord w → StartsSolid w
StartsSolid-IsWord [] h = absurd (ground arith)
StartsSolid-IsWord (c ∷ w) h = h.1.0

pub StartsSolid-join : (w : String) (ws : List String) → IsWord w → StartsSolid (join " " (w ∷ ws))
unfolding join
StartsSolid-join w [] h = StartsSolid-IsWord w h
StartsSolid-join w (v ∷ ws) h = StartsSolid-append w _ (StartsSolid-IsWord w h)

pub trim_end-join :
    (w : String) (ws : List String)
    → IsWord w
    → All IsWord ws
    → trim_end (join " " (w ∷ ws)) ≡ join " " (w ∷ ws)
unfolding join
trim_end-join w [] (_, h) _ = trim_end-NoBlank w h
trim_end-join w (v ∷ ws) h (k, ks) =
    let joined = join " " (v ∷ ws) in
    let solid = is_blank-StartsSolid joined (StartsSolid-join v ws k) in
    let spaced = trim_end-append_fixed " " joined solid (trim_end-join v ws k ks) in
    trim_end-append_fixed w (" " ⧺ joined) (is_blank-append " " joined solid) spaced

-- Words joined by single spaces have nothing to trim.
pub trim-join :
    (w : String) (ws : List String)
    → IsWord w
    → All IsWord ws
    → trim (join " " (w ∷ ws)) ≡ join " " (w ∷ ws)
unfolding trim
trim-join w ws h hs =
    rw (trim_start-StartsSolid _ (StartsSolid-join w ws h)) (trim_end-join w ws h hs)

pub trim-space : (s : String) → trim (" " ⧺ s) ≡ trim s
unfolding trim whitespace_code
trim-space s = rw (cons-append " " "" s) (rw (nil-append s))

pub is_blank-join :
    (w : String) (ws : List String) → IsWord w → is_blank (join " " (w ∷ ws)) ≡ false
is_blank-join w ws h = is_blank-StartsSolid _ (StartsSolid-join w ws h)
