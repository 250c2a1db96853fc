-- ===== src/Text/Trim.antt =====
-- What trimming leaves.
use Prim.Native.String.{String, [], ◌∷◌}
use text.Mathlib.TextLemmas.{nil-append, cons-append}
use matrix_bridge_slack.Prelude.{
  ◌≡◌, refl, ap, ◌∙◌, false, arith, Bool-cases, inl, inr, ◌&&◌, Char, ◌⊎◌,
}
use matrix_bridge_slack.Text.{
  ◌⧺◌, is_blank, is_whitespace, same, trim_start, trim_end, strip_prefix, starts_with,
}

-- No character of the text is white space.
abbrev pub NoBlank : String → Type 0
NoBlank [] = Unit
NoBlank (c ∷ s) = (is_whitespace c ≡ false) × NoBlank s

-- A prefix without white space is found in the trimmed text exactly when it is found before.
pub starts_with-trim_end : (s p : String) → NoBlank p → starts_with (trim_end s) p ≡ starts_with s p
unfolding strip_prefix trim_end
starts_with-trim_end s [] h = refl
starts_with-trim_end [] (d ∷ p) h = refl
starts_with-trim_end (c ∷ s) (d ∷ p) (solid, rest) =
    elim (Bool-cases (is_blank (trim_end s) && is_whitespace c)) [
      | inl e ↦ rw e (elim (Bool-cases (same c d)) [ inl k ↦ absurd (ground arith) | inr k ↦ rw k ])
      | inr e ↦ rw e (elim (Bool-cases (same c d)) [
        | inl k ↦ rw k (starts_with-trim_end s p rest)
        | inr k ↦ rw k
      ])
    ]

pub trim_start-head :
    (s : String)
    → (trim_start s ≡ [])
      ⊎ ((c : Char) × (t : String) × (trim_start s ≡ c ∷ t) × (is_whitespace c ≡ false))
unfolding trim_start
trim_start-head [] = inl refl
trim_start-head (c ∷ s) = elim (Bool-cases (is_whitespace c)) [
  | inl e ↦ rw e (trim_start-head s)
  | inr e ↦ inr (c, s, (rw e), e)
]

pub is_blank-append : (s t : String) → is_blank t ≡ false → is_blank (s ⧺ t) ≡ false
is_blank-append [] t h = rw (nil-append t) h
is_blank-append (c ∷ s) t h = rw (cons-append c s t)

-- Trimming the end leaves what stands before a text that is not all white space.
pub trim_end-append :
    (s t : String) → is_blank (trim_end t) ≡ false → trim_end (s ⧺ t) ≡ s ⧺ trim_end t
unfolding trim_end
trim_end-append [] t h = simp nil-append
trim_end-append (c ∷ s) t h =
    rw (cons-append c s t, cons-append c s (trim_end t))
      (rw (trim_end-append s t h, is_blank-append s (trim_end t) h))

pub trim_end-append_fixed :
    (s t : String) → is_blank t ≡ false → trim_end t ≡ t → trim_end (s ⧺ t) ≡ s ⧺ t
trim_end-append_fixed s t h e =
    let b : is_blank (trim_end t) ≡ false = rw e h in trim_end-append s t b ∙ ap (◌⧺◌ s) e

pub trim_end-NoBlank : (s : String) → NoBlank s → trim_end s ≡ s
unfolding trim_end
trim_end-NoBlank [] h = refl
trim_end-NoBlank (c ∷ s) (h, hs) = rw (trim_end-NoBlank s hs) (ground arith)

-- The first character is not white space.
abbrev pub StartsSolid : String → Type 0
StartsSolid [] = ⊥
StartsSolid (c ∷ s) = is_whitespace c ≡ false

pub is_blank-StartsSolid : (s : String) → StartsSolid s → is_blank s ≡ false
is_blank-StartsSolid [] h = absurd h
is_blank-StartsSolid (c ∷ s) h = refl

pub trim_start-StartsSolid : (s : String) → StartsSolid s → trim_start s ≡ s
unfolding trim_start
trim_start-StartsSolid [] h = absurd h
trim_start-StartsSolid (c ∷ s) h = rw h

pub StartsSolid-append : (s t : String) → StartsSolid s → StartsSolid (s ⧺ t)
StartsSolid-append [] t h = absurd h
StartsSolid-append (c ∷ s) t h = rw (cons-append c s t) h
