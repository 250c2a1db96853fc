-- ===== src/Text/Prefix.antt =====
-- Prefixes and suffixes that are stripped, and membership of a character.
use Prim.Native.String.{String, [], ◌∷◌, count}
use text.Mathlib.TextEquality.{Char-path}
use text.Mathlib.TextLemmas.{nil-append, cons-append, length-append, length-cons}
use matrix_bridge_slack.Prelude.{
  ◌≡◌, refl, ap, some, arith, Bool-cases, inl, inr, eq_iff, eq_refl, ◌≢◌, Option-cases, Char, ◌==◌,
}
use matrix_bridge_slack.Text.{◌⧺◌, same, strip_prefix, strip_suffix}

pub strip_prefix-append : (p s : String) → strip_prefix (p ⧺ s) p ≡ some s
unfolding strip_prefix
strip_prefix-append [] s = rw nil-append
strip_prefix-append (c ∷ p) s = rw cons-append (ground (arith, strip_prefix-append p s))

pub strip_prefix_sound : (s p r : String) → strip_prefix s p ≡ some r → s ≡ p ⧺ r
unfolding strip_prefix
strip_prefix_sound s [] r h = rw nil-append (cc)
strip_prefix_sound [] (d ∷ p) r h = cc
strip_prefix_sound (c ∷ s) (d ∷ p) r h = elim (Bool-cases (same c d)) [
  | inl e ↦
      let ih = strip_prefix_sound s p r (ground arith) in
      rw cons-append (cc (Char-path c d (ground arith), ih))
  | inr e ↦ absurd (ground arith)
]

pub strip_suffix_sound : (s p r : String) → strip_suffix s p ≡ some r → s ≡ r ⧺ p
unfolding strip_suffix
strip_suffix_sound [] p r h = elim (Bool-cases (p == "")) [
  | inl e ↦ let q = (eq_iff p "").0 e in cc (nil-append p, (rw e at h))
  | inr e ↦ absurd (ground arith)
]
strip_suffix_sound (c ∷ s) p r h = elim (Bool-cases ((c ∷ s) == p)) [
  | inl e ↦ cc (nil-append p, (eq_iff (c ∷ s) p).0 e, (rw e at h))
  | inr e ↦ elim (Option-cases (strip_suffix s p)) [
    | inl gone ↦ absurd (ground arith)
    | inr (t, got) ↦ cc (strip_suffix_sound s p t got, cons-append c t p, (rw (e, got) at h))
  ]
]

longer_ne : (c : Char) (s p : String) → (c ∷ s) ⧺ p ≢ p
longer_ne c s p e = absurd (omega (arith, ap count e, length-append (c ∷ s) p, length-cons c s))

pub strip_suffix-append : (s p : String) → strip_suffix (s ⧺ p) p ≡ some s
unfolding strip_suffix
strip_suffix-append [] [] = refl
strip_suffix-append [] (d ∷ p) = rw (nil-append (d ∷ p)) (rw (eq_refl (d ∷ p)))
strip_suffix-append (c ∷ s) p = elim (Bool-cases ((c ∷ s) ⧺ p == p)) [
  | inl e ↦ absurd (longer_ne c s p ((eq_iff _ p).0 e))
  | inr e ↦
      let e' = (rw (cons-append c s p) at e) in
      rw (cons-append c s p) (rw e' (rw (strip_suffix-append s p)))
]
