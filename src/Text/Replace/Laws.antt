-- ===== src/Text/Replace/Laws.antt =====
-- Which characters a text has after replacements.
use Prim.Native.String.{String, [], ◌∷◌}
use text.Mathlib.TextLemmas.{nil-append, cons-append}
use matrix_bridge_slack.Prelude.{
  ℕ, ◌≡◌, refl, Bool-cases, inl, inr, eqb, code, false, arith, List, [], ◌∷◌, All,
}
use matrix_bridge_slack.Text.{◌⧺◌, contains_char, join}
use matrix_bridge_slack.Text.Replace.{replace_char}

pub contains_char-append :
    (s t : String) (n : ℕ)
    → contains_char s n ≡ false
    → contains_char t n ≡ false
    → contains_char (s ⧺ t) n ≡ false
unfolding contains_char
contains_char-append [] t n hs ht = rw (nil-append t) ht
contains_char-append (c ∷ s) t n hs ht =
    rw (cons-append c s t) (ground (arith, contains_char-append s t n))

pub contains_char-replaced :
    (n : ℕ) (to s : String)
    → contains_char to n ≡ false
    → contains_char (replace_char n to s) n ≡ false
unfolding contains_char replace_char
contains_char-replaced n to [] h = refl
contains_char-replaced n to (c ∷ s) h = elim (Bool-cases (eqb (code c) n)) [
  | inl e ↦ rw e (contains_char-append to _ n h (contains_char-replaced n to s h))
  | inr e ↦ rw e (rw e (contains_char-replaced n to s h))
]

pub contains_char-replace :
    (n m : ℕ) (to s : String)
    → contains_char to m ≡ false
    → contains_char s m ≡ false
    → contains_char (replace_char n to s) m ≡ false
unfolding contains_char replace_char
contains_char-replace n m to [] h hs = refl
contains_char-replace n m to (c ∷ s) h hs = elim (Bool-cases (eqb (code c) n)) [
  | inl e ↦ rw e (contains_char-append to _ m h (contains_char-replace n m to s h (ground arith)))
  | inr e ↦ rw e (ground (arith, contains_char-replace n m to s h))
]

-- a property of texts that `⧺` keeps is one of joined texts
pub join-All :
    (P : String → Type 0) (sep : String)
    → ((s t : String) → P s → P t → P (s ⧺ t))
    → P sep
    → P ""
    → (parts : List String) → All P parts
    → P (join sep parts)
unfolding join
join-All P sep app hs hn [] h = hn
join-All P sep app hs hn (w ∷ []) h = h.0
join-All P sep app hs hn (w ∷ v ∷ ws) h =
    app w _ h.0 (app sep _ hs (join-All P sep app hs hn (v ∷ ws) h.1))
