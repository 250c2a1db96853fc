-- ===== src/Text/Decimal/Digits.antt =====
-- The digits that a number is written with.
use Prim.Native.String.{String, [], ◌∷◌}
use matrix_bridge_slack.Prelude.{
  ℕ, zero, suc, ◌+◌, ◌/◌, ◌%◌, ◌<◌, ◌⊎◌, ◌≡◌, refl, Bool-cases, inl, inr, eqb, code, false, arith,
}
use matrix_bridge_slack.Text.{contains_char}
use matrix_bridge_slack.Text.Decimal.{digit, digits_before, show_ℕ}

pub code-digit : (d : ℕ) → d < 10 → code (digit d) ≡ 48 + d
code-digit zero h = refl
code-digit (suc zero) h = refl
code-digit (suc (suc zero)) h = refl
code-digit (suc (suc (suc zero))) h = refl
code-digit (suc (suc (suc (suc zero)))) h = refl
code-digit (suc (suc (suc (suc (suc zero))))) h = refl
code-digit (suc (suc (suc (suc (suc (suc zero)))))) h = refl
code-digit (suc (suc (suc (suc (suc (suc (suc zero))))))) h = refl
code-digit (suc (suc (suc (suc (suc (suc (suc (suc zero)))))))) h = refl
code-digit (suc (suc (suc (suc (suc (suc (suc (suc (suc d))))))))) h = ground arith

module _ (m : ℕ) (other : (m < 48) ⊎ (57 < m)) where
  digits_before-lacks :
      (fuel n : ℕ) (out : String)
      → contains_char out m ≡ false
      → contains_char (digits_before fuel n out) m ≡ false
  unfolding digits_before contains_char
  digits_before-lacks zero n out h = h
  digits_before-lacks (suc fuel) n out h = elim (Bool-cases (eqb n 0)) [
    | inl e ↦ rw e h
    | inr e ↦ rw e (
        digits_before-lacks fuel (n / 10) (digit (n % 10) ∷ out)
          (ground (arith, code-digit (n % 10))))
  ]

  pub show_ℕ-lacks : (n : ℕ) → contains_char (show_ℕ n) m ≡ false
  unfolding show_ℕ contains_char
  show_ℕ-lacks n = elim (Bool-cases (eqb n 0)) [
    | inl e ↦ rw e (ground arith)
    | inr e ↦ rw e (rw e at (digits_before-lacks (suc n) n [] refl))
  ]
