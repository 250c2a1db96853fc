-- ===== src/Text/Decimal.antt =====
-- How `format!` writes an integer, and `parse` reads one of 64 bits.
pub mod Digits
use Prim.Native.String.{String, [], ◌∷◌}
use matrix_bridge_slack.Prelude.{
  ℕ, zero, suc, ◌+◌, ◌-◌, ◌*◌, ◌/◌, ◌%◌, ◌^◌, Char, code, Option, none, some, Bool, ◌&&◌, ltb, leb,
  eqb, if◌then◌else◌,
}
use matrix_bridge_slack.Json.{Integer, pos, negsuc, and_then}

-- the character of a number below ten
abbrev pub digit : ℕ → Char
digit zero = "0"
digit (suc zero) = "1"
digit (suc (suc zero)) = "2"
digit (suc (suc (suc zero))) = "3"
digit (suc (suc (suc (suc zero)))) = "4"
digit (suc (suc (suc (suc (suc zero))))) = "5"
digit (suc (suc (suc (suc (suc (suc zero)))))) = "6"
digit (suc (suc (suc (suc (suc (suc (suc zero))))))) = "7"
digit (suc (suc (suc (suc (suc (suc (suc (suc zero)))))))) = "8"
digit _ = "9"

-- the digits of a number before `out`; the fuel is more than the number
unfoldable pub digits_before : ℕ → ℕ → String → String
digits_before zero n out = out
digits_before (suc fuel) n out =
    let more = digits_before fuel (n / 10) (digit (n % 10) ∷ out) in if eqb n 0 then out else more

unfoldable pub show_ℕ : ℕ → String
unfolding digits_before
show_ℕ n = if eqb n 0 then "0" else digits_before (suc n) n []

unfoldable pub show_i64 : Integer → String
unfolding show_ℕ
show_i64 (pos n) = show_ℕ n
show_i64 (negsuc n) = "-" ∷ show_ℕ (suc n)
