-- ===== src/Prelude/Assoc.antt =====
-- `HashMap`: a list of entries, whose order means nothing, with at most one for a key.
use matrix_bridge_slack.Prelude.Tests.{if◌then◌else◌, Bool-cases}
use matrix_bridge_slack.Prelude.Lists.{retain}
use mathlib.Core.Path.{◌≡◌, refl}
use mathlib.Core.Logic.{◌↔◌, inl, inr}
use mathlib.Core.Bool.{Bool, true, false}
use mathlib.Core.Option.{Option, none, some}
use mathlib.Core.List.{List, [], ◌∷◌}
use Prim.Native.String.{String}
use native.Mathlib.Omega.{arith}
use text.Mathlib.Text.{◌==◌ as str_eq}
use text.Mathlib.TextEquality.{eq_iff}

pub record Eq {ℓ} (K : Type ℓ) : Type ℓ where
  pub beq : K → K → Bool
  pub beq_iff : (a b : K) → (beq a b ≡ true) ↔ (a ≡ b)

instance abbrev pub string_eq : Eq String
string_eq = record { beq = str_eq; beq_iff = eq_iff }

module _ {ℓ κ} {K : Type ℓ} {V : Type κ} ⦃e : Eq K⦄ where
  unfoldable pub lookup : K → List (K × V) → Option V
  lookup k [] = none
  lookup k ((j, v) ∷ m) = if e.beq j k then some v else lookup k m

  unfoldable pub without : K → List (K × V) → List (K × V)
  without k [] = []
  without k ((j, v) ∷ m) = let rest = without k m in if e.beq j k then rest else (j, v) ∷ rest

  unfoldable pub insert : K → V → List (K × V) → List (K × V)
  insert k v m = (k, v) ∷ without k m

  -- no entry has the key
  abbrev pub Fresh : K → List (K × V) → Type ℓ
  Fresh k [] = Unit
  Fresh k ((j, v) ∷ m) = (e.beq j k ≡ false) × Fresh k m

  abbrev pub Distinct : List (K × V) → Type ℓ
  Distinct [] = Unit
  Distinct ((j, v) ∷ m) = Fresh j m × Distinct m

  pub lookup-without :
      (k j : K) (m : List (K × V))
      → lookup j (without k m) ≡ (if e.beq k j then none else lookup j m)
  unfolding lookup without
  lookup-without k j [] = ground arith
  lookup-without k j ((i, v) ∷ m) =
      ground (arith, lookup-without k j m, e.beq_iff i k, e.beq_iff i j, e.beq_iff k j)

  pub lookup-insert :
      (k j : K) (v : V) (m : List (K × V))
      → lookup j (insert k v m) ≡ (if e.beq k j then some v else lookup j m)
  unfolding lookup insert
  lookup-insert k j v m = ground (arith, lookup-without k j m)

  pub lookup-Fresh : (k : K) (m : List (K × V)) → Fresh k m → lookup k m ≡ none
  unfolding lookup
  lookup-Fresh k [] h = refl
  lookup-Fresh k ((j, v) ∷ m) (h, hs) = ground (arith, lookup-Fresh k m hs)

  Fresh-without_self : (k : K) (m : List (K × V)) → Fresh k (without k m)
  unfolding without
  Fresh-without_self k [] = tt
  Fresh-without_self k ((j, v) ∷ m) = elim (Bool-cases (e.beq j k)) [
    | inl h ↦ rw h (Fresh-without_self k m)
    | inr h ↦ rw h (h, Fresh-without_self k m)
  ]

  Fresh-without : (k j : K) (m : List (K × V)) → Fresh k m → Fresh k (without j m)
  unfolding without
  Fresh-without k j [] h = tt
  Fresh-without k j ((i, v) ∷ m) (h, hs) = elim (Bool-cases (e.beq i j)) [
    | inl b ↦ rw b (Fresh-without k j m hs)
    | inr b ↦ rw b (h, Fresh-without k j m hs)
  ]

  pub Distinct-without : (k : K) (m : List (K × V)) → Distinct m → Distinct (without k m)
  unfolding without
  Distinct-without k [] d = tt
  Distinct-without k ((j, v) ∷ m) (f, d) = elim (Bool-cases (e.beq j k)) [
    | inl b ↦ rw b (Distinct-without k m d)
    | inr b ↦ rw b (Fresh-without j k m f, Distinct-without k m d)
  ]

  pub Distinct-insert : (k : K) (v : V) (m : List (K × V)) → Distinct m → Distinct (insert k v m)
  unfolding insert
  Distinct-insert k v m d = (Fresh-without_self k m, Distinct-without k m d)

  Fresh-retain : (p : K × V → Bool) (k : K) (m : List (K × V)) → Fresh k m → Fresh k (retain p m)
  Fresh-retain p k [] h = tt
  Fresh-retain p k ((j, v) ∷ m) (h, hs) = elim (Bool-cases (p (j, v))) [
    | inl b ↦ rw b (h, Fresh-retain p k m hs)
    | inr b ↦ rw b (Fresh-retain p k m hs)
  ]

  pub Distinct-retain : (p : K × V → Bool) (m : List (K × V)) → Distinct m → Distinct (retain p m)
  Distinct-retain p [] d = tt
  Distinct-retain p ((j, v) ∷ m) (f, d) = elim (Bool-cases (p (j, v))) [
    | inl b ↦ rw b (Fresh-retain p j m f, Distinct-retain p m d)
    | inr b ↦ rw b (Distinct-retain p m d)
  ]
