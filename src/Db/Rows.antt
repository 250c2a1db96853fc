-- ===== src/Db/Rows.antt =====
-- Rows with a key and an id, both unique: what a lookup by the key finds after each change.
use matrix_bridge_slack.Prelude.{
  ℕ, ◌<◌, ◌≡◌, ◌≢◌, refl, ap, subst, String, Bool, true, false, not, none, some, List, [], ◌∷◌,
  ◌++◌, retain, eqb, ◌==◌, eq_iff, eq_refl, if◌then◌else◌, All, All-append, All-retain, Bool-cases,
  inl, inr, arith,
}
use mathlib.Core.Option.{some-injective}
use matrix_bridge_slack.Db.{find, any}

module _ {ℓ} {R : Type ℓ} (p : R → Bool) where
  pub find-append_some : (xs ys : List R) (m : R) → find p xs ≡ some m → find p (xs ++ ys) ≡ some m
  unfolding find
  find-append_some [] ys m e = cc
  find-append_some (x ∷ xs) ys m e = ground (arith, find-append_some xs ys m)

  pub find-append_none : (xs ys : List R) → find p xs ≡ none → find p (xs ++ ys) ≡ find p ys
  unfolding find
  find-append_none [] ys e = refl
  find-append_none (x ∷ xs) ys e = ground (arith, find-append_none xs ys)

  pub find_test : (xs : List R) (m : R) → find p xs ≡ some m → p m ≡ true
  unfolding find
  find_test [] m e = cc
  find_test (x ∷ xs) m e = elim (Bool-cases (p x)) [
    | inl h ↦ subst (λ r. p r ≡ true) (some-injective x m (rw h at e)) h
    | inr h ↦ find_test xs m (rw h at e)
  ]

-- what the test of every row implies, if none passes it
pub any-All {ℓ} :
    {R : Type ℓ} (p q : R → Bool) (rows : List R)
    → ((r : R) → p r ≡ false → q r ≡ false)
    → any p rows ≡ false
    → All (λ r. q r ≡ false) rows
any-All p q [] f h = tt
any-All p q (r ∷ rows) f h = (f r (ground (arith, h)), any-All p q rows f (ground (arith, h)))

module _ {ℓ κ} {R : Type ℓ} (p : R → Bool) (P : R → Type κ) where
  -- what every row has, a row that is found has
  pub find-All : (xs : List R) (m : R) → find p xs ≡ some m → All P xs → P m
  unfolding find
  find-All [] m e h = absurd (ground arith)
  find-All (x ∷ xs) m e (h, hs) = elim (Bool-cases (p x)) [
    | inl t ↦ subst P (some-injective x m (rw t at e)) h
    | inr t ↦ find-All xs m (rw t at e) hs
  ]

module _ {ℓ} {R : Type ℓ} (key : R → String) (id : R → ℕ) where
  abbrev pub by_key : String → R → Bool
  by_key k r = key r == k

  abbrev pub Differ : R → R → Type 0
  Differ r s = (id r ≢ id s) × ((key r == key s) ≡ false)

  abbrev pub Unique : List R → Type 0
  Unique [] = Unit
  Unique (r ∷ rows) = All (Differ r) rows × Unique rows

  abbrev pub delete : ℕ → List R → List R
  delete n rows = retain (λ r. not (eqb (id r) n)) rows

  find_absent : (r : R) (rows : List R) → All (Differ r) rows → find (by_key (key r)) rows ≡ none
  unfolding find
  find_absent r [] h = refl
  find_absent r (s ∷ rows) ((_, h), hs) =
      ground (arith, find_absent r rows hs, eq_iff (key r) (key s), eq_iff (key s) (key r))

  delete_absent : (r : R) (rows : List R) → All (Differ r) rows → delete (id r) rows ≡ rows
  delete_absent r [] h = refl
  delete_absent r (s ∷ rows) ((h, _), hs) = ground (arith, delete_absent r rows hs)

  -- a row that is found in any way is found by its own key
  pub find-own :
      (p : R → Bool) (rows : List R) (m : R)
      → Unique rows
      → find p rows ≡ some m
      → find (by_key (key m)) rows ≡ some m
  unfolding find
  find-own p [] m u e = cc
  find-own p (r ∷ rows) m (d, u) e = elim (Bool-cases (p r)) [
    | inl here ↦
        subst (λ x. find (by_key (key x)) (r ∷ rows) ≡ some x) (some-injective r m (rw here at e))
          (rw (eq_refl (key r)))
    | inr later ↦
        let e' = (rw later at e) in
        rw (find-All p (Differ r) rows m e' d).1 (find-own p rows m u e')
  ]

  found-delete :
      (r : R) (rows : List R) (k j : String)
      → All (Differ r) rows
      → (key r == k) ≡ true
      → find (by_key j) (delete (id r) (r ∷ rows))
        ≡ (if k == j then none else find (by_key j) (r ∷ rows))
  unfolding find
  found-delete r rows k j d same =
      let absent = find_absent r rows d in
      let kept = delete_absent r rows d in
      let same_key = (eq_iff (key r) k).0 same in
      ground (
        arith,
        ap (find (by_key j)) kept,
        subst (λ x. find (by_key x) rows ≡ none) same_key absent,
        eq_iff (key r) j,
        eq_iff k j,
      )

  -- a row with a fresh id and a fresh key differs from all others
  pub Differ-fresh :
      (rows : List R) (new : R)
      → All (λ s. id s < id new) rows
      → All (λ s. (key s == key new) ≡ false) rows
      → All (λ s. Differ s new) rows
  Differ-fresh [] new b h = tt
  Differ-fresh (r ∷ rows) new (b, bs) (h, hs) =
      (((λ same. omega (arith, b, same)), h), Differ-fresh rows new bs hs)

  pub Unique-append :
      (rows : List R) (r : R) → Unique rows → All (λ s. Differ s r) rows → Unique (rows ++ r ∷ [])
  Unique-append [] r u h = (tt, tt)
  Unique-append (s ∷ rows) r (d, u) (h, hs) =
      (All-append (Differ s) rows (r ∷ []) d (h, tt), Unique-append rows r u hs)

  pub Unique-retain : (p : R → Bool) (rows : List R) → Unique rows → Unique (retain p rows)
  Unique-retain p [] u = tt
  Unique-retain p (r ∷ rows) (d, u) = elim (Bool-cases (p r)) [
    | inl h ↦ rw h (All-retain (Differ r) p rows d, Unique-retain p rows u)
    | inr h ↦ rw h (Unique-retain p rows u)
  ]

  -- a key that no row has
  pub find-All_other :
      (rows : List R) (k : String)
      → All (λ s. (key s == k) ≡ false) rows
      → find (by_key k) rows ≡ none
  unfolding find
  find-All_other [] k h = refl
  find-All_other (r ∷ rows) k (h, hs) = ground (arith, find-All_other rows k hs)

  -- a row with a fresh key at the end
  pub find-append_one :
      (rows : List R) (new : R) (k : String)
      → All (λ s. (key s == key new) ≡ false) rows
      → find (by_key k) (rows ++ new ∷ [])
        ≡ (if key new == k then some new else find (by_key k) rows)
  unfolding find
  find-append_one [] new k h = refl
  find-append_one (r ∷ rows) new k (h, hs) = ground (
    arith,
    find-append_one rows new k hs,
    eq_iff (key r) k,
    eq_iff (key new) k,
    eq_iff (key r) (key new),
  )

  -- Deleting the row of a key by its id removes that key and no other.
  pub find-delete :
      (rows : List R) (k j : String) (m : R)
      → Unique rows
      → find (by_key k) rows ≡ some m
      → find (by_key j) (delete (id m) rows) ≡ (if k == j then none else find (by_key j) rows)
  unfolding find
  find-delete [] k j m u e = cc
  find-delete (r ∷ rows) k j m (d, u) e = elim (Bool-cases (key r == k)) [
    | inl same ↦
        subst
          (λ x.
            find (by_key j) (delete (id x) (r ∷ rows))
            ≡ (if k == j then none else find (by_key j) (r ∷ rows)))
          (some-injective r m (rw same at e)) (found-delete r rows k j d same)
    | inr other ↦
        let later : find (by_key k) rows ≡ some m = (rw other at e) in
        let apart = find-All (by_key k) (Differ r) rows m later d in
        ground
          (arith, find-delete rows k j m u later, eq_iff (key r) k, eq_iff (key r) j, eq_iff k j)
  ]
