-- ===== src/Cache/Laws.antt =====
-- The cache against the map of its entries: what a read gives after each operation, at each time.
use matrix_bridge_slack.Prelude.{
  ℕ, ◌-◌, ◌≤◌, ◌≡◌, refl, subst, true, false, none, some, List, [], ◌∷◌, arith, ltb, retain,
  length-retain-le, if◌then◌else◌, Bool-cases, inl, inr, All,
}
use matrix_bridge_slack.Prelude.Assoc.{
  Eq, lookup, lookup-insert, lookup-without, lookup-Fresh, Fresh, Distinct, Distinct-insert,
  Distinct-without, Distinct-retain,
}
use matrix_bridge_slack.Cache.{
  TimedValue, TimedCache, is_live, if_live, get, insert, remove, len, cleanup_expired,
}

-- an entry that is not served now is not served later
if_live_later {ℓ} :
    {V : Type ℓ} (ttl now later : ℕ) (tv : TimedValue V)
    → now ≤ later
    → is_live ttl now tv ≡ false
    → is_live ttl later tv ≡ false
if_live_later ttl now later tv h d = ground arith

module _ {ℓ} {K V : Type ℓ} ⦃e : Eq K⦄ where
  -- After an insert, a read of the key gives the value while its age is below the time to live and
  -- nothing afterwards, and a read of another key gives what it did.
  pub get-insert :
      (c : TimedCache K V) (k j : K) (v : V) (at now : ℕ)
      → get now (insert at c k v) j
        ≡ (if e.beq k j then (if ltb (now - at) c.ttl then some v else none) else get now c j)
  unfolding get insert
  get-insert c k j v at now =
      rw (lookup-insert k j (record { value = v; inserted_at = at }) c.entries) (ground arith)

  -- After a removal, a read of the key gives nothing, and a read of another key what it did.
  pub get-remove :
      (c : TimedCache K V) (k j : K) (now : ℕ)
      → get now (remove c k).0 j ≡ (if e.beq k j then none else get now c j)
  unfolding get remove
  get-remove c k j now = rw (lookup-without k j c.entries) (ground arith)

  lookup-cleanup :
      (ttl now later : ℕ) (j : K) (m : List (K × TimedValue V))
      → now ≤ later
      → Distinct m
      → if_live ttl later (lookup j (retain (λ entry. is_live ttl now entry.1) m))
        ≡ if_live ttl later (lookup j m)
  unfolding lookup
  lookup-cleanup ttl now later j [] h d = refl
  lookup-cleanup ttl now later j ((i, tv) ∷ m) h (f, d) = elim (Bool-cases (is_live ttl now tv)) [
    | inl live ↦ rw live (elim (Bool-cases (e.beq i j)) [
      | inl same ↦ rw same
      | inr other ↦ rw other (lookup-cleanup ttl now later j m h d)
    ])
    | inr dead ↦ rw dead (elim (Bool-cases (e.beq i j)) [
      | inl same ↦
          let absent = lookup-Fresh j m (subst (λ x. Fresh x m) ((e.beq_iff i j).0 same) f) in
          rw (lookup-cleanup ttl now later j m h d)
            (rw same (rw absent (rw (if_live_later ttl now later tv h dead))))
      | inr other ↦ rw other (lookup-cleanup ttl now later j m h d)
    ])
  ]

  -- With no key twice, a sweep changes no read at its own time or later.
  pub get-cleanup_expired :
      (c : TimedCache K V) (j : K) (now later : ℕ)
      → now ≤ later
      → Distinct c.entries
      → get later (cleanup_expired now c) j ≡ get later c j
  unfolding get cleanup_expired
  get-cleanup_expired c j now later h d = lookup-cleanup c.ttl now later j c.entries h d

  All-live :
      (ttl now : ℕ) (m : List (K × TimedValue V))
      → All (λ entry. is_live ttl now entry.1 ≡ true) (retain (λ entry. is_live ttl now entry.1) m)
  All-live ttl now [] = tt
  All-live ttl now (entry ∷ m) = elim (Bool-cases (is_live ttl now entry.1)) [
    | inl b ↦ rw b (b, All-live ttl now m)
    | inr b ↦ rw b (All-live ttl now m)
  ]

  -- With no key twice, all entries that a sweep leaves are live at its time, no key is there
  -- twice, and there are at most as many as before.
  pub cleanup_expired-All :
      (c : TimedCache K V) (now : ℕ)
      → Distinct c.entries
      → All (λ entry. is_live c.ttl now entry.1 ≡ true) (cleanup_expired now c).entries
        × Distinct (cleanup_expired now c).entries
        × (len (cleanup_expired now c) ≤ len c)
  unfolding cleanup_expired len
  cleanup_expired-All c now d =
      (All-live c.ttl now c.entries, Distinct-retain _ c.entries d, length-retain-le _ c.entries)

  pub Distinct-operations :
      (c : TimedCache K V) (at : ℕ) (k : K) (v : V)
      → Distinct c.entries
      → Distinct (insert at c k v).entries × Distinct (remove c k).0.entries
  unfolding insert remove
  Distinct-operations c at k v d = (Distinct-insert k _ c.entries d, Distinct-without k c.entries d)
