-- ===== src/Db/Updates.antt =====
-- An update of a row that leaves its ids, its room, its channel and its team as they are.
use matrix_bridge_slack.Prelude.{
  ℕ, ◌<◌, ◌≡◌, refl, sym, ap, subst, ◌∙◌, String, Bool, Option, some, List, [], ◌∷◌, map, eqb,
  eqb_iff, ◌==◌, if◌then◌else◌, All, Bool-cases, inl, inr,
}
use mathlib.Core.Option.{some-injective, map as map_option}
use matrix_bridge_slack.Db.{
  RoomMapping, Table, find, room_updated_by, update_room_mapping, get_room_by_matrix_room,
  get_room_by_slack_channel,
}
use matrix_bridge_slack.Db.Rows.{find-All, Differ, Unique}
use matrix_bridge_slack.Db.Rooms.{IsValid, Below}

-- the fields that `update_room_mapping` is never asked to change
abbrev pub key_of : RoomMapping → ℕ × String × String × String
key_of r = (r.id, r.matrix_room_id, r.slack_channel_id, r.slack_team_id)

abbrev pub mapped : Table RoomMapping → String → Option (ℕ × String × String × String)
mapped t room = map_option key_of (get_room_by_matrix_room t room)

abbrev matrix_key : RoomMapping → String
matrix_key r = r.matrix_room_id

abbrev slack_key : RoomMapping → String
slack_key r = r.slack_channel_id

abbrev row_id : RoomMapping → ℕ
row_id r = r.id

abbrev Like : RoomMapping → RoomMapping → Type 0
Like m r = r.id ≡ m.id → key_of r ≡ key_of m

-- no other row has the id of a row that is found
found-Like :
    (key : RoomMapping → String) (p : RoomMapping → Bool) (rows : List RoomMapping)
    (m : RoomMapping)
    → Unique key (λ (r : RoomMapping). r.id) rows
    → find p rows ≡ some m
    → All (Like m) rows
unfolding find
found-Like key p [] m u e = tt
found-Like key p (r ∷ rows) m (d, u) e = elim (Bool-cases (p r)) [
  | inl here ↦
      let same = some-injective r m (rw here at e) in
      ((λ _. ap key_of same), subst (λ x. All (Like x) rows) same (others rows d))
  | inr later ↦
      let e' = (rw later at e) in
      (
        (λ same.
            absurd ((find-All p (Differ key (λ (x : RoomMapping). x.id) r) rows m e' d).0 same)),
        found-Like key p rows m u e',
      )
]
  where
    others :
        (xs : List RoomMapping)
        → All (Differ key (λ (x : RoomMapping). x.id) r) xs
        → All (Like r) xs
    others [] h = tt
    others (s ∷ xs) ((h, _), hs) = ((λ same. absurd (h (sym same))), others xs hs)

module _ (t : Table RoomMapping) (m : RoomMapping) where
  abbrev changed : RoomMapping → RoomMapping
  changed r = if eqb r.id m.id then room_updated_by t m r else r

  changed-key_of : (r : RoomMapping) → Like m r → key_of (changed r) ≡ key_of r
  changed-key_of r h = elim (Bool-cases (eqb r.id m.id)) [
    | inl hit ↦
        let same = (eqb_iff r.id m.id).0 hit in
        rw hit
          (ap (λ n. (n, m.matrix_room_id, m.slack_channel_id, m.slack_team_id)) same ∙ sym (h same))
    | inr miss ↦ rw miss
  ]

  abbrev Kept : (RoomMapping → String) → RoomMapping → Type 0
  Kept key r = ((changed r).id ≡ r.id) × (key (changed r) ≡ key r)

  Kept-matrix : (rows : List RoomMapping) → All (Like m) rows → All (Kept matrix_key) rows
  Kept-matrix [] h = tt
  Kept-matrix (r ∷ rows) (h, hs) =
      let e = changed-key_of r h in
      (
        (
          ap (λ (k : ℕ × String × String × String). k.0) e,
          ap (λ (k : ℕ × String × String × String). k.1) e,
        ),
        Kept-matrix rows hs,
      )

  Kept-slack : (rows : List RoomMapping) → All (Like m) rows → All (Kept slack_key) rows
  Kept-slack [] h = tt
  Kept-slack (r ∷ rows) (h, hs) =
      let e = changed-key_of r h in
      (
        (
          ap (λ (k : ℕ × String × String × String). k.0) e,
          ap (λ (k : ℕ × String × String × String). k.2) e,
        ),
        Kept-slack rows hs,
      )

  module _ (key : RoomMapping → String) where
    Differ-changed :
        (r : RoomMapping) (rows : List RoomMapping)
        → Kept key r
        → All (Kept key) rows
        → All (Differ key row_id r) rows
        → All (Differ key row_id (changed r)) (map changed rows)
    Differ-changed r [] k ks d = tt
    Differ-changed r (s ∷ rows) k (j, ks) ((n, d), ds) = (
      (
        (λ same. n (sym k.0 ∙ same ∙ j.0)),
        ap (λ x. x == key (changed s)) k.1 ∙ ap (λ x. key r == x) j.1 ∙ d,
      ),
      Differ-changed r rows k ks ds,
    )

    Unique-changed :
        (rows : List RoomMapping)
        → All (Kept key) rows
        → Unique key row_id rows
        → Unique key row_id (map changed rows)
    Unique-changed [] ks u = tt
    Unique-changed (r ∷ rows) (k, ks) (d, u) =
        (Differ-changed r rows k ks d, Unique-changed rows ks u)

  Below-changed :
      (n : ℕ) (rows : List RoomMapping)
      → All (Kept matrix_key) rows
      → All (Below n) rows
      → All (Below n) (map changed rows)
  Below-changed n [] ks h = tt
  Below-changed n (r ∷ rows) (k, ks) (h, hs) =
      (subst (λ i. i < n) (sym k.0) h, Below-changed n rows ks hs)

  find-changed :
      (rows : List RoomMapping) (room : String)
      → All (Like m) rows
      → map_option key_of (find (λ r. r.matrix_room_id == room) (map changed rows))
        ≡ map_option key_of (find (λ r. r.matrix_room_id == room) rows)
  unfolding find
  find-changed [] room h = refl
  find-changed (r ∷ rows) room (h, hs) =
      let e = changed-key_of r h in
      let named = ap (λ (k : ℕ × String × String × String). k.1 == room) e in
      elim (Bool-cases (r.matrix_room_id == room)) [
        | inl here ↦ rw (named, here) (ap some e)
        | inr later ↦ rw (named, later) (find-changed rows room hs)
      ]

  -- for a row that is found, the update keeps the constraints and what a room maps to
  module _ (channel : String) (r : RoomMapping) (v : IsValid t)
      (found : get_room_by_slack_channel t channel ≡ some r) (same : key_of r ≡ key_of m) where
    like : All (Like m) t.rows
    unfolding get_room_by_slack_channel
    like = Like-same t.rows (found-Like slack_key _ t.rows r v.2 found)
      where
        Like-same : (rows : List RoomMapping) → All (Like r) rows → All (Like m) rows
        Like-same [] h = tt
        Like-same (x ∷ rows) (h, hs) = (
          (λ e. h (e ∙ sym (ap (λ (k : ℕ × String × String × String). k.0) same)) ∙ same),
          Like-same rows hs,
        )

    pub update_room_mapping-IsValid : IsValid (update_room_mapping t m)
    unfolding update_room_mapping
    update_room_mapping-IsValid =
        let ks = Kept-matrix t.rows like in
        (
          Below-changed t.next_id t.rows ks v.0,
          Unique-changed matrix_key t.rows ks v.1,
          Unique-changed slack_key t.rows (Kept-slack t.rows like) v.2,
        )

    pub mapped-update : (room : String) → mapped (update_room_mapping t m) room ≡ mapped t room
    unfolding update_room_mapping get_room_by_matrix_room
    mapped-update room = find-changed t.rows room like
