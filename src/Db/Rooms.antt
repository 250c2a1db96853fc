-- ===== src/Db/Rooms.antt =====
-- The room store: its ids and its two keys, and what a lookup by either key gives after each change.
use matrix_bridge_slack.Prelude.{
  ℕ, suc, ◌<◌, ◌≡◌, subst, String, Bool, false, ◌||◌, none, some, List, [], ◌∷◌, ◌++◌, ◌==◌,
  if◌then◌else◌, All, All-append, All-retain, Bool-cases, inl, inr, arith, length, length-append,
}
use mathlib.Core.Option.{some-injective}
use matrix_bridge_slack.Db.{
  RoomMapping, Table, find, any, count_rooms, get_room_by_slack_channel, get_room_by_matrix_room,
  create_room_mapping, delete_room_mapping,
}
use matrix_bridge_slack.Db.Rows.{
  find-delete, find-append_one, by_key, find-All_other, Differ-fresh, Unique, Unique-append,
  Unique-retain,
}

abbrev pub Below : ℕ → RoomMapping → Type 0
Below n r = r.id < n

abbrev pub IsValid : Table RoomMapping → Type 0
IsValid t =
    All (Below t.next_id) t.rows
    × Unique (λ (r : RoomMapping). r.matrix_room_id) (λ (r : RoomMapping). r.id) t.rows
    × Unique (λ (r : RoomMapping). r.slack_channel_id) (λ (r : RoomMapping). r.id) t.rows

abbrev matrix_key : RoomMapping → String
matrix_key r = r.matrix_room_id

abbrev slack_key : RoomMapping → String
slack_key r = r.slack_channel_id

abbrev row_id : RoomMapping → ℕ
row_id r = r.id

-- the two columns under UNIQUE
abbrev taken : RoomMapping → RoomMapping → Bool
taken m r = r.matrix_room_id == m.matrix_room_id || r.slack_channel_id == m.slack_channel_id

any_matrix :
    (m : RoomMapping) (rows : List RoomMapping)
    → any (taken m) rows ≡ false
    → All (λ s. (matrix_key s == m.matrix_room_id) ≡ false) rows
any_matrix m [] h = tt
any_matrix m (r ∷ rows) h = (ground (arith, h), any_matrix m rows (ground (arith, h)))

any_slack :
    (m : RoomMapping) (rows : List RoomMapping)
    → any (taken m) rows ≡ false
    → All (λ s. (slack_key s == m.slack_channel_id) ≡ false) rows
any_slack m [] h = tt
any_slack m (r ∷ rows) h = (ground (arith, h), any_slack m rows (ground (arith, h)))

Below-suc : (n : ℕ) (rows : List RoomMapping) → All (Below n) rows → All (Below (suc n)) rows
Below-suc n [] h = tt
Below-suc n (r ∷ rows) (h, hs) = (omega (arith, h), Below-suc n rows hs)

-- the table after an INSERT that succeeds
abbrev pub inserted : Table RoomMapping → RoomMapping → Table RoomMapping
inserted t m = record { rows = t.rows ++ record m { id = t.next_id } ∷ []; next_id = suc t.next_id }

pub create_room_mapping-inserted :
    (t u : Table RoomMapping) (m : RoomMapping)
    → create_room_mapping t m ≡ some u
    → (any (taken m) t.rows ≡ false) × (inserted t m ≡ u)
unfolding create_room_mapping
create_room_mapping-inserted t u m e = elim (Bool-cases (any (taken m) t.rows)) [
  | inl h ↦ absurd (ground (arith, rw h at e))
  | inr h ↦ (h, some-injective (inserted t m) u (rw h at e))
]

inserted-IsValid :
    (t : Table RoomMapping) (m : RoomMapping)
    → IsValid t
    → any (taken m) t.rows ≡ false
    → IsValid (inserted t m)
inserted-IsValid t m (below, um, us) free =
    let new : RoomMapping = record m { id = t.next_id } in
    (
      All-append (Below (suc t.next_id)) t.rows (new ∷ []) (Below-suc t.next_id t.rows below)
          (omega arith, tt),
      Unique-append matrix_key row_id t.rows new um
          (Differ-fresh matrix_key row_id t.rows new below (any_matrix m t.rows free)),
      Unique-append slack_key row_id t.rows new us
          (Differ-fresh slack_key row_id t.rows new below (any_slack m t.rows free)),
    )

-- An insert that the constraints accept keeps a room table valid: ids below the counter and
-- unique, no Matrix room twice and no Slack channel twice.
pub create_room_mapping-IsValid :
    (t u : Table RoomMapping) (m : RoomMapping)
    → IsValid t
    → create_room_mapping t m ≡ some u
    → IsValid u
create_room_mapping-IsValid t u m v e =
    let (free, same) = create_room_mapping-inserted t u m e in
    subst IsValid same (inserted-IsValid t m v free)

pub delete_room_mapping-IsValid :
    (t : Table RoomMapping) (id : ℕ) → IsValid t → IsValid (delete_room_mapping t id)
unfolding delete_room_mapping
delete_room_mapping-IsValid t id (below, um, us) = (
  All-retain (Below t.next_id) _ t.rows below,
  Unique-retain matrix_key row_id _ t.rows um,
  Unique-retain slack_key row_id _ t.rows us,
)

module _ (t u : Table RoomMapping) (m : RoomMapping) (e : create_room_mapping t m ≡ some u) where
  -- After an insert that the constraints accept, the mapping's Matrix room is found with the
  -- counter as its id, and every other room as before.
  pub matrix_room-create :
      (room : String)
      → get_room_by_matrix_room u room ≡ (
          if m.matrix_room_id == room
          then some (record m { id = t.next_id })
          else get_room_by_matrix_room t room)
  unfolding get_room_by_matrix_room
  matrix_room-create room =
      let (free, same) = create_room_mapping-inserted t u m e in
      subst
        (λ (x : Table RoomMapping). find (by_key matrix_key row_id room) x.rows ≡ (
          if m.matrix_room_id == room
          then some (record m { id = t.next_id })
          else get_room_by_matrix_room t room))
        same
        (find-append_one matrix_key row_id t.rows (record m { id = t.next_id }) room
          (any_matrix m t.rows free))

  -- an INSERT that succeeds had both ids free
  pub free-create :
      (get_room_by_matrix_room t m.matrix_room_id ≡ none)
      × (get_room_by_slack_channel t m.slack_channel_id ≡ none)
  unfolding get_room_by_matrix_room get_room_by_slack_channel
  free-create =
      let (free, same) = create_room_mapping-inserted t u m e in
      (
        find-All_other matrix_key row_id t.rows m.matrix_room_id (any_matrix m t.rows free),
        find-All_other slack_key row_id t.rows m.slack_channel_id (any_slack m t.rows free),
      )

  pub count_rooms-create : count_rooms u ≡ suc (count_rooms t)
  unfolding count_rooms
  count_rooms-create =
      let (free, same) = create_room_mapping-inserted t u m e in
      subst (λ (x : Table RoomMapping). length x.rows ≡ suc (length t.rows)) same
        (omega (arith, length-append t.rows (record m { id = t.next_id } ∷ [])))

  pub slack_channel-create :
      (channel : String)
      → get_room_by_slack_channel u channel ≡ (
          if m.slack_channel_id == channel
          then some (record m { id = t.next_id })
          else get_room_by_slack_channel t channel)
  unfolding get_room_by_slack_channel
  slack_channel-create channel =
      let (free, same) = create_room_mapping-inserted t u m e in
      subst
        (λ (x : Table RoomMapping). find (by_key slack_key row_id channel) x.rows ≡ (
          if m.slack_channel_id == channel
          then some (record m { id = t.next_id })
          else get_room_by_slack_channel t channel))
        same
        (find-append_one slack_key row_id t.rows (record m { id = t.next_id }) channel
          (any_slack m t.rows free))

module _ (t : Table RoomMapping) (m : RoomMapping) (v : IsValid t) where
  -- In a valid room table, deleting the row of a Matrix room by its id leaves that room without a
  -- row and every other room as it was.
  pub matrix_room-delete :
      (k room : String)
      → get_room_by_matrix_room t k ≡ some m
      → get_room_by_matrix_room (delete_room_mapping t m.id) room
        ≡ (if k == room then none else get_room_by_matrix_room t room)
  unfolding get_room_by_matrix_room delete_room_mapping
  matrix_room-delete k room e = find-delete matrix_key row_id t.rows k room m v.1 e

  pub slack_channel-delete :
      (k channel : String)
      → get_room_by_slack_channel t k ≡ some m
      → get_room_by_slack_channel (delete_room_mapping t m.id) channel
        ≡ (if k == channel then none else get_room_by_slack_channel t channel)
  unfolding get_room_by_slack_channel delete_room_mapping
  slack_channel-delete k channel e = find-delete slack_key row_id t.rows k channel m v.2 e
