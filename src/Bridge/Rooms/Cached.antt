-- ===== src/Bridge/Rooms/Cached.antt =====
-- The room cache against the table.
use matrix_bridge_slack.Prelude.{
  ℕ, ◌≡◌, sym, ap, subst, ◌∙◌, String, none, some, ◌==◌, eq_iff, if◌then◌else◌, arith, Bool-cases,
  Option-cases, inl, inr,
}
use mathlib.Core.Option.{some-injective, map as map_option}
use matrix_bridge_slack.Prelude.Assoc.{string_eq, lookup, lookup-insert, lookup-without}
use matrix_bridge_slack.Db.{
  RoomMapping, Table, get_room_by_matrix_room, create_room_mapping, delete_room_mapping,
}
use matrix_bridge_slack.Db.Rows.{find_test}
pub use matrix_bridge_slack.Db.Updates.{key_of, mapped}
use matrix_bridge_slack.Db.Rooms.{IsValid, matrix_room-create, matrix_room-delete, free-create}
use matrix_bridge_slack.Cache.{TimedValue, TimedCache, get, insert, remove, is_live}

pub record Cached (t : Table RoomMapping) (c : TimedCache String RoomMapping) : Type 0 where
  pub agree :
      (room : String) (tv : TimedValue RoomMapping)
      → lookup room c.entries ≡ some tv
      → mapped t room ≡ some (key_of tv.value)

pub Cached-get :
    (t : Table RoomMapping) (c : TimedCache String RoomMapping) (now : ℕ) (room : String)
    (m : RoomMapping)
    → Cached t c
    → get now c room ≡ some m
    → mapped t room ≡ some (key_of m)
unfolding get
Cached-get t c now room m h e = elim (Option-cases (lookup room c.entries)) [
  | inl absent ↦ absurd (ground (arith, rw absent at e))
  | inr (tv, found) ↦ elim (Bool-cases (is_live c.ttl now tv)) [
    | inl live ↦
        subst (λ x. mapped t room ≡ some (key_of x))
          (some-injective tv.value m (rw (found, live) at e)) (h.agree room tv found)
    | inr dead ↦ absurd (ground (arith, rw (found, dead) at e))
  ]
]

pub Cached-insert :
    (t : Table RoomMapping) (c : TimedCache String RoomMapping) (now : ℕ) (room : String)
    (m : RoomMapping)
    → Cached t c
    → get_room_by_matrix_room t room ≡ some m
    → Cached t (insert now c room m)
unfolding insert
Cached-insert t c now room m h e = record {
  agree = λ j tv found.
      let found' =
        sym (lookup-insert room j (record { value = m; inserted_at = now }) c.entries) ∙ found in
      elim (Bool-cases (room == j)) [
        | inl same ↦
            let stored : record { value = m; inserted_at = now } ≡ tv =
              some-injective _ tv (rw same at found') in
            subst (λ x. mapped t x ≡ some (key_of tv.value)) ((eq_iff room j).0 same)
              (subst (λ (y : TimedValue RoomMapping). mapped t room ≡ some (key_of y.value)) stored
                (ap (map_option key_of) e))
        | inr other ↦ h.agree j tv (rw other at found')
      ];
}

pub Cached-create :
    (t u : Table RoomMapping) (c : TimedCache String RoomMapping) (m : RoomMapping)
    → Cached t c
    → create_room_mapping t m ≡ some u
    → Cached u c
Cached-create t u c m h e = record {
  agree = λ j tv found. elim (Bool-cases (m.matrix_room_id == j)) [
    | inl same ↦
        let free =
          subst (λ x. get_room_by_matrix_room t x ≡ none) ((eq_iff m.matrix_room_id j).0 same)
            (free-create t u m e).0 in
        absurd (ground (arith, rw free at (h.agree j tv found)))
    | inr other ↦
        ap (map_option key_of) (matrix_room-create t u m e j) ∙ (rw other (h.agree j tv found))
  ];
}

module _ (t : Table RoomMapping) (c : TimedCache String RoomMapping) (m : RoomMapping)
    (room : String) where
  -- the row that the mapping stands for
  row_of :
      mapped t room ≡ some (key_of m)
      → (r : RoomMapping) × (get_room_by_matrix_room t room ≡ some r) × (key_of r ≡ key_of m)
  row_of e = elim (Option-cases (get_room_by_matrix_room t room)) [
    | inl absent ↦ absurd (ground (arith, rw absent at e))
    | inr (r, found) ↦ (r, found, some-injective (key_of r) (key_of m) (rw found at e))
  ]

  -- what the table has for a room after the mapping is dropped
  pub get-drop :
      IsValid t
      → mapped t room ≡ some (key_of m)
      → (j : String)
      → get_room_by_matrix_room (delete_room_mapping t m.id) j
        ≡ (if room == j then none else get_room_by_matrix_room t j)
  get-drop v e j =
      let (r, found, same) = row_of e in
      subst
        (λ n.
          get_room_by_matrix_room (delete_room_mapping t n) j
          ≡ (if room == j then none else get_room_by_matrix_room t j))
        (ap (λ (k : ℕ × String × String × String). k.0) same)
        (matrix_room-delete t r v room j found)

  pub Cached-drop :
      IsValid t
      → mapped t room ≡ some (key_of m)
      → Cached t c
      → Cached (delete_room_mapping t m.id) (remove c room).0
  unfolding remove
  Cached-drop v e h = record {
    agree = λ j tv found.
        let found' = sym (lookup-without room j c.entries) ∙ found in
        elim (Bool-cases (room == j)) [
          | inl same ↦ absurd (ground (arith, rw same at found'))
          | inr other ↦ rw (get-drop v e j) (rw other (h.agree j tv (rw other at found')))
        ];
  }

  -- a row is found under its own room
  pub room-mapped : mapped t room ≡ some (key_of m) → m.matrix_room_id ≡ room
  unfolding get_room_by_matrix_room
  room-mapped e =
      let (r, found, same) = row_of e in
      sym (ap (λ (k : ℕ × String × String × String). k.1) same)
      ∙ (eq_iff r.matrix_room_id room).0 (find_test _ t.rows r found)
