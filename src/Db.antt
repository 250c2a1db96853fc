-- ===== src/Db.antt =====
-- db/models.rs and db/sqlite.rs: the tables, and what the stores' queries do to them. A query that
-- reaches the database is a function of the table; SQLite itself is not modelled. Time stamps are numbers.
pub mod Rows
pub mod Rooms
pub mod Messages
pub mod Updates
pub mod Users
pub mod Emojis
use matrix_bridge_slack.Prelude.{
  ℕ, suc, ◌+◌, String, Bool, true, false, not, ◌||◌, Option, none, some, List, [], ◌∷◌, ◌++◌, map,
  length, retain, eqb, ◌==◌, if◌then◌else◌,
}
use mathlib.Core.List.{reverse}

pub record RoomMapping : Type 0 where
  pub id : ℕ
  pub matrix_room_id : String
  pub slack_channel_id : String
  pub slack_channel_name : String
  pub slack_team_id : String
  pub created_at : ℕ
  pub updated_at : ℕ

pub record MessageMapping : Type 0 where
  pub id : ℕ
  pub slack_message_id : String
  pub matrix_room_id : String
  pub matrix_event_id : String
  pub created_at : ℕ
  pub updated_at : ℕ

-- rows in the order of their ids; `next_id` is the AUTOINCREMENT counter
pub record Table {ℓ} (Row : Type ℓ) : Type ℓ where
  pub rows : List Row
  pub next_id : ℕ

module _ {ℓ} {Row : Type ℓ} where
  -- `.filter(…).first(…).optional()`
  unfoldable pub find : (Row → Bool) → List Row → Option Row
  find p [] = none
  find p (r ∷ rows) = if p r then some r else find p rows

  abbrev pub any : (Row → Bool) → List Row → Bool
  any p [] = false
  any p (r ∷ rows) = p r || any p rows

module _ (t : Table RoomMapping) where
  unfoldable pub get_room_by_slack_channel : String → Option RoomMapping
  get_room_by_slack_channel channel_id = find (λ r. r.slack_channel_id == channel_id) t.rows

  unfoldable pub get_room_by_matrix_room : String → Option RoomMapping
  get_room_by_matrix_room room_id = find (λ r. r.matrix_room_id == room_id) t.rows

  unfoldable pub get_room_by_id : ℕ → Option RoomMapping
  get_room_by_id mapping_id = find (λ r. eqb r.id mapping_id) t.rows

  unfoldable pub count_rooms : ℕ
  count_rooms = length t.rows

  unfoldable pub get_rooms_by_guild : String → List RoomMapping
  get_rooms_by_guild guild_id = retain (λ r. r.slack_team_id == guild_id) t.rows

  -- `list_room_mappings(i64::MAX, 0)`: all rows, the newest first
  unfoldable pub list_room_mappings : List RoomMapping
  list_room_mappings = reverse t.rows

  -- INSERT; `none` is the UNIQUE constraint on either id
  unfoldable pub create_room_mapping : RoomMapping → Option (Table RoomMapping)
  create_room_mapping mapping =
      if any
        (λ r.
          r.matrix_room_id == mapping.matrix_room_id
          || r.slack_channel_id == mapping.slack_channel_id)
        t.rows
      then none
      else some (record {
        rows = t.rows ++ record mapping { id = t.next_id } ∷ [];
        next_id = suc t.next_id;
      })

  -- UPDATE of the row with the id: all but the id and `created_at`
  abbrev pub room_updated_by : RoomMapping → RoomMapping → RoomMapping
  room_updated_by mapping r = record r {
    matrix_room_id = mapping.matrix_room_id;
    slack_channel_id = mapping.slack_channel_id;
    slack_channel_name = mapping.slack_channel_name;
    slack_team_id = mapping.slack_team_id;
    updated_at = mapping.updated_at;
  }

  -- the UNIQUE constraint of the two ids is not checked: the one caller leaves both as they are
  unfoldable pub update_room_mapping : RoomMapping → Table RoomMapping
  update_room_mapping mapping = record t {
    rows = map (λ r. if eqb r.id mapping.id then room_updated_by mapping r else r) t.rows;
  }

  -- the id is an i32 in the schema, so that the source's cast of it keeps the id of a row
  unfoldable pub delete_room_mapping : ℕ → Table RoomMapping
  delete_room_mapping id = record t { rows = retain (λ r. not (eqb r.id id)) t.rows }

module _ (t : Table MessageMapping) where
  unfoldable pub get_by_slack_message_id : String → Option MessageMapping
  get_by_slack_message_id slack_id = find (λ r. r.slack_message_id == slack_id) t.rows

  unfoldable pub get_by_matrix_event_id : String → Option MessageMapping
  get_by_matrix_event_id event_id = find (λ r. r.matrix_event_id == event_id) t.rows

  -- UPDATE of the row with the id: the room, the event and `updated_at`
  abbrev pub updated_by : MessageMapping → MessageMapping → MessageMapping
  updated_by mapping r = record r {
    matrix_room_id = mapping.matrix_room_id;
    matrix_event_id = mapping.matrix_event_id;
    updated_at = mapping.updated_at;
  }

  unfoldable pub upsert_message_mapping : MessageMapping → Table MessageMapping
  upsert_message_mapping mapping = elim (get_by_slack_message_id mapping.slack_message_id) [
    | some existing ↦ record t {
      rows = map (λ r. if eqb r.id existing.id then updated_by mapping r else r) t.rows;
    }
    | none ↦ record {
      rows = t.rows ++ record mapping { id = t.next_id } ∷ [];
      next_id = suc t.next_id;
    }
  ]

  unfoldable pub delete_by_slack_message_id : String → Table MessageMapping
  delete_by_slack_message_id slack_id = record t {
    rows = retain (λ r. not (r.slack_message_id == slack_id)) t.rows;
  }

  unfoldable pub delete_by_matrix_event_id : String → Table MessageMapping
  delete_by_matrix_event_id event_id = record t {
    rows = retain (λ r. not (r.matrix_event_id == event_id)) t.rows;
  }
