-- ===== src/Bridge.antt =====
-- bridge.rs: the state that BridgeCore's handlers share and the effects they are built from. A
-- handler runs from start to end. Every call on the network is a request that the environment
-- answers, as it likes, and the state logs; every query may fail before it changes anything.
pub mod Monad
pub mod Triple
pub mod Rooms
pub mod Matrix
pub mod Slack
pub mod Messages
pub mod Outgoing
pub mod Members
pub mod Backfill
pub mod Guild
pub mod History
pub mod Forget
pub mod Promises
use matrix_bridge_slack.Prelude.{
  ℕ, suc, String, Bool, true, false, Option, none, some, List, [], ◌∷◌, ◌++◌, ◌≡◌,
}
use matrix_bridge_slack.Json.{Value}
use matrix_bridge_slack.Db.{RoomMapping, MessageMapping, Table}
use matrix_bridge_slack.Db.Users.{UserMapping}
use matrix_bridge_slack.Db.Emojis.{EmojiMapping}
use matrix_bridge_slack.Cache.{TimedCache}

-- slack.rs: the channel's fields that bridge.rs reads
pub record SlackChannel : Type 0 where
  pub id : String
  pub name : String
  pub guild_id : String
  pub topic : Option String

pub record SlackUser : Type 0 where
  pub id : String
  pub username : String
  pub discriminator : String

-- media.rs: a download, without its data
pub record Media : Type 0 where
  pub content_type : String
  pub filename : String
  pub size : ℕ

pub data ProvisioningError : Type 0 where
  timed_out declined delivery_failed cancelled : ProvisioningError

-- what the homeserver replies to an upload: a status that is no success with the body, a body that
-- is no JSON, or JSON
pub data Upload : Type 0 where
  refused unreadable : String → Upload
  replied : Value → Upload

-- calls of `slack_client`, of `matrix_client` and of `provisioning`
pub data Request : Type 0 where
  -- SlackClient
  get_channel get_user : String → Request
  slack_message : String → String → Request
  delete_message : String → String → Request
  -- channel, limit, cursor
  get_conversation_history : String → ℕ → Option String → Request
  -- channel, thread, limit
  get_conversation_replies : String → String → ℕ → Request
  add_reaction : String → String → String → Request
  rename_conversation set_conversation_topic : String → String → Request
  deny_channel_member_permissions mark_conversation : String → String → Request
  -- `tokio::spawn` of `clear_channel_member_overwrite`, after a time
  spawn_clear_overwrite : String → String → ℕ → Request
  -- MatrixAppservice
  send_notice : String → String → Request
  leave_room join_room : String → Request
  create_room : String → String → Option String → Request
  create_dm_room : String → Request
  -- room, event type, the one field of the content
  send_state_event : String → String → String → Request
  -- room, event type: the answer is the string field of that type, if there is one
  get_room_state_event : String → String → Request
  delete_room_alias : String → Request
  get_room_name get_room_topic : String → Request
  set_room_name set_room_topic : String → String → Request
  redact_message : String → String → String → Request
  kick_user_from_room ban_user_from_room : String → String → String → Request
  unban_user_from_room : String → String → Request
  send_reaction_as_ghost redact_reaction_as_ghost : String → String → String → String → Request
  ensure_ghost_user_registered : String → Option String → Request
  -- room, sender, body, attachments, `reply_to`, `edit_of`, `formatted_body`
  send_message_with_metadata :
      String
      → String
      → String
      → List String
      → Option String
      → Option String
      → Option String
      → Request
  upload_media : Media → Request
  -- room, sender, type, file name, URL, `reply_to`
  send_media_message : String → String → String → String → String → Option String → Request
  -- the content of `m.room.power_levels`
  power_levels : String → Request
  get_user_profile : String → Request
  -- SlackClient, as a Matrix user: channel, text, `reply_to`, `edit_of`, name, avatar
  send_message_as_user :
      String → String → Option String → Option String → String → Option String → Request
  send_file_as_user : String → Media → String → Option String → Request
  -- MediaHandler
  download_matrix_media : String → Request
  download_from_url : String → Request
  set_slack_user_typing : String → String → Bool → ℕ → Request
  -- ProvisioningCoordinator
  mark_approval : String → Bool → Request
  ask_bridge_permission : String → String → Request
  -- the uploads of emoji.rs: the address and the type
  post_upload : String → String → Request
  -- MatrixAppservice, for user_sync.rs
  set_ghost_displayname set_ghost_avatar : String → String → Request
  upload_media_for_ghost : String → Media → Request
  set_ghost_room_displayname set_ghost_room_avatar : String → String → String → Request
  set_ghost_room_roles : String → String → List String → Request
  invite_ghost_to_room kick_ghost_from_room invite_user_to_room : String → String → Request
  -- `tokio::spawn` of `backfill_channel`
  spawn_backfill : String → ℕ → Request

pub data Result {ℓ} (A : Type ℓ) : Type ℓ where
  ok : A → Result A
  err : String → Result A

-- what a request gives when the call itself does not fail
abbrev pub Answer : Request → Type 0
Answer (get_channel _) = Option SlackChannel
Answer (create_room _ _ _) = String
Answer (create_dm_room _) = String
Answer (power_levels _) = Value
Answer (get_user_profile _) = Option (String × Option String)
Answer (download_matrix_media _) = Media
Answer (get_conversation_history _ _ _) = Value
Answer (get_conversation_replies _ _ _) = Value
Answer (get_user _) = Option SlackUser
Answer (post_upload _ _) = Upload
Answer (upload_media_for_ghost _ _) = String
Answer (send_message_with_metadata _ _ _ _ _ _ _) = String
Answer (upload_media _) = String
Answer (send_media_message _ _ _ _ _ _) = String
Answer (download_from_url _) = Media
Answer (mark_approval _ _) = Bool
Answer (get_room_state_event _ _) = Option String
Answer (get_room_name _) = Option String
Answer (get_room_topic _) = Option String
Answer (ask_bridge_permission _ _) = Option ProvisioningError
Answer _ = Unit

pub record State : Type 0 where
  pub rooms : Table RoomMapping
  pub messages : Table MessageMapping
  pub users : Table UserMapping
  pub emojis : Table EmojiMapping
  pub room_cache : TimedCache String RoomMapping
  -- the requests so far, in their order
  pub calls : List Request
  -- the effects so far
  pub clock : ℕ

-- what the world does at each effect
pub record Env : Type 0 where
  pub now : ℕ → ℕ
  pub database : ℕ → Option String
  pub answer : ℕ → (r : Request) → Result (Answer r)

-- the fields of the configuration that the handlers read; `limits.room_count` is an i32, given as
-- `none` where it is negative
pub record Config : Type 0 where
  pub domain : String
  pub homeserver_url : String
  pub enable_self_service_bridging : Bool
  pub room_count : Option ℕ
  pub room_count_text : String
  pub name_pattern : String
  pub name_prefix : Option String
  pub topic_prefix : Option String
  pub unset_room_alias : Bool
  pub room_alias_prefix : String
  pub backfill_enabled : Bool
  pub backfill_max_messages : ℕ
  pub username_pattern : String
  pub disable_deletion_forwarding : Bool
  pub disable_typing_notifications : Bool
  pub disable_read_receipts : Bool
  pub disable_join_leave_notifications : Bool
  pub kick_for : ℕ
  pub sender_localpart : String
