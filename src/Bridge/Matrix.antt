-- ===== src/Bridge/Matrix.antt =====
-- bridge.rs: what a Matrix event does to Slack and to the tables; matrix.rs: who is a ghost.
pub mod Ghost
pub mod Events
use Prim.Native.String.{[], ◌∷◌}
use matrix_bridge_slack.Prelude.{
  ℕ, Char, code, eqb, ◌≡◌, String, Bool, true, false, not, ◌&&◌, Option, none, some, is_some,
  unwrap_or, ◌==◌, if◌then◌else◌,
}
use matrix_bridge_slack.Text.{◌⧺◌, is_blank, starts_with, strip_prefix, strip_suffix, contains_char}
use matrix_bridge_slack.Json.{Value, get, as_str, get_str, and_then, or_else}
use matrix_bridge_slack.Db.{
  RoomMapping, MessageMapping, get_by_matrix_event_id, delete_by_matrix_event_id,
}
use matrix_bridge_slack.Bridge.{
  Request, Answer, Result, ok, err, State, Config, delete_message, add_reaction,
  rename_conversation, set_conversation_topic,
}
use matrix_bridge_slack.Bridge.Monad.{M, pure, query, write, attempt, ◌>>=◌, ◌>>◌}
use matrix_bridge_slack.Bridge.Rooms.{get_room_mapping_cached, handle_matrix_encryption}

pub record MatrixEvent : Type 0 where
  pub event_id : Option String
  pub event_type : String
  pub room_id : String
  pub sender : String
  pub state_key : Option String
  pub content : Option Value
  pub timestamp : Option String

unfoldable pub ghost_user_id : String → String → String
ghost_user_id slack_user_id domain = "@_slack_" ⧺ slack_user_id ⧺ ":" ⧺ domain

unfoldable pub is_namespaced_user : String → Bool
is_namespaced_user user_id = starts_with user_id "@_slack_"

abbrev accept_user_id : String → Option String
accept_user_id slack_user_id =
    if is_blank slack_user_id
    then none
    else if contains_char slack_user_id 58
    then none
    else some slack_user_id

unfoldable pub slack_user_id_from_mxid : Config → String → Option String
slack_user_id_from_mxid config mxid =
    and_then (strip_prefix mxid "@_slack_")
      λ localpart. and_then (strip_suffix localpart (":" ⧺ config.domain)) accept_user_id

-- `if is_namespaced_user(&event.sender) { return Ok(()) }`
abbrev pub unless_ghost : MatrixEvent → M Unit → M Unit
unless_ghost event m = if is_namespaced_user event.sender then pure tt else m

-- `let Some(x) = o else { return Ok(()) }`
abbrev pub for_some : {A : Type 0} → Option A → (A → M Unit) → M Unit
for_some none f = pure tt
for_some (some a) f = f a

-- a field of the content
abbrev pub content_str : MatrixEvent → String → Option String
content_str event key = and_then event.content (get_str key)

unfoldable pub handle_matrix_room_name : MatrixEvent → M Unit
handle_matrix_room_name event = unless_ghost event (do
  room_mapping ← get_room_mapping_cached event.room_id
  for_some room_mapping λ mapping.
      let new_name = unwrap_or (content_str event "name") "" in
      if is_blank new_name
      then pure tt
      else (do _ ← attempt (rename_conversation mapping.slack_channel_id new_name); pure tt))

unfoldable pub handle_matrix_room_topic : MatrixEvent → M Unit
handle_matrix_room_topic event = unless_ghost event (do
  room_mapping ← get_room_mapping_cached event.room_id
  for_some room_mapping λ mapping. do
    _ ←
        attempt (
          set_conversation_topic mapping.slack_channel_id
            (unwrap_or (content_str event "topic") ""))
    pure tt)

abbrev pub message_by_event : String → M (Option MessageMapping)
message_by_event event_id = query (λ s. get_by_matrix_event_id s.messages event_id)

-- the mapping goes once Slack has deleted the message
abbrev pub after_delete : String → Result (Unit {0}) → M Unit
after_delete event_id (ok _) =
    write (λ s. record s { messages = delete_by_matrix_event_id s.messages event_id }) tt
after_delete event_id (err _) = pure tt

abbrev pub redact : String → String → Option MessageMapping → M Unit
redact channel event_id none = pure tt
redact channel event_id (some link) = do
  deleted ← attempt (delete_message channel link.slack_message_id)
  after_delete event_id deleted

abbrev pub redacted_event : MatrixEvent → Option String
redacted_event event = or_else (content_str event "redacts") event.state_key

unfoldable pub handle_matrix_redaction : Config → MatrixEvent → M Unit
handle_matrix_redaction config event = unless_ghost event (
    if config.disable_deletion_forwarding then pure tt else (do
      room_mapping ← get_room_mapping_cached event.room_id
      for_some room_mapping λ mapping. for_some (redacted_event event) λ redacted_event_id. do
        link ← message_by_event redacted_event_id
        redact mapping.slack_channel_id redacted_event_id link))

-- `emoji_key.trim_start_matches(':').trim_end_matches(':')`
abbrev pub trim_start_colons : String → String
trim_start_colons [] = []
trim_start_colons (c ∷ s) =
    let rest = trim_start_colons s in if eqb (code c) 58 then rest else c ∷ s

abbrev pub trim_end_colons : String → String
trim_end_colons [] = []
trim_end_colons (c ∷ s) =
    let rest = trim_end_colons s in if is_blank rest && eqb (code c) 58 then [] else c ∷ rest

abbrev pub react : String → String → Option MessageMapping → M Unit
react channel emoji_key none = pure tt
react channel emoji_key (some link) = do
  _ ←
      attempt
        (add_reaction channel link.slack_message_id (trim_end_colons (trim_start_colons emoji_key)))
  pure tt

-- the event that a reaction is about, and its key
abbrev pub relates_to_str : MatrixEvent → String → Option String
relates_to_str event key =
    and_then event.content λ content. and_then (get "m.relates_to" content) (get_str key)

unfoldable pub handle_matrix_reaction : MatrixEvent → M Unit
handle_matrix_reaction event = unless_ghost event (do
  room_mapping ← get_room_mapping_cached event.room_id
  for_some room_mapping λ mapping. for_some (relates_to_str event "event_id") λ target_event_id.
      for_some (relates_to_str event "key") λ emoji_key. do
        link ← message_by_event target_event_id
        react mapping.slack_channel_id emoji_key link)
