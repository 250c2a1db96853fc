-- ===== src/Bridge/Slack.antt =====
-- bridge.rs and bridge/logic.rs: what a Slack event, other than a new message, does to Matrix and to the tables.
pub mod Events
pub mod Moderation
use Prim.Native.String.{[], ◌∷◌}
use matrix_bridge_slack.Prelude.{
  ℕ, suc, ◌+◌, ◌≡◌, String, Bool, true, false, not, ◌&&◌, ◌||◌, Option, none, some, List, [], ◌∷◌,
  map, is_some, is_empty, unwrap_or, eqb, ◌==◌, if◌then◌else◌,
}
use matrix_bridge_slack.Text.{◌⧺◌, is_blank, starts_with, strip_prefix, strip_suffix}
use matrix_bridge_slack.Formatting.{apply_pattern_string}
use matrix_bridge_slack.Json.{and_then}
use matrix_bridge_slack.Command.Slack.{ModerationAction, kick, ban, unban, action_keyword}
use matrix_bridge_slack.Db.{
  RoomMapping, MessageMapping, get_by_slack_message_id, delete_by_slack_message_id,
  get_rooms_by_guild, update_room_mapping,
}
use matrix_bridge_slack.Bridge.{
  Request, Answer, Result, ok, err, State, Config, slack_message, send_notice, redact_message,
  kick_user_from_room, ban_user_from_room, unban_user_from_room, send_reaction_as_ghost,
  redact_reaction_as_ghost, ensure_ghost_user_registered, set_slack_user_typing, get_room_name,
  get_room_topic, set_room_name, set_room_topic,
}
use matrix_bridge_slack.Bridge.Monad.{
  M, pure, raise, query, write, call, attempt, with_state, ◌>>=◌, ◌>>◌,
}
use matrix_bridge_slack.Bridge.Matrix.{for_some}
use matrix_bridge_slack.Bridge.Rooms.{find_by_channel, drop_mapping, utc_now, set_prefix}

abbrev pub message_by_slack : String → M (Option MessageMapping)
message_by_slack slack_message_id = query (λ s. get_by_slack_message_id s.messages slack_message_id)

pub record RedactionRequest : Type 0 where
  pub room_id : String
  pub event_id : String
  pub reason : String

unfoldable pub build_slack_delete_redaction_request : MessageMapping → RedactionRequest
build_slack_delete_redaction_request link = record {
  room_id = link.matrix_room_id;
  event_id = link.matrix_event_id;
  reason = "Deleted on Slack";
}

abbrev pub redact_and_forget : String → RedactionRequest → M Unit
redact_and_forget slack_message_id request = do
  call (redact_message request.room_id request.event_id request.reason)
  write (λ s. record s { messages = delete_by_slack_message_id s.messages slack_message_id }) tt

-- `slack_delete_redaction_request(link)` is the request for the link that there is
unfoldable pub handle_slack_message_delete : String → M Unit
handle_slack_message_delete slack_message_id = do
  link ← message_by_slack slack_message_id
  for_some link
      λ mapping. redact_and_forget slack_message_id (build_slack_delete_redaction_request mapping)

unfoldable pub should_forward_slack_typing : Bool → Option RoomMapping → Bool
should_forward_slack_typing disabled room_mapping = not disabled && is_some room_mapping

unfoldable pub handle_slack_typing : Config → String → String → M Unit
handle_slack_typing config slack_channel_id slack_sender_id = do
  room_mapping ← find_by_channel slack_channel_id
  if not (should_forward_slack_typing config.disable_typing_notifications room_mapping)
      then pure tt
      else (for_some room_mapping λ mapping. do
        call (ensure_ghost_user_registered slack_sender_id none)
        call (set_slack_user_typing mapping.matrix_room_id slack_sender_id true 4000))

-- the slice of `reaction[1..reaction.len() - 1]`; a lone colon makes the range 1..0, which panics: `none`
abbrev pub between_colons : String → Option String
between_colons reaction = and_then (strip_prefix reaction ":") λ rest. strip_suffix rest ":"

abbrev pub emoji_of : String → Option String
emoji_of reaction =
    if starts_with reaction ":" && is_some (strip_suffix reaction ":")
    then between_colons reaction
    else some reaction

-- the handler's `panic!` is an error that nothing catches: it stops the handler
abbrev pub with_emoji : Option String → (String → M Unit) → M Unit
with_emoji none f = raise "range end index out of range"
with_emoji (some emoji) f = f emoji

abbrev pub add_reaction_to : String → String → String → Option MessageMapping → M Unit
add_reaction_to room slack_user_id reaction none = pure tt
add_reaction_to room slack_user_id reaction (some link) = do
  call (ensure_ghost_user_registered slack_user_id none)
  with_emoji (emoji_of reaction)
      λ emoji. call (send_reaction_as_ghost room link.matrix_event_id slack_user_id emoji)

unfoldable pub handle_slack_reaction_added : String → String → String → String → M Unit
handle_slack_reaction_added slack_channel_id slack_message_id slack_user_id reaction = do
  room_mapping ← find_by_channel slack_channel_id
  for_some room_mapping λ mapping. do
    link ← message_by_slack slack_message_id
    add_reaction_to mapping.matrix_room_id slack_user_id reaction link

unfoldable pub handle_slack_reaction_removed : String → String → String → String → M Unit
handle_slack_reaction_removed slack_channel_id slack_message_id slack_user_id reaction = do
  room_mapping ← find_by_channel slack_channel_id
  for_some room_mapping λ mapping. do
    message_mapping ← message_by_slack slack_message_id
    for_some message_mapping λ link. with_emoji (emoji_of reaction) λ emoji.
        call
          (redact_reaction_as_ghost mapping.matrix_room_id link.matrix_event_id slack_user_id emoji)

abbrev pub member_of : List String → String → Bool
member_of [] room = false
member_of (r ∷ seen) room = r == room || member_of seen room

-- `filter_map` with the set `seen`
abbrev pub distinct_rooms : List String → List RoomMapping → List String
distinct_rooms seen [] = []
distinct_rooms seen (r ∷ rooms) =
    let again = distinct_rooms seen rooms in
    let rest = distinct_rooms (r.matrix_room_id ∷ seen) rooms in
    if member_of seen r.matrix_room_id then again else r.matrix_room_id ∷ rest

abbrev pub target_rooms : RoomMapping → List RoomMapping → List String
target_rooms mapping guild_rooms =
    if is_empty guild_rooms then mapping.matrix_room_id ∷ [] else distinct_rooms [] guild_rooms

abbrev pub moderation_request : ModerationAction → String → String → String → Request
moderation_request kick room user reason = kick_user_from_room room user reason
moderation_request ban room user reason = ban_user_from_room room user reason
moderation_request unban room user reason = unban_user_from_room room user

abbrev pub is_ok {ℓ} : {A : Type ℓ} → Result A → Bool
is_ok (ok _) = true
is_ok (err _) = false

abbrev pub action_word : ModerationAction → String
action_word kick = "Kicked"
action_word ban = "Banned"
action_word unban = "Unbanned"

-- the handler's `ctx`: the channel and the sender
module _ (action : ModerationAction) (matrix_user channel_id sender_id : String) where
  abbrev pub reason : String
  reason = "Slack moderation request by " ⧺ sender_id ⧺ " from channel " ⧺ channel_id

  abbrev pub moderation_notice : String
  moderation_notice =
      "Slack moderation request: "
      ⧺ action_keyword action
      ⧺ " "
      ⧺ matrix_user
      ⧺ " (requested by "
      ⧺ sender_id
      ⧺ ")"

  abbrev pub notify : String → Bool → M Unit
  notify room_id true = do _ ← attempt (send_notice room_id moderation_notice); pure tt
  notify room_id false = pure tt

  -- `success_count` and `failed_count` after the loop
  unfoldable pub moderate_rooms : List String → ℕ → ℕ → M (ℕ × ℕ)
  moderate_rooms [] success_count failed_count = pure (success_count, failed_count)
  moderate_rooms (room_id ∷ rooms) success_count failed_count = do
    result ← attempt (moderation_request action room_id matrix_user reason)
    notify room_id (is_ok result)
    moderate_rooms rooms (if is_ok result then suc success_count else success_count)
        (if is_ok result then failed_count else suc failed_count)

  -- `show` is `usize`'s Display
  module _ (show : ℕ → String) where
    abbrev pub moderation_reply : ℕ × ℕ → String
    moderation_reply (success_count, failed_count) =
        if eqb failed_count 0
        then action_word action
          ⧺ " "
          ⧺ matrix_user
          ⧺ " in "
          ⧺ show success_count
          ⧺ " bridged room(s)."
        else action_word action
          ⧺ " "
          ⧺ matrix_user
          ⧺ " in "
          ⧺ show success_count
          ⧺ " room(s), failed in "
          ⧺ show failed_count
          ⧺ " room(s)."

    abbrev pub moderate : Option RoomMapping → M Unit
    moderate none =
        call (slack_message channel_id "This channel is not bridged to a plumbed matrix room")
    moderate (some mapping) = do
      guild_rooms ← query (λ s. get_rooms_by_guild s.rooms mapping.slack_team_id)
      counts ← moderate_rooms (target_rooms mapping guild_rooms) 0 0
      call (slack_message channel_id (moderation_reply counts))

abbrev pub unbridge_channel : String → Option RoomMapping → M Unit
unbridge_channel channel_id none =
    call (slack_message channel_id "This channel is not bridged to a plumbed matrix room")
unbridge_channel channel_id (some mapping) = do
  drop_mapping mapping.id mapping.matrix_room_id
  call (slack_message channel_id "This channel has been unbridged")

-- `current.as_deref() == Some(text)`
abbrev pub same_text : Option String → String → Bool
same_text none text = false
same_text (some current) text = current == text

-- the parts of `handle_slack_channel_update`
module _ (config : Config) where
  abbrev pub update_name : RoomMapping → Option String → M Unit
  update_name mapping none = pure tt
  update_name mapping (some new_name) = do
    let formatted_name =
        apply_pattern_string config.name_pattern
          (("guild", mapping.slack_team_id) ∷ ("name", "#" ⧺ new_name) ∷ [])
    current_name ← call (get_room_name mapping.matrix_room_id)
    if same_text current_name formatted_name then pure tt else (do
      call (set_room_name mapping.matrix_room_id formatted_name)
      now ← utc_now
      write
          (λ s. record s {
            rooms =
                update_room_mapping s.rooms
                  (record mapping { slack_channel_name = new_name; updated_at = now });
          })
          tt)

  abbrev pub update_topic : RoomMapping → Option String → M Unit
  update_topic mapping none = pure tt
  update_topic mapping (some topic) = do
    current_topic ← call (get_room_topic mapping.matrix_room_id)
    if same_text current_topic topic
        then pure tt
        else call (set_room_topic mapping.matrix_room_id topic)

  -- the purpose counts where there is no topic
  abbrev pub topic_or_purpose : Option String → Option String → Option String
  topic_or_purpose none new_purpose = new_purpose
  topic_or_purpose (some topic) new_purpose = some topic

  unfoldable pub handle_slack_channel_update :
      String → Option String → Option String → Option String → M Unit
  handle_slack_channel_update slack_channel_id new_name new_topic new_purpose = do
    room_mapping ← find_by_channel slack_channel_id
    for_some room_mapping λ mapping. do
      update_name mapping new_name
      update_topic mapping (topic_or_purpose new_topic new_purpose)

  unfoldable pub handle_slack_channel_archive : String → M Unit
  handle_slack_channel_archive slack_channel_id = do
    room_mapping ← find_by_channel slack_channel_id
    for_some room_mapping λ mapping. do
      call (
          send_notice mapping.matrix_room_id
            "This Slack channel has been archived. No new messages will be bridged.")
      set_prefix config mapping.matrix_room_id "m.room.name" config.name_prefix
