-- ===== src/Bridge/Members.antt =====
-- bridge.rs: memberships, power levels, typing and read receipts of a Matrix room.
pub mod Coherent
use matrix_bridge_slack.Prelude.{
  ℕ, String, Bool, true, false, not, ◌&&◌, ◌||◌, Option, none, some, List, [], ◌∷◌, unwrap_or, ltb,
  ◌==◌, if◌then◌else◌,
}
use matrix_bridge_slack.Text.{◌⧺◌, join}
use matrix_bridge_slack.Json.{
  Value, Members, Integer, end, member, get, get_str, as_i64, as_object, and_then,
}
use matrix_bridge_slack.Db.{RoomMapping, MessageMapping}
use matrix_bridge_slack.Bridge.{
  Result, ok, err, Config, join_room, slack_message, deny_channel_member_permissions,
  spawn_clear_overwrite, get_user_profile, mark_conversation,
}
use matrix_bridge_slack.Bridge.Monad.{M, pure, call, attempt, catch, ◌>>=◌, ◌>>◌}
use matrix_bridge_slack.Bridge.Rooms.{get_room_mapping_cached}
use matrix_bridge_slack.Bridge.Matrix.{
  MatrixEvent, is_namespaced_user, slack_user_id_from_mxid, unless_ghost, for_some, content_str,
  message_by_event,
}

abbrev pub bot_user_id : Config → String
bot_user_id config = "@" ⧺ config.sender_localpart ⧺ ":" ⧺ config.domain

-- `o.as_deref() == Some(s)`
abbrev pub is_text : String → Option String → Bool
is_text s none = false
is_text s (some t) = t == s

abbrev pub moderation_text : String → String → String → String → String
moderation_text target membership sender reason =
    "Matrix moderation: `"
    ⧺ target
    ⧺ "` was "
    ⧺ (if membership == "ban" then "banned" else "kicked")
    ⧺ " by `"
    ⧺ sender
    ⧺ "`. Reason: "
    ⧺ reason

module _ (config : Config) (event : MatrixEvent) (membership : String) where
  -- the permissions of a user who was kicked come back after a while
  abbrev pub restore_later : String → String → M Unit
  restore_later channel user =
      if membership == "leave" && ltb 0 config.kick_for
      then (do _ ← attempt (spawn_clear_overwrite channel user config.kick_for); pure tt)
      else pure tt

  abbrev pub deny_member : String → RoomMapping → String → M Unit
  deny_member target mapping user = do
    _ ← attempt (deny_channel_member_permissions mapping.slack_channel_id user)
    _ ← attempt (
        slack_message mapping.slack_channel_id (
          moderation_text target membership event.sender
            (unwrap_or (content_str event "reason") "No reason provided")))
    restore_later mapping.slack_channel_id user

  abbrev pub member_removed : String → M Unit
  member_removed target =
      if (membership == "leave" || membership == "ban") && not (event.sender == target)
      then (do
        room_mapping ← get_room_mapping_cached event.room_id
        for_some room_mapping λ mapping.
            for_some (slack_user_id_from_mxid config target) (deny_member target mapping))
      else pure tt

  abbrev pub member_changed : M Unit
  member_changed =
      if membership == "invite" && is_text (bot_user_id config) event.state_key
      then (do _ ← attempt (join_room event.room_id); pure tt)
      else unless_ghost event (for_some event.state_key member_removed)

unfoldable pub handle_matrix_member : Config → MatrixEvent → M Unit
handle_matrix_member config event =
    for_some (content_str event "membership") (member_changed config event)

-- `show` is how `format!` writes an i64
module _ (config : Config) (show : Integer → String) where
  abbrev changed_user : String → Value → Option String
  changed_user mxid level_json = and_then (as_i64 level_json) λ level.
      and_then (slack_user_id_from_mxid config mxid) λ user. some (user ⧺ " -> " ⧺ show level)

  abbrev pub with_change : Option String → List String → List String
  with_change none changed = changed
  with_change (some text) changed = text ∷ changed

  abbrev pub changed_users : Members → List String
  changed_users end = []
  changed_users (member mxid level_json users) =
      with_change (changed_user mxid level_json) (changed_users users)

  abbrev pub users_of : MatrixEvent → Members
  users_of event = unwrap_or (and_then (and_then event.content (get "users")) as_object) end

  abbrev pub display_name : String → Result (Option (String × Option String)) → String
  display_name sender (ok (some (name, _))) = name
  display_name sender (ok none) = sender
  display_name sender (err _) = sender

  abbrev pub levels_text : String → Result (Option (String × Option String)) → List String → String
  levels_text sender profile changed =
      "**"
      ⧺ display_name sender profile
      ⧺ "** updated Matrix power levels for bridged users: "
      ⧺ join ", " changed

  abbrev pub tell_levels : MatrixEvent → String → List String → M Unit
  tell_levels event channel [] = pure tt
  tell_levels event channel (text ∷ more) = do
    profile ← attempt (get_user_profile event.sender)
    call (slack_message channel (levels_text event.sender profile (text ∷ more)))

  unfoldable pub handle_matrix_power_levels : MatrixEvent → M Unit
  handle_matrix_power_levels event = do
    room_mapping ← get_room_mapping_cached event.room_id
    for_some room_mapping
        λ mapping. tell_levels event mapping.slack_channel_id (changed_users (users_of event))

unfoldable pub handle_matrix_typing : Config → MatrixEvent → M Unit
handle_matrix_typing config event =
    if config.disable_typing_notifications
    then pure tt
    else (do _ ← get_room_mapping_cached event.room_id; pure tt)

module _ (channel : String) where
  abbrev pub mark : Result (Option MessageMapping) → M Unit
  mark (ok (some link)) = do _ ← attempt (mark_conversation channel link.slack_message_id); pure tt
  mark (ok none) = pure tt
  mark (err _) = pure tt

  abbrev pub mark_read : String → String → M Unit
  mark_read event_id user =
      if is_namespaced_user user
      then pure tt
      else (do link ← catch (message_by_event event_id); mark link)

  unfoldable pub read_by : String → Members → M Unit
  read_by event_id end = pure tt
  read_by event_id (member user _ read) = do mark_read event_id user; read_by event_id read

  unfoldable pub receipts_of : Members → M Unit
  receipts_of end = pure tt
  receipts_of (member event_id receipts content) = do
    for_some (and_then (get "m.read" receipts) as_object) (read_by event_id)
    receipts_of content

unfoldable pub handle_matrix_receipt : Config → MatrixEvent → M Unit
handle_matrix_receipt config event = if config.disable_read_receipts then pure tt else (do
  room_mapping ← get_room_mapping_cached event.room_id
  for_some room_mapping
      λ mapping. for_some (and_then event.content as_object) (receipts_of mapping.slack_channel_id))
