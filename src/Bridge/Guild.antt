-- ===== src/Bridge/Guild.antt =====
-- bridge.rs: Slack's events of members, of users and of whole teams, which the source calls guilds.
pub mod Coherent
pub mod Steps
pub mod Deleted
use matrix_bridge_slack.Prelude.{
  ℕ, String, Bool, true, false, not, ◌&&◌, Option, none, some, List, [], ◌∷◌, retain, unwrap_or,
  ◌==◌, if◌then◌else◌,
}
use matrix_bridge_slack.Text.{is_blank}
use matrix_bridge_slack.Json.{Value, get_str, or_else}
use matrix_bridge_slack.Db.{RoomMapping, get_rooms_by_guild, list_room_mappings}
use matrix_bridge_slack.Db.Users.{UserMapping, get_user_by_slack_id, update_user_mapping}
use matrix_bridge_slack.Bridge.{
  Config, ensure_ghost_user_registered, invite_ghost_to_room, kick_ghost_from_room,
  invite_user_to_room, kick_user_from_room, set_ghost_room_roles,
}
use matrix_bridge_slack.Bridge.Monad.{M, pure, query, write, call, attempt, catch, ◌>>=◌, ◌>>◌}
use matrix_bridge_slack.Bridge.Matrix.{for_some, ghost_user_id}
use matrix_bridge_slack.Bridge.Rooms.{find_by_channel, utc_now, handle_slack_channel_delete}
use matrix_bridge_slack.Bridge.Messages.{
  Parsers, SlackMessageContext, handle_slack_message_with_context,
}
use matrix_bridge_slack.Emoji.{handle_emoji_change}

abbrev pub find_user : String → M (Option UserMapping)
find_user slack_user_id = query (λ s. get_user_by_slack_id s.users slack_user_id)

abbrev pub store_updated : UserMapping → M Unit
store_updated updated = do
  now ← utc_now
  write
      (λ s. record s { users = update_user_mapping s.users (record updated { updated_at = now }) })
      tt

-- `handle_slack_guild_update` only logs
abbrev pub handle_slack_guild_update : String → String → Option String → M Unit
handle_slack_guild_update slack_guild_id new_name new_icon_url = pure tt

unfoldable pub handle_slack_user_update : String → String → Option String → M Unit
handle_slack_user_update slack_user_id new_username new_avatar_url = do
  user_mapping ← find_user slack_user_id
  for_some user_mapping λ mapping.
      store_updated
        (record mapping { slack_username = new_username; slack_avatar = new_avatar_url })

-- a room's error is logged, and the next room follows
unfoldable pub sync_roles : String → List String → List RoomMapping → M Unit
sync_roles slack_user_id roles [] = pure tt
sync_roles slack_user_id roles (room ∷ rooms) = do
  _ ← attempt (set_ghost_room_roles slack_user_id room.matrix_room_id roles)
  sync_roles slack_user_id roles rooms

unfoldable pub handle_slack_guild_member_update :
    String → String → Option String → List String → M Unit
handle_slack_guild_member_update slack_team_id slack_user_id new_avatar_url roles = do
  user_mapping ← find_user slack_user_id
  for_some user_mapping λ mapping. do
    store_updated (record mapping { slack_avatar = or_else new_avatar_url mapping.slack_avatar })
    room_mappings ← query (λ s. get_rooms_by_guild s.rooms slack_team_id)
    sync_roles slack_user_id roles room_mappings

-- `list_room_mappings(i64::MAX, 0)`, and the rooms of the team among them
abbrev pub guild_rooms : String → M (List RoomMapping)
guild_rooms slack_team_id = do
  room_mappings ← query (λ s. list_room_mappings s.rooms)
  pure (retain (λ m. m.slack_team_id == slack_team_id) room_mappings)

abbrev pub handle_slack_emoji_changed : String → (String → String) → Value → M Unit
handle_slack_emoji_changed homeserver_url encode event =
    let subtype = unwrap_or (get_str "subtype" event) "" in
    let name = unwrap_or (get_str "name" event) "" in
    if is_blank name && not (subtype == "remove")
    then pure tt
    else handle_emoji_change homeserver_url encode subtype name (get_str "value" event)

module _ (config : Config) where
  unfoldable pub handle_slack_member_joined_channel : String → String → M Unit
  handle_slack_member_joined_channel slack_channel_id slack_user_id = do
    room_mapping ← find_by_channel slack_channel_id
    for_some room_mapping λ mapping.
        if config.disable_join_leave_notifications then pure tt else (do
          call (ensure_ghost_user_registered slack_user_id none)
          call (invite_ghost_to_room slack_user_id mapping.matrix_room_id))

  unfoldable pub handle_slack_member_left_channel : String → String → M Unit
  handle_slack_member_left_channel slack_channel_id slack_user_id = do
    room_mapping ← find_by_channel slack_channel_id
    for_some room_mapping λ mapping.
        if config.disable_join_leave_notifications
        then pure tt
        else call (kick_ghost_from_room slack_user_id mapping.matrix_room_id)

  unfoldable pub handle_slack_channel_marked : String → String → M Unit
  handle_slack_channel_marked slack_channel_id slack_user_id = do
    room_mapping ← find_by_channel slack_channel_id
    for_some room_mapping λ mapping.
        if config.disable_read_receipts
        then pure tt
        else call (ensure_ghost_user_registered slack_user_id none)

  unfoldable pub delete_channels : List RoomMapping → M Unit
  delete_channels [] = pure tt
  delete_channels (mapping ∷ affected_rooms) = do
    _ ← catch (handle_slack_channel_delete config mapping.slack_channel_id)
    delete_channels affected_rooms

  unfoldable pub handle_slack_guild_delete : String → M Unit
  handle_slack_guild_delete slack_team_id = do
    affected_rooms ← guild_rooms slack_team_id
    delete_channels affected_rooms

  abbrev pub unless_disabled : M Unit → M Unit
  unless_disabled m = if config.disable_join_leave_notifications then pure tt else m

  abbrev pub invite_ghost : String → String → M Unit
  invite_ghost slack_user_id room = do
    _ ← attempt (invite_user_to_room room (ghost_user_id slack_user_id config.domain))
    pure tt

  abbrev pub kick_ghost : String → String → M Unit
  kick_ghost slack_user_id room = do
    _ ←
        attempt
          (kick_user_from_room room (ghost_user_id slack_user_id config.domain) "Left Slack server")
    pure tt

  unfoldable pub add_to_rooms : String → List String → List RoomMapping → M Unit
  add_to_rooms slack_user_id roles [] = pure tt
  add_to_rooms slack_user_id roles (mapping ∷ rooms) = do
    unless_disabled (invite_ghost slack_user_id mapping.matrix_room_id)
    _ ← attempt (set_ghost_room_roles slack_user_id mapping.matrix_room_id roles)
    add_to_rooms slack_user_id roles rooms

  -- nothing is asked for a team without rooms
  abbrev pub add_member : String → String → List String → List RoomMapping → M Unit
  add_member slack_user_id display_name roles [] = pure tt
  add_member slack_user_id display_name roles (mapping ∷ rooms) = do
    call (ensure_ghost_user_registered slack_user_id (some display_name))
    add_to_rooms slack_user_id roles (mapping ∷ rooms)

  unfoldable pub handle_slack_guild_member_add : String → String → String → List String → M Unit
  handle_slack_guild_member_add slack_team_id slack_user_id display_name roles = do
    rooms ← guild_rooms slack_team_id
    add_member slack_user_id display_name roles rooms

  unfoldable pub remove_from_rooms : String → List RoomMapping → M Unit
  remove_from_rooms slack_user_id [] = pure tt
  remove_from_rooms slack_user_id (mapping ∷ rooms) = do
    unless_disabled (kick_ghost slack_user_id mapping.matrix_room_id)
    remove_from_rooms slack_user_id rooms

  unfoldable pub handle_slack_guild_member_remove : String → String → M Unit
  handle_slack_guild_member_remove slack_team_id slack_user_id = do
    rooms ← guild_rooms slack_team_id
    remove_from_rooms slack_user_id rooms

  -- `HashSet::new()` for the permissions, and no more than the channel, the sender and the text
  abbrev pub handle_slack_message : Parsers → (ℕ → String) → String → String → String → M Unit
  handle_slack_message parsers show slack_channel_id slack_sender content =
      handle_slack_message_with_context config parsers show (record {
        channel_id = slack_channel_id;
        source_message_id = none;
        sender_id = slack_sender;
        content = content;
        attachments = [];
        reply_to = none;
        edit_of = none;
        permissions = [];
        thread_ts = none;
        blocks = none;
        slack_attachments = none;
      })
