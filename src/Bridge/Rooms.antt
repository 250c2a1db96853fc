-- ===== src/Bridge/Rooms.antt =====
-- bridge.rs: the handlers that read, make and drop the pairs of a Matrix room and a Slack channel.
pub mod Cached
pub mod Coherent
pub mod Deleted
pub mod Rule
pub mod Limit
pub mod Created
use matrix_bridge_slack.Prelude.{
  ℕ, suc, ◌<◌, ◌≡◌, String, Bool, true, false, not, ◌&&◌, Option, none, some, List, [], ◌∷◌, ltb,
  leb, is_some, if◌then◌else◌,
}
use matrix_bridge_slack.Text.{◌⧺◌}
use matrix_bridge_slack.Formatting.{apply_pattern_string}
use matrix_bridge_slack.Db.{
  RoomMapping, Table, get_room_by_slack_channel, get_room_by_matrix_room, count_rooms,
  create_room_mapping, delete_room_mapping,
}
use matrix_bridge_slack.Prelude.Assoc.{string_eq}
use matrix_bridge_slack.Cache.{get, insert, remove}
use matrix_bridge_slack.Bridge.{
  Request, Answer, Result, ok, err, State, Env, Config, SlackChannel, ProvisioningError,
  get_channel, send_notice, leave_room, create_room, send_state_event, get_room_state_event,
  delete_room_alias, ask_bridge_permission, spawn_backfill, timed_out, declined, delivery_failed,
  cancelled,
}
use matrix_bridge_slack.Bridge.Monad.{
  M, pure, raise, query, write, try_write, with_state, call, attempt, ◌>>=◌, ◌>>◌,
}

-- the cache after a read of the table
abbrev pub remember : String → Option RoomMapping → ℕ → State → State
remember room none now s = s
remember room (some m) now s = record s { room_cache = insert now s.room_cache room m }

abbrev pub or_load : String → Option RoomMapping → M (Option RoomMapping)
or_load room (some cached) = pure (some cached)
or_load room none = do
  mapping ← query (λ s. get_room_by_matrix_room s.rooms room)
  with_state (λ now s. (tt, remember room mapping now s))
  pure mapping

unfoldable pub get_room_mapping_cached : String → M (Option RoomMapping)
get_room_mapping_cached matrix_room_id = do
  cached ← with_state (λ now s. (get now s.room_cache matrix_room_id, s))
  or_load matrix_room_id cached

abbrev pub find_by_channel : String → M (Option RoomMapping)
find_by_channel channel_id = query (λ s. get_room_by_slack_channel s.rooms channel_id)

-- `delete_room_mapping(id)`, then `room_cache.remove(room)`: every handler that drops a mapping ends so
unfoldable pub drop_mapping : ℕ → String → M Unit
drop_mapping id room = do
  write (λ s. record s { rooms = delete_room_mapping s.rooms id }) tt
  with_state (λ now s. (tt, record s { room_cache = (remove s.room_cache room).0 }))

-- INSERT of a mapping
unfoldable pub create_mapping : RoomMapping → M Unit
create_mapping mapping =
    try_write
      (λ s. elim (create_room_mapping s.rooms mapping) [
        | none ↦ none
        | some rooms ↦ some (record s { rooms = rooms })
      ])
      tt

abbrev pub new_mapping : String → SlackChannel → String → ℕ → RoomMapping
new_mapping matrix_room_id channel guild_id now = record {
  id = 0;
  matrix_room_id = matrix_room_id;
  slack_channel_id = channel.id;
  slack_channel_name = channel.name;
  slack_team_id = guild_id;
  created_at = now;
  updated_at = now;
}

abbrev pub utc_now : M ℕ
utc_now = with_state (λ now s. (now, s))

abbrev pub unless_bridged : String → Option RoomMapping → M String → M String
unless_bridged message existing m = if is_some existing then pure message else m

module _ (config : Config) where
  abbrev pub limit_message : String
  limit_message =
      "This bridge has reached its room limit of " ⧺ config.room_count_text
      ⧺ ". Unbridge another room to allow for new connections."

  abbrev pub over_limit : Option ℕ → M (Option String)
  over_limit none = pure none
  over_limit (some limit) = do
    current_count ← query (λ s. count_rooms s.rooms)
    pure (if leb limit current_count then some limit_message else none)

  unfoldable pub check_room_limit : M (Option String)
  check_room_limit = over_limit config.room_count

  -- the caller's `if let Some(limit_message) = … { return Ok(limit_message) }`
  abbrev pub unless_limited : Option String → M String → M String
  unless_limited none m = m
  unless_limited (some message) m = pure message

  abbrev pub backfill_after : String → M (Result Unit)
  backfill_after slack_channel_id =
      if config.backfill_enabled && ltb 0 config.backfill_max_messages
      then attempt (spawn_backfill slack_channel_id config.backfill_max_messages)
      else pure (ok tt)

  abbrev pub room_name : SlackChannel → String
  room_name channel =
      apply_pattern_string config.name_pattern
        (("guild", channel.guild_id) ∷ ("name", "#" ⧺ channel.name) ∷ [])

  abbrev pub bridge_found : String → String → Option SlackChannel → M String
  bridge_found matrix_room_id guild_id none =
      pure "There was a problem bridging that channel - channel was not found."
  bridge_found matrix_room_id guild_id (some channel) = do
    now ← utc_now
    create_mapping (new_mapping matrix_room_id channel guild_id now)
    _ ← attempt (send_state_event matrix_room_id "m.room.name" (room_name channel))
    _ ← backfill_after channel.id
    pure "I have bridged this room to your channel"

  unfoldable pub bridge_matrix_room : String → String → String → M String
  unfolding check_room_limit
  bridge_matrix_room matrix_room_id guild_id channel_id = do
    limit ← check_room_limit
    unless_limited limit (do
      existing ← find_by_channel channel_id
      unless_bridged "This Slack channel is already bridged." existing (do
        channel ← call (get_channel channel_id)
        bridge_found matrix_room_id guild_id channel))

  abbrev pub permission_outcome : String → String → String → Option ProvisioningError → M String
  permission_outcome matrix_room_id guild_id channel_id none =
      bridge_matrix_room matrix_room_id guild_id channel_id
  permission_outcome _ _ _ (some timed_out) =
      pure "Timed out waiting for a response from the Slack owners."
  permission_outcome _ _ _ (some declined) = pure "The bridge has been declined by the Slack guild."
  permission_outcome _ _ _ (some delivery_failed) =
      pure
        "Failed to send approval request to Slack. Ensure the bot can send messages in that channel."
  permission_outcome _ _ _ (some cancelled) =
      pure "There was a problem bridging that channel - has the guild owner approved the bridge?"

  abbrev pub ask_for : String → String → String → String → Option SlackChannel → M String
  ask_for _ _ _ _ none = pure "There was a problem bridging that channel - channel was not found."
  ask_for matrix_room_id matrix_requestor guild_id channel_id (some channel) = do
    call (
        send_notice matrix_room_id
          "I'm asking permission from the guild administrators to make this bridge.")
    outcome ← call (ask_bridge_permission channel.id matrix_requestor)
    permission_outcome matrix_room_id guild_id channel_id outcome

  unfoldable pub request_bridge_matrix_room : String → String → String → String → M String
  unfolding check_room_limit
  request_bridge_matrix_room matrix_room_id matrix_requestor guild_id channel_id = do
    limit ← check_room_limit
    unless_limited limit (do
      existing ← find_by_channel channel_id
      unless_bridged "This Slack channel is already bridged." existing (do
        channel ← call (get_channel channel_id)
        ask_for matrix_room_id matrix_requestor guild_id channel_id channel))

  -- one of the two blocks `if let Some(prefix) = … && let Ok(state) = … && let Some(name) = …`
  abbrev pub add_prefix : String → String → String → Result (Option String) → M Unit
  add_prefix room event_type prefix (ok (some name)) = do
    _ ← attempt (send_state_event room event_type (prefix ⧺ name))
    pure tt
  add_prefix room event_type prefix (ok none) = pure tt
  add_prefix room event_type prefix (err e) = pure tt

  abbrev pub set_prefix : String → String → Option String → M Unit
  set_prefix room event_type none = pure tt
  set_prefix room event_type (some prefix) = do
    state ← attempt (get_room_state_event room event_type)
    add_prefix room event_type prefix state

  abbrev pub unset_alias : String → M Unit
  unset_alias slack_channel_id =
      if config.unset_room_alias
      then (do
        _ ← attempt (
            delete_room_alias
              ("#" ⧺ config.room_alias_prefix ⧺ slack_channel_id ⧺ ":" ⧺ config.domain))
        pure tt)
      else pure tt

  abbrev pub unbridge_found : String → Option RoomMapping → M String
  unbridge_found matrix_room_id none = pure "This room is not bridged."
  unbridge_found matrix_room_id (some mapping) = do
    set_prefix matrix_room_id "m.room.name" config.name_prefix
    set_prefix matrix_room_id "m.room.topic" config.topic_prefix
    unset_alias mapping.slack_channel_id
    drop_mapping mapping.id mapping.matrix_room_id
    pure "This room has been unbridged"

  unfoldable pub unbridge_matrix_room : String → M String
  unfolding get_room_mapping_cached
  unbridge_matrix_room matrix_room_id = do
    mapping ← get_room_mapping_cached matrix_room_id
    unbridge_found matrix_room_id mapping

  abbrev pub delete_found : Option RoomMapping → M Unit
  delete_found none = pure tt
  delete_found (some mapping) = do
    set_prefix mapping.matrix_room_id "m.room.name" config.name_prefix
    set_prefix mapping.matrix_room_id "m.room.topic" config.topic_prefix
    drop_mapping mapping.id mapping.matrix_room_id

  unfoldable pub handle_slack_channel_delete : String → M Unit
  handle_slack_channel_delete slack_channel_id = do
    mapping ← find_by_channel slack_channel_id
    delete_found mapping

abbrev pub encryption_notice : String
encryption_notice =
    "You have turned on encryption in this room, so the service will not bridge any new messages."

abbrev pub encrypted : String → Option RoomMapping → M Unit
encrypted room_id none = pure tt
encrypted room_id (some mapping) = do
  call (send_notice room_id encryption_notice)
  call (leave_room room_id)
  drop_mapping mapping.id room_id

unfoldable pub handle_matrix_encryption : String → M Unit
unfolding get_room_mapping_cached
handle_matrix_encryption room_id = do
  mapping ← get_room_mapping_cached room_id
  encrypted room_id mapping

abbrev pub bridge_created : String → SlackChannel → Result String → M String
bridge_created guild_id channel (err e) = pure "Failed to create Matrix room for the bridge."
bridge_created guild_id channel (ok matrix_room_id) = do
  now ← utc_now
  create_mapping (new_mapping matrix_room_id channel guild_id now)
  pure ("Successfully bridged to Matrix room: " ⧺ matrix_room_id)

abbrev pub create_for : String → Option SlackChannel → M String
create_for guild_id none = pure "Could not find the specified Slack channel."
create_for guild_id (some channel) = do
  created ← attempt (create_room channel.id ("[Slack] #" ⧺ channel.name) channel.topic)
  bridge_created guild_id channel created

unfoldable pub request_bridge_slack_channel : String → String → M String
request_bridge_slack_channel guild_id channel_id = do
  existing ← find_by_channel channel_id
  unless_bridged "That Slack channel is already bridged." existing
      (do channel ← call (get_channel channel_id); create_for guild_id channel)
