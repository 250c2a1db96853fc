-- ===== src/UserSync.antt =====
-- bridge/user_sync.rs: the ghosts of Slack's users, in the user store and on Matrix.
pub mod Keeps
pub mod Registered
use Prim.Native.String.{[], ◌∷◌}
use matrix_bridge_slack.Prelude.{
  ℕ, String, code, Char, Bool, true, false, not, ◌&&◌, ◌||◌, Option, none, some, List, [], ◌∷◌,
  ◌++◌, is_some, is_empty, unwrap_or, leb, eqb, ◌==◌, if◌then◌else◌,
}
use matrix_bridge_slack.Text.{◌⧺◌}
use matrix_bridge_slack.Formatting.{apply_pattern_string}
use matrix_bridge_slack.Db.{Table, RoomMapping, list_room_mappings, get_rooms_by_guild}
use matrix_bridge_slack.Db.Users.{
  UserMapping, get_user_by_slack_id, create_user_mapping, update_user_mapping,
}
use matrix_bridge_slack.Bridge.{
  Result, ok, err, State, Config, ensure_ghost_user_registered, set_ghost_displayname,
  set_ghost_avatar, download_from_url, upload_media_for_ghost, set_ghost_room_displayname,
  set_ghost_room_avatar, set_ghost_room_roles, invite_ghost_to_room, kick_ghost_from_room,
}
use matrix_bridge_slack.Bridge.Monad.{
  M, pure, query, write, try_write, call, attempt, catch, ◌>>=◌, ◌>>◌,
}
use matrix_bridge_slack.Bridge.Rooms.{utc_now}

pub record UserState : Type 0 where
  pub id : String
  pub mx_user_id : String
  pub create_user : Bool
  pub displayname : Option String
  pub avatar_url : Option String
  pub remove_avatar : Bool
  pub roles : List String

-- the characters that an id may have
abbrev pub is_allowed : ℕ → Bool
is_allowed c =
    leb 97 c && leb c 122
    || (leb 65 c && leb c 90
        || (leb 48 c && leb c 57
            || (eqb c 95 || (eqb c 45 || (eqb c 46 || (eqb c 61 || (eqb c 47 || eqb c 43)))))))

abbrev pub sanitize_char : Char → Char
sanitize_char c = if is_allowed (code c) then c else "_"

unfoldable pub sanitize_for_mxid : String → String
sanitize_for_mxid [] = []
sanitize_for_mxid (c ∷ s) = sanitize_char c ∷ sanitize_for_mxid s

abbrev pub mxid_extra_of : Bool → Option String → String
mxid_extra_of is_webhook slack_username =
    if is_webhook then "_" ⧺ sanitize_for_mxid (unwrap_or slack_username "unknown") else ""

-- whether two optional texts are the same
abbrev pub same_option : Option String → Option String → Bool
same_option none none = true
same_option none (some b) = false
same_option (some a) none = false
same_option (some a) (some b) = a == b

abbrev pub displayname_of : Config → String → Option String → Option String
displayname_of config slack_user_id none = none
displayname_of config slack_user_id (some name) = some (
    apply_pattern_string config.username_pattern
      (("id", slack_user_id) ∷ ("tag", "0000") ∷ ("username", name) ∷ []))

abbrev pub if_changed : Option String → Option String → Option String
if_changed new old = if same_option new old then none else new

module _ (config : Config) where
  abbrev pub state_for :
      String → String → Option String → Option String → Option UserMapping → UserState
  state_for slack_user_id mxid_extra displayname slack_avatar_url none = record {
    id = slack_user_id ⧺ mxid_extra;
    mx_user_id = "@_slack_" ⧺ slack_user_id ⧺ mxid_extra ⧺ ":" ⧺ config.domain;
    create_user = true;
    displayname = displayname;
    avatar_url = slack_avatar_url;
    remove_avatar = false;
    roles = [];
  }
  state_for slack_user_id mxid_extra displayname slack_avatar_url (some existing) = record {
    id = slack_user_id ⧺ mxid_extra;
    mx_user_id = existing.matrix_user_id;
    create_user = false;
    displayname = if_changed displayname (some existing.slack_username);
    avatar_url = if_changed slack_avatar_url existing.slack_avatar;
    remove_avatar = not (is_some slack_avatar_url) && is_some existing.slack_avatar;
    roles = [];
  }

  unfoldable pub get_user_update_state : String → Option String → Option String → Bool → M UserState
  get_user_update_state slack_user_id slack_username slack_avatar_url is_webhook = do
    let mxid_extra = mxid_extra_of is_webhook slack_username
    existing ← query (λ s. get_user_by_slack_id s.users (slack_user_id ⧺ mxid_extra))
    pure (
        state_for slack_user_id mxid_extra (displayname_of config slack_user_id slack_username)
          slack_avatar_url existing)

  abbrev pub mapping_of : UserState → ℕ → UserMapping
  mapping_of state now = record {
    id = 0;
    matrix_user_id = state.mx_user_id;
    slack_user_id = state.id;
    slack_username = unwrap_or state.displayname "";
    slack_discriminator = "0000";
    slack_avatar = state.avatar_url;
    created_at = now;
    updated_at = now;
  }

  abbrev pub with_users : State → Option (Table UserMapping) → Option State
  with_users s none = none
  with_users s (some users) = some (record s { users = users })

  abbrev pub store_user : Bool → UserMapping → M Unit
  store_user true mapping = try_write (λ s. with_users s (create_user_mapping s.users mapping)) tt
  store_user false mapping =
      write (λ s. record s { users = update_user_mapping s.users mapping }) tt

  unfoldable pub upload_avatar_to_matrix : String → String → M String
  upload_avatar_to_matrix slack_user_id avatar_url = do
    media ← call (download_from_url avatar_url)
    call (upload_media_for_ghost slack_user_id media)

  abbrev pub set_displayname : String → Option String → M Unit
  set_displayname id none = pure tt
  set_displayname id (some displayname) = do
    _ ← attempt (set_ghost_displayname id displayname)
    pure tt

  abbrev pub set_uploaded : String → Result String → M Unit
  set_uploaded id (err e) = pure tt
  set_uploaded id (ok mxc_url) = do _ ← attempt (set_ghost_avatar id mxc_url); pure tt

  abbrev pub set_avatar : String → Option String → M Unit
  set_avatar id none = pure tt
  set_avatar id (some avatar_url) = do
    mxc_url ← catch (upload_avatar_to_matrix id avatar_url)
    set_uploaded id mxc_url

  abbrev pub drop_avatar : String → Bool → M Unit
  drop_avatar id false = pure tt
  drop_avatar id true = do _ ← attempt (set_ghost_avatar id ""); pure tt

  unfoldable pub apply_state_to_profile : UserState → M Unit
  apply_state_to_profile state = do
    now ← utc_now
    store_user state.create_user (mapping_of state now)
    call (ensure_ghost_user_registered state.id state.displayname)
    set_displayname state.id state.displayname
    set_avatar state.id state.avatar_url
    drop_avatar state.id state.remove_avatar

  -- the three calls for a room, of which each stops the rest if it fails
  abbrev pub room_displayname : String → String → Option String → M Unit
  room_displayname id room none = pure tt
  room_displayname id room (some displayname) =
      call (set_ghost_room_displayname id room displayname)

  abbrev pub room_avatar : String → String → Option String → M Unit
  room_avatar id room none = pure tt
  room_avatar id room (some avatar_mxc) = call (set_ghost_room_avatar id room avatar_mxc)

  unfoldable pub apply_state_to_room : UserState → String → M Unit
  apply_state_to_room state room_id = do
    room_displayname state.id room_id state.displayname
    room_avatar state.id room_id state.avatar_url
    if not (is_empty state.roles)
        then call (set_ghost_room_roles state.id room_id state.roles)
        else pure tt

  -- `guild_rooms.entry(guild).or_default().push(room)`
  abbrev pub push_room : String → String → List (String × List String) → List (String × List String)
  push_room guild room [] = (guild, room ∷ []) ∷ []
  push_room guild room ((g, rooms) ∷ groups) =
      let rest = push_room guild room groups in
      if g == guild then (g, rooms ++ room ∷ []) ∷ groups else (g, rooms) ∷ rest

  abbrev pub group_rooms :
      List RoomMapping → List (String × List String) → List (String × List String)
  group_rooms [] groups = groups
  group_rooms (m ∷ ms) groups = group_rooms ms (push_room m.slack_team_id m.matrix_room_id groups)

  unfoldable pub update_rooms : UserState → List String → M Unit
  update_rooms state [] = pure tt
  update_rooms state (room_id ∷ rooms) = do
    _ ← catch (apply_state_to_room state room_id)
    update_rooms state rooms

  unfoldable pub update_guilds : UserState → List (String × List String) → M Unit
  update_guilds state [] = pure tt
  update_guilds state ((guild, rooms) ∷ groups) = do
    update_rooms state rooms
    update_guilds state groups

  -- the order in which a HashMap gives its entries is unknown
  module _ (order : List (String × List String) → List (String × List String)) where
    unfoldable pub update_state_for_guilds : UserState → M Unit
    update_state_for_guilds state = do
      room_mappings ← query (λ s. list_room_mappings s.rooms)
      update_guilds state (order (group_rooms room_mappings []))

    abbrev pub update_if_named : UserState → M Unit
    update_if_named state =
        if is_some state.displayname || is_some state.avatar_url
        then update_state_for_guilds state
        else pure tt

    unfoldable pub on_user_update : String → Option String → Option String → Bool → M Unit
    on_user_update slack_user_id slack_username slack_avatar_url is_webhook = do
      user_state ← get_user_update_state slack_user_id slack_username slack_avatar_url is_webhook
      apply_state_to_profile user_state
      update_if_named user_state

abbrev pub ensure_user_in_room : String → String → M Unit
ensure_user_in_room slack_user_id room_id = do
  call (ensure_ghost_user_registered slack_user_id none)
  call (invite_ghost_to_room slack_user_id room_id)

abbrev pub remove_user_from_room : String → String → M Unit
remove_user_from_room slack_user_id room_id = call (kick_ghost_from_room slack_user_id room_id)

unfoldable pub sync_rooms : String → List String → List RoomMapping → M Unit
sync_rooms slack_user_id roles [] = pure tt
sync_rooms slack_user_id roles (mapping ∷ mappings) = do
  _ ← attempt (set_ghost_room_roles slack_user_id mapping.matrix_room_id roles)
  sync_rooms slack_user_id roles mappings

abbrev pub sync_user_roles : String → String → List String → M Unit
sync_user_roles slack_user_id guild_id roles = do
  room_mappings ← query (λ s. get_rooms_by_guild s.rooms guild_id)
  sync_rooms slack_user_id roles room_mappings
