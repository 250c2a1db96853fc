-- ===== src/Tests/Guilds.antt =====
-- A team that is deleted, and a member that joins a bridged channel.
use matrix_bridge_slack.Prelude.{false, All, ◌==◌, ◌≡◌, refl, none, some, [], ◌∷◌, ◌++◌}
use matrix_bridge_slack.Db.{
  RoomMapping, find, get_room_by_slack_channel, list_room_mappings, delete_room_mapping,
}
use matrix_bridge_slack.Db.Users.{get_user_by_slack_id, update_user_mapping}
use matrix_bridge_slack.Cache.{remove}
use matrix_bridge_slack.Bridge.{State, ok, ensure_ghost_user_registered, invite_ghost_to_room}
use matrix_bridge_slack.Bridge.Monad.{◌>>=◌}
use matrix_bridge_slack.Bridge.Rooms.{handle_slack_channel_delete, drop_mapping}
use matrix_bridge_slack.Bridge.History.{start}
use matrix_bridge_slack.Bridge.Guild.{
  handle_slack_guild_delete, delete_channels, handle_slack_member_joined_channel,
  handle_slack_user_update,
}
use matrix_bridge_slack.Bridge.Guild.Deleted.{handle_slack_guild_delete-Gone}
use matrix_bridge_slack.Tests.World.{config, env, empty, bridged}
use matrix_bridge_slack.Tests.Handlers.{bridged-Coherent}
use matrix_bridge_slack.Tests.Users.{seen, ann}

abbrev general : RoomMapping
general = record {
  id = 1;
  matrix_room_id = "!r:example.org";
  slack_channel_id = "C1";
  slack_channel_name = "general";
  slack_team_id = "T1";
  created_at = 0;
  updated_at = 0;
}

abbrev team : State
team = record empty { rooms = record { rows = general ∷ []; next_id = 2 } }

team_deleted : (handle_slack_guild_delete config "T1" env team).1.rooms.rows ≡ []
unfolding handle_slack_guild_delete delete_channels handle_slack_channel_delete list_room_mappings
    get_room_by_slack_channel find delete_room_mapping remove drop_mapping start ◌>>=◌
team_deleted = refl

other_team : (handle_slack_guild_delete config "T2" env team).1.rooms ≡ team.rooms
unfolding handle_slack_guild_delete delete_channels list_room_mappings start ◌>>=◌
other_team = refl

joined :
    (handle_slack_member_joined_channel config "C1" "U1" env team).1.calls
    ≡ team.calls
      ++ ensure_ghost_user_registered "U1" none ∷ invite_ghost_to_room "U1" "!r:example.org" ∷ []
unfolding handle_slack_member_joined_channel get_room_by_slack_channel find start ◌>>=◌
joined = refl

abbrev pictured : State
pictured = record seen {
  users = record { rows = record ann { slack_avatar = some "https://a" } ∷ []; next_id = 2 };
}

-- an avatar is not among the changes where it is missing
avatar_kept :
    (handle_slack_user_update "U1" "anna" none env pictured).1.users.rows
    ≡ record ann { slack_username = "anna"; slack_avatar = some "https://a"; updated_at = 1 } ∷ []
unfolding handle_slack_user_update get_user_by_slack_id find update_user_mapping start ◌>>=◌
avatar_kept = refl

handle_slack_guild_delete-Gone_example :
    ((handle_slack_guild_delete config "T1" env bridged).0 ≡ ok tt)
    × All
        (λ r. (r.slack_team_id == "T1") ≡ false)
        (handle_slack_guild_delete config "T1" env bridged).1.rooms.rows
handle_slack_guild_delete-Gone_example =
    handle_slack_guild_delete-Gone env (λ c. refl) config "T1" bridged bridged-Coherent
