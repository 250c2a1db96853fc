-- ===== src/Bridge/Guild/Steps.antt =====
-- One event of a member, a user or a team, handled to its end.
use matrix_bridge_slack.Prelude.{String, Option, List}
use matrix_bridge_slack.Bridge.{State, Env, Config}
use matrix_bridge_slack.Bridge.Triple.{Triple-state}
use matrix_bridge_slack.Bridge.Rooms.Coherent.{Coherent}
use matrix_bridge_slack.Bridge.Guild.{
  handle_slack_user_update, handle_slack_guild_member_update, handle_slack_member_joined_channel,
  handle_slack_member_left_channel, handle_slack_channel_marked, handle_slack_guild_delete,
  handle_slack_guild_member_add, handle_slack_guild_member_remove,
}
use matrix_bridge_slack.Bridge.Guild.Coherent.{
  handle_slack_user_update-Coherent, handle_slack_guild_member_update-Coherent,
  handle_slack_member_joined_channel-Coherent, handle_slack_member_left_channel-Coherent,
  handle_slack_channel_marked-Coherent, handle_slack_guild_delete-Coherent,
  handle_slack_guild_member_add-Coherent, handle_slack_guild_member_remove-Coherent,
}

module _ (config : Config) where
  pub data GuildStep : State → State → Type 0 where
    user_changed :
        (env : Env) (user name : String) (avatar : Option String) (s : State)
        → GuildStep s (handle_slack_user_update user name avatar env s).1
    team_member_changed :
        (env : Env) (team user : String) (avatar : Option String) (roles : List String) (s : State)
        → GuildStep s (handle_slack_guild_member_update team user avatar roles env s).1
    joined :
        (env : Env) (channel user : String) (s : State)
        → GuildStep s (handle_slack_member_joined_channel config channel user env s).1
    left :
        (env : Env) (channel user : String) (s : State)
        → GuildStep s (handle_slack_member_left_channel config channel user env s).1
    marked :
        (env : Env) (channel user : String) (s : State)
        → GuildStep s (handle_slack_channel_marked config channel user env s).1
    team_deleted :
        (env : Env) (team : String) (s : State)
        → GuildStep s (handle_slack_guild_delete config team env s).1
    member_added :
        (env : Env) (team user name : String) (roles : List String) (s : State)
        → GuildStep s (handle_slack_guild_member_add config team user name roles env s).1
    team_member_removed :
        (env : Env) (team user : String) (s : State)
        → GuildStep s (handle_slack_guild_member_remove config team user env s).1

  pub GuildStep-Coherent : (s t : State) → GuildStep s t → Coherent s → Coherent t
  GuildStep-Coherent s t (user_changed env user name avatar _) h =
      Triple-state _ (handle_slack_user_update-Coherent user name avatar) env s h
  GuildStep-Coherent s t (team_member_changed env team user avatar roles _) h =
      Triple-state _ (handle_slack_guild_member_update-Coherent team user avatar roles) env s h
  GuildStep-Coherent s t (joined env channel user _) h =
      Triple-state _ (handle_slack_member_joined_channel-Coherent config channel user) env s h
  GuildStep-Coherent s t (left env channel user _) h =
      Triple-state _ (handle_slack_member_left_channel-Coherent config channel user) env s h
  GuildStep-Coherent s t (marked env channel user _) h =
      Triple-state _ (handle_slack_channel_marked-Coherent config channel user) env s h
  GuildStep-Coherent s t (team_deleted env team _) h =
      Triple-state _ (handle_slack_guild_delete-Coherent config team) env s h
  GuildStep-Coherent s t (member_added env team user name roles _) h =
      Triple-state _ (handle_slack_guild_member_add-Coherent config team user name roles) env s h
  GuildStep-Coherent s t (team_member_removed env team user _) h =
      Triple-state _ (handle_slack_guild_member_remove-Coherent config team user) env s h
