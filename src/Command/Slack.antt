-- ===== src/Command/Slack.antt =====
-- slack/command_handler.rs: the commands that a Slack user can type, and their permissions.
pub mod Authorised
use Prim.Native.String
use matrix_bridge_slack.Prelude.{
  ℕ, String, Bool, true, false, not, ◌&&◌, ◌||◌, Option, none, some, List, [], ◌∷◌, first, all, ltb,
  length, ◌==◌, if◌then◌else◌,
}
use matrix_bridge_slack.Text.{◌⧺◌, is_blank, trim, join}
use matrix_bridge_slack.Command.{ParsedCommand, parse_prefixed_command, is_command}

pub data ModerationAction : Type 0 where
  kick ban unban : ModerationAction

pub data SlackCommandOutcome : Type 0 where
  ignored : SlackCommandOutcome
  reply : String → SlackCommandOutcome
  approve_requested deny_requested : SlackCommandOutcome
  moderation_requested : (action : ModerationAction) (matrix_user : String) → SlackCommandOutcome
  unbridge_requested : SlackCommandOutcome
  bridge_requested : (guild_id channel_id : String) → SlackCommandOutcome

abbrev pub prefix : String
prefix = "!matrix"

-- `granted.contains(perm)`: the set of permissions as the list of its members
unfoldable pub contains : List String → String → Bool
contains [] perm = false
contains (p ∷ granted) perm = p == perm || contains granted perm

abbrev pub has_all_permissions : List String → List String → Bool
has_all_permissions granted required = all (contains granted) required

abbrev permission_denied : SlackCommandOutcome
permission_denied =
    reply
      "**ERROR:** insufficient permissions to use this command! Try `!matrix help` to see all available commands"

abbrev pub action_keyword : ModerationAction → String
action_keyword kick = "kick"
action_keyword ban = "ban"
action_keyword unban = "unban"

abbrev render_help : Option String → String
render_help none =
    "Available Commands:\n - `!matrix approve`: Approve a pending bridge request\n - `!matrix deny`: Deny a pending bridge request\n - `!matrix bridge <guild_id> <channel_id>`: Bridge this channel to a Matrix room\n - `!matrix kick <name>`: Kicks a user on the Matrix side\n - `!matrix ban <name>`: Bans a user on the Matrix side\n - `!matrix unban <name>`: Unbans a user on the Matrix side\n - `!matrix unbridge`: Unbridge Matrix rooms from this channel"
render_help (some command) =
    if command == "approve"
    then "`!matrix approve`: Approve a pending bridge request"
    else if command == "deny"
    then "`!matrix deny`: Deny a pending bridge request"
    else if command == "bridge"
    then "`!matrix bridge <guild_id> <channel_id>`: Bridge this channel to a Matrix room"
    else if command == "kick"
    then "`!matrix kick <name>`: Kicks a user on the Matrix side"
    else if command == "ban"
    then "`!matrix ban <name>`: Bans a user on the Matrix side"
    else if command == "unban"
    then "`!matrix unban <name>`: Unbans a user on the Matrix side"
    else if command == "unbridge"
    then "`!matrix unbridge`: Unbridge Matrix rooms from this channel"
    else "**ERROR:** unknown command! Try `!matrix help` to see all commands"

-- the test on `args.len()` is the patterns
handle_bridge_args : List String → SlackCommandOutcome
handle_bridge_args (guild_id ∷ channel_id ∷ _) = bridge_requested guild_id channel_id
handle_bridge_args _ =
    reply "**ERROR:** Invalid syntax. Usage: `!matrix bridge <guild_id> <channel_id>`"

handle_bridge : List String → List String → Bool → SlackCommandOutcome
unfolding handle_bridge_args
handle_bridge args granted is_channel_bridged =
    if not (has_all_permissions granted ("MANAGE_WEBHOOKS" ∷ "MANAGE_CHANNELS" ∷ []))
    then permission_denied
    else if is_channel_bridged
    then reply "This channel is already bridged. Use `!matrix unbridge` to remove the bridge first."
    else handle_bridge_args args

handle_moderation : List String → List String → String → ModerationAction → SlackCommandOutcome
handle_moderation args granted needed_permission action =
    if not (has_all_permissions granted (needed_permission ∷ []))
    then permission_denied
    else let matrix_user = trim (join " " args) in
      if is_blank matrix_user
      then reply
          ("Invalid syntax. For more information try `!matrix help " ⧺ action_keyword action ⧺ "`")
      else moderation_requested action matrix_user

abbrev require : List String → List String → SlackCommandOutcome → SlackCommandOutcome
require granted needed outcome =
    if not (has_all_permissions granted needed) then permission_denied else outcome

-- the `match` on the command's name
dispatch : ParsedCommand → Bool → List String → SlackCommandOutcome
unfolding handle_bridge handle_moderation
dispatch parsed is_channel_bridged granted =
    let name = parsed.command in
    if name == "help"
    then reply (render_help (first parsed.args))
    else if name == "approve"
    then require granted ("MANAGE_WEBHOOKS" ∷ []) approve_requested
    else if name == "deny"
    then require granted ("MANAGE_WEBHOOKS" ∷ []) deny_requested
    else if name == "bridge"
    then handle_bridge parsed.args granted is_channel_bridged
    else if name == "unbridge"
    then require granted ("MANAGE_WEBHOOKS" ∷ "MANAGE_CHANNELS" ∷ []) (
        if not is_channel_bridged
        then reply "This channel is not bridged to a plumbed matrix room"
        else unbridge_requested)
    else if name == "kick"
    then handle_moderation parsed.args granted "KICK_MEMBERS" kick
    else if name == "ban"
    then handle_moderation parsed.args granted "BAN_MEMBERS" ban
    else if name == "unban"
    then handle_moderation parsed.args granted "BAN_MEMBERS" unban
    else reply "**ERROR:** unknown command. Try `!matrix help` to see all commands"

unfoldable pub handle : String → Bool → List String → SlackCommandOutcome
unfolding dispatch
handle message is_channel_bridged granted = elim (parse_prefixed_command prefix message) [
  | none ↦ ignored
  | some parsed ↦ dispatch parsed is_channel_bridged granted
]
