-- ===== src/Command/Matrix.antt =====
-- matrix/command_handler.rs: the commands of a Matrix user. The check of the power level is the
-- caller's function; its error is a text.
pub mod Authorised
use Prim.Native.String
use matrix_bridge_slack.Prelude.{
  ℕ, String, Bool, true, false, not, ◌&&◌, ◌||◌, Option, none, some, List, [], ◌∷◌, first, ◌==◌,
  unwrap_or, if◌then◌else◌,
}
use matrix_bridge_slack.Text.{◌⧺◌}
use matrix_bridge_slack.Command.{ParsedCommand, parse_prefixed_command, parse_guild_and_channel}

-- `required_level` is an i64; the program's levels are not negative
pub record MatrixCommandPermission : Type 0 where
  pub required_level : ℕ
  pub category : String
  pub subcategory : String
  pub self_service : Bool

pub data MatrixCommandOutcome : Type 0 where
  ignored : MatrixCommandOutcome
  reply : String → MatrixCommandOutcome
  bridge_requested : (guild_id channel_id : String) → MatrixCommandOutcome
  unbridge_requested : MatrixCommandOutcome

pub data Granted : Type 0 where
  ok : Bool → Granted
  err : String → Granted

pub record MatrixCommandHandler : Type 0 where
  pub prefix : String
  pub self_service_enabled : Bool
  pub provisioning_power_level : ℕ

abbrev default_provisioning_power_level : ℕ
default_provisioning_power_level = 50

unfoldable pub new : Bool → Option ℕ → MatrixCommandHandler
new self_service_enabled provisioning_power_level = record {
  prefix = "!slack";
  self_service_enabled = self_service_enabled;
  provisioning_power_level = unwrap_or provisioning_power_level default_provisioning_power_level;
}

abbrev pub wanted : MatrixCommandHandler → MatrixCommandPermission
wanted h = record {
  required_level = h.provisioning_power_level;
  category = "events";
  subcategory = "m.room.power_levels";
  self_service = true;
}

-- `none` is `Ok(())`; an error is the reply
ensure_permission : MatrixCommandHandler → (MatrixCommandPermission → Granted) → Option String
ensure_permission h permission_check =
    if (wanted h).self_service && not h.self_service_enabled
    then some "The owner of this bridge does not permit self-service bridging."
    else elim (permission_check (wanted h)) [
      | err e ↦ some ("**ERROR:** " ⧺ e)
      | ok granted ↦
          if granted
          then none
          else some
              "**ERROR:** insufficient permissions to use this command! Try `!slack help` to see all available commands"
    ]

abbrev render_help : Option String → String
render_help none =
    "Available Commands:\n - `!slack bridge <guildId> <channelId>`: Bridges this room to a Slack channel\n - `!slack unbridge`: Unbridges a Slack channel from this room"
render_help (some command) =
    if command == "bridge"
    then "`!slack bridge <guildId> <channelId>`: Bridges this room to a Slack channel\nUse `guild/channel` or `guild channel`."
    else if command == "unbridge"
    then "`!slack unbridge`: Unbridges a Slack channel from this room"
    else "**ERROR:** unknown command! Try `!slack help` to see all commands"

abbrev unless_refused : Option String → MatrixCommandOutcome → MatrixCommandOutcome
unless_refused (some text) outcome = reply text
unless_refused none outcome = outcome

abbrev bridge_outcome : Option (String × String) → MatrixCommandOutcome
bridge_outcome none = reply "Invalid syntax. For more information try `!slack help bridge`"
bridge_outcome (some (guild_id, channel_id)) = bridge_requested guild_id channel_id

-- the `match` on the command's name
dispatch :
    MatrixCommandHandler
    → ParsedCommand
    → Bool
    → (MatrixCommandPermission → Granted)
    → MatrixCommandOutcome
dispatch h parsed room_is_bridged permission_check =
    let name = parsed.command in
    if name == "help"
    then reply (render_help (first parsed.args))
    else if name == "bridge"
    then unless_refused (ensure_permission h permission_check) (
        if room_is_bridged
        then reply "This room is already bridged to a Slack guild."
        else bridge_outcome (parse_guild_and_channel parsed.args))
    else if name == "unbridge"
    then unless_refused (ensure_permission h permission_check)
        (if not room_is_bridged then reply "This room is not bridged." else unbridge_requested)
    else reply "**ERROR:** unknown command. Try `!slack help` to see all commands"

unfoldable pub handle :
    MatrixCommandHandler
    → String
    → Bool
    → (MatrixCommandPermission → Granted)
    → MatrixCommandOutcome
unfolding dispatch ensure_permission
handle h message room_is_bridged permission_check = elim (parse_prefixed_command h.prefix message) [
  | none ↦ ignored
  | some parsed ↦ dispatch h parsed room_is_bridged permission_check
]
