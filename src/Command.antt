-- ===== src/Command.antt =====
-- parsers/command_parser.rs: a chat message that begins with the bridge's prefix is a command.
pub mod Laws
pub mod Slack
pub mod Matrix
use matrix_bridge_slack.Prelude.{
  String, Bool, true, false, ◌||◌, Option, none, some, List, [], ◌∷◌, first, if◌then◌else◌,
}
use matrix_bridge_slack.Text.{
  is_blank, trim, trim_start, strip_prefix, starts_with, split_whitespace, split_once,
}

pub record ParsedCommand : Type 0 where
  pub command : String
  pub args : List String

abbrev help : ParsedCommand
help = record { command = "help"; args = [] }

-- the first segment, and the others
abbrev of_segments : List String → ParsedCommand
of_segments [] = help
of_segments (command ∷ args) = record { command = command; args = args }

unfoldable pub parse_prefixed_command : String → String → Option ParsedCommand
parse_prefixed_command prefix message = elim (strip_prefix (trim message) prefix) [
  | none ↦ none
  | some after ↦
      let remainder = trim after in
      if is_blank remainder then some help else some (of_segments (split_whitespace remainder))
]

-- both handlers' `is_command`
unfoldable pub is_command : String → String → Bool
is_command prefix message = starts_with (trim_start message) prefix

-- `first.split_once('/')`: the guild, and the channel behind the slash
abbrev guild_and_rest : String → String × Option String
guild_and_rest word = elim (split_once word b'/') [
  | none ↦ (word, none)
  | some (guild, channel) ↦ (guild, some channel)
]

-- an explicit second argument goes before the channel behind the slash
abbrev channel_or : List String → Option String → Option String
channel_or [] remainder = remainder
channel_or (explicit ∷ _) remainder = some explicit

unfoldable pub parse_guild_and_channel : List String → Option (String × String)
parse_guild_and_channel [] = none
parse_guild_and_channel (word ∷ more) =
    let (guild_id, remainder) = guild_and_rest word in
    elim (channel_or more remainder) [
      | none ↦ none
      | some channel_id ↦
          if is_blank guild_id || is_blank channel_id then none else some (guild_id, channel_id)
    ]
