-- ===== src/Command/Laws.antt =====
-- What the command parser accepts, and what it reads from what a user types.
use Prim.Native.String.{◌∷◌}
use matrix_bridge_slack.Prelude.{String, ◌≡◌, sym, ◌∙◌, some, List, ◌∷◌, All, arith, is_some}
use matrix_bridge_slack.Text.{◌⧺◌, trim, trim_start, join}
use matrix_bridge_slack.Text.Prefix.{strip_prefix-append}
use matrix_bridge_slack.Text.Trim.{NoBlank, starts_with-trim_end}
use matrix_bridge_slack.Text.Words.{
  IsWord, trim-join, trim-space, is_blank-join, split_whitespace-join,
}
use matrix_bridge_slack.Command.{parse_prefixed_command, is_command}

-- For a prefix without white space, the handlers' quick test of a message agrees with whether the
-- parser accepts it.
pub is_command-parse_prefixed_command :
    (prefix message : String)
    → NoBlank prefix
    → is_command prefix message ≡ is_some (parse_prefixed_command prefix message)
unfolding is_command parse_prefixed_command trim
is_command-parse_prefixed_command prefix message h =
    sym (starts_with-trim_end (trim_start message) prefix h) ∙ ground arith

-- The parser reads back a prefix, a command and arguments that are words joined by single spaces.
pub parse_prefixed_command-join :
    (prefix command : String) (args : List String)
    → IsWord prefix
    → IsWord command
    → All IsWord args
    → parse_prefixed_command prefix (join " " (prefix ∷ command ∷ args))
      ≡ some (record { command = command; args = args })
unfolding parse_prefixed_command join
parse_prefixed_command-join prefix command args p c more =
    let typed = join " " (command ∷ args) in
    let read : trim (prefix ⧺ " " ⧺ typed) ≡ prefix ⧺ " " ⧺ typed =
      trim-join prefix (command ∷ args) p (c, more) in
    let after : trim (" " ⧺ typed) ≡ typed = trim-space typed ∙ trim-join command args c more in
    rw (read, parse_prefixed_command)
      (rw (strip_prefix-append prefix (" " ⧺ typed)) (
        rw after (
          rw (is_blank-join command args c)
            (rw (split_whitespace-join (command ∷ args) (c, more))))))
