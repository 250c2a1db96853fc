-- ===== src/SlackParser/Lists.antt =====
-- parsers/slack_parser.rs: the lines of a list as the items of an HTML list.
pub mod Closed
use matrix_bridge_slack.Prelude.{
  ◌≡◌, refl, sym, subst, String, Bool, true, false, Option, none, some, List, [], ◌∷◌,
  if◌then◌else◌,
}
use text.Mathlib.TextLemmas.{append_assoc}
use matrix_bridge_slack.Text.{◌⧺◌, contains_char}
use matrix_bridge_slack.Text.Replace.{lines}
use matrix_bridge_slack.SlackParser.{
  Captures, group, Regex, unordered_list_regex, ordered_list_regex, escape_html,
  convert_newlines_to_html, convert_code_blocks_to_html, convert_inline_code_to_html,
  convert_slack_formatting_to_html, convert_links_to_html, convert_quotes_to_html,
  convert_mentions_to_html, convert_channels_to_html, convert_roles_to_html, convert_emojis_to_html,
  convert_everyone_here_to_html,
}

abbrev pub item : String → String
item text = "<li>" ⧺ text ⧺ "</li>"

-- what is closed, and opened, on the way to the next line
abbrev pub close_if : Bool → String → String
close_if open_list tag = if open_list then tag else ""

abbrev pub open_if : Bool → String → String
open_if open_list tag = if open_list then "" else tag

module _ (regex : Regex) where
  -- what the loop appends from a line on: `in_u` and `in_o` say which lists are open
  unfoldable pub lists_from : Bool → Bool → List String → String
  lists_from in_u in_o [] = close_if in_u "</ul>" ⧺ close_if in_o "</ol>"
  lists_from in_u in_o (line ∷ more) =
      let unordered = lists_from true in_o more in
      let ordered = lists_from false true more in
      let plain = lists_from false false more in
      elim (regex.captures unordered_list_regex line) [
        | some caps ↦ open_if in_u "<ul>" ⧺ item (group caps 1) ⧺ unordered
        | none ↦ elim (regex.captures ordered_list_regex line) [
          | some caps ↦ close_if in_u "</ul>" ⧺ open_if in_o "<ol>" ⧺ item (group caps 2) ⧺ ordered
          | none ↦ close_if in_u "</ul>" ⧺ close_if in_o "</ol>" ⧺ (line ⧺ "\n") ⧺ plain
        ]
      ]

  unfoldable pub convert_lists_to_html : String → String
  unfolding lines
  convert_lists_to_html text = lists_from false false (lines text)

  unfoldable pub format_as_html : String → String → String
  format_as_html domain message =
      let escaped = escape_html message in
      let inline =
        convert_inline_code_to_html domain regex
          (convert_code_blocks_to_html domain regex escaped) in
      let linked =
        convert_links_to_html domain regex (convert_slack_formatting_to_html domain regex inline) in
      let quoted = convert_quotes_to_html domain regex (convert_lists_to_html linked) in
      let mentioned =
        convert_channels_to_html domain regex (convert_mentions_to_html domain regex quoted) in
      let named =
        convert_emojis_to_html domain regex (convert_roles_to_html domain regex mentioned) in
      convert_newlines_to_html (convert_everyone_here_to_html domain regex named)
