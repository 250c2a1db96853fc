-- ===== src/SlackParser/Emojis.antt =====
-- parsers/slack_parser.rs: the HTML of a message with its custom emojis uploaded to Matrix.
use matrix_bridge_slack.Prelude.{
  ℕ, String, Bool, true, false, Option, none, some, List, [], ◌∷◌, ◌++◌, map, if◌then◌else◌,
}
use matrix_bridge_slack.Text.{◌⧺◌}
use matrix_bridge_slack.Text.Replace.{replace}
use matrix_bridge_slack.Bridge.{Result, ok, err}
use matrix_bridge_slack.Bridge.Monad.{M, pure, catch, ◌>>=◌}
use matrix_bridge_slack.Bridge.Rooms.{utc_now}
use matrix_bridge_slack.Emoji.{get_or_upload_emoji, emoji_to_matrix_html}
use matrix_bridge_slack.SlackParser.{
  Captures, group, Regex, animated_emoji_regex, custom_emoji_regex, emoji_image, escape_html,
  convert_newlines_to_html, convert_code_blocks_to_html, convert_inline_code_to_html,
  convert_slack_formatting_to_html, convert_mentions_to_html, convert_channels_to_html,
  convert_roles_to_html, convert_emojis_to_html, convert_everyone_here_to_html, format_for_matrix,
}
use matrix_bridge_slack.MessageFlow.{SlackInboundMessage}
use matrix_bridge_slack.SlackParser.Contents.{BridgeMessage}

-- an entry of `emoji_info`
pub record EmojiMention : Type 0 where
  pub name : String
  pub id : String
  pub animated : Bool

abbrev pub placeholder : Bool → String → String
placeholder animated emoji_id =
    if animated then "__ANIMATED_EMOJI_" ⧺ emoji_id ⧺ "__" else "__STATIC_EMOJI_" ⧺ emoji_id ⧺ "__"

abbrev pub mention_of : Bool → Captures → EmojiMention
mention_of animated caps = record { name = group caps 1; id = group caps 2; animated = animated }

abbrev pub emoji_html : EmojiMention → Result String → String
emoji_html e (ok mxc_url) = emoji_to_matrix_html mxc_url e.name
emoji_html e (err _) = emoji_image e.id (if e.animated then "gif" else "png") e.name

module _ (domain : String) (regex : Regex) where
  abbrev pub emoji_info : String → List EmojiMention
  emoji_info text =
      map (mention_of false) (regex.captures_iter custom_emoji_regex text)
      ++ map (mention_of true) (regex.captures_iter animated_emoji_regex text)

  abbrev pub with_placeholders : String → String
  with_placeholders text =
      regex.replace_all custom_emoji_regex (λ caps. placeholder false (group caps 2))
        (regex.replace_all animated_emoji_regex (λ caps. placeholder true (group caps 2)) text)

  -- the emoji handler's server and encoding, if the converter has the handler
  module _ (emoji_handler : Option (String × (String → String))) where
    unfoldable pub put_emojis : String × (String → String) → List EmojiMention → String → M String
    put_emojis handler [] result = pure result
    put_emojis handler (e ∷ es) result = do
      mxc_url ← catch (get_or_upload_emoji handler.0 handler.1 e.id e.name e.animated)
      put_emojis handler es (replace result (placeholder e.animated e.id) (emoji_html e mxc_url))

    abbrev pub by_handler : Option (String × (String → String)) → String → M String
    by_handler none text = pure (convert_emojis_to_html domain regex text)
    by_handler (some handler) text = put_emojis handler (emoji_info text) (with_placeholders text)

    unfoldable pub convert_emojis_to_html_with_cache : String → M String
    convert_emojis_to_html_with_cache text = by_handler emoji_handler text

    unfoldable pub format_as_html_async : String → M String
    format_as_html_async message = do
      let inline =
          convert_inline_code_to_html domain regex
            (convert_code_blocks_to_html domain regex (escape_html message))
      let mentioned = convert_channels_to_html domain regex (
          convert_mentions_to_html domain regex
            (convert_slack_formatting_to_html domain regex inline))
      named ← convert_emojis_to_html_with_cache (convert_roles_to_html domain regex mentioned)
      pure (convert_newlines_to_html (convert_everyone_here_to_html domain regex named))

    -- `show` writes a time
    unfoldable pub convert_message : (ℕ → String) → String → String → M BridgeMessage
    convert_message show slack_message matrix_room_id = do
      formatted ← format_as_html_async slack_message
      now ← utc_now
      pure (record {
        source_platform = "slack";
        target_platform = "matrix";
        source_id = "slack:" ⧺ matrix_room_id;
        target_id = matrix_room_id;
        content = format_for_matrix domain regex slack_message;
        formatted_content = some formatted;
        timestamp = show now;
        attachments = [];
      })

    -- the same once more
    abbrev pub convert_message_with_emoji_cache : (ℕ → String) → String → String → M BridgeMessage
    convert_message_with_emoji_cache show slack_message matrix_room_id =
        convert_message show slack_message matrix_room_id

    -- bridge/message_flow.rs: the plain text and the HTML
    unfoldable pub slack_to_matrix_async : SlackInboundMessage → M (String × Option String)
    slack_to_matrix_async message = do
      formatted ← format_as_html_async message.content
      pure (format_for_matrix domain regex message.content, some formatted)
