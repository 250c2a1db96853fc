-- ===== src/Tests/Blocks.antt =====
-- A Slack message with blocks and an attachment.
use matrix_bridge_slack.Prelude.{◌≡◌, refl, true, some}
use matrix_bridge_slack.Text.{contains_char, join}
use matrix_bridge_slack.Text.Decimal.{show_ℕ, digits_before}
use matrix_bridge_slack.Text.Replace.{replace_char, split_char}
use matrix_bridge_slack.Json.{
  Value, Values, string, bool, number, array, object, member, end, pos, nil, cons,
}
use matrix_bridge_slack.Blocks.{
  render_blocks, elements_html, list_items, table_rows, render_rich_text_list,
}
use matrix_bridge_slack.Blocks.Element.{
  escape_html, apply_text_styles, render_rich_text_element, decode_unicode_emoji, parse_hex,
}
use matrix_bridge_slack.Blocks.Plain.{
  render_blocks_plain, elements_plain, render_rich_text_element_plain,
}
use matrix_bridge_slack.Blocks.Attachment.{render_attachments}
use matrix_bridge_slack.Blocks.Html.{IsText, IsHtml}
use matrix_bridge_slack.Blocks.Safe.{HasPlainValues, PlainBlock}
use matrix_bridge_slack.Bridge.Messages.{SlackMessageContext, prepare}
use matrix_bridge_slack.Bridge.Messages.Formatted.{prepare-IsHtml}
use matrix_bridge_slack.Tests.World.{context, parsers}

abbrev bold : Value
bold = object (
    member "type" (string "text") (
      member "text" (string "a < b") (member "style" (object (member "bold" (bool true) end)) end)))

abbrev face : Value
face = object (
    member "type" (string "emoji")
      (member "name" (string "smile") (member "unicode" (string "1f604") end)))

abbrev section : Value
section = object (
    member "type" (string "rich_text_section")
      (member "elements" (array (cons bold (cons face nil))) end))

abbrev numbers : Value
numbers = object (
    member "type" (string "rich_text_list") (
      member "style" (string "ordered")
        (member "offset" (number (pos 2)) (member "elements" (array (cons section nil)) end))))

abbrev rich : Value
rich =
    object (member "type" (string "rich_text") (member "elements" (array (cons section nil)) end))

abbrev field : Value
field = object (member "text" (string "\"x\"") end)

abbrev table : Value
table = object (
    member "type" (string "section")
      (member "fields" (array (cons field (cons field (cons field nil)))) end))

abbrev attachment : Value
attachment = object (
    member "author_name" (string "A")
      (member "author_link" (string "https://example.org") (member "text" (string "x & y") end)))

abbrev blocks : Values
blocks = cons rich (cons table nil)

rich_html : render_blocks (cons rich nil) ≡ some "<strong>a &lt; b</strong>😄"
unfolding join render_blocks elements_html render_rich_text_element apply_text_styles escape_html
    replace_char decode_unicode_emoji parse_hex split_char
rich_html = refl

rich_plain : render_blocks_plain (cons rich nil) ≡ some "a < b😄"
unfolding join render_blocks_plain elements_plain render_rich_text_element_plain
    decode_unicode_emoji parse_hex split_char
rich_plain = refl

numbered_html :
    render_rich_text_list numbers ≡ some "<ol start=\"3\"><li><strong>a &lt; b</strong>😄</li></ol>"
unfolding list_items elements_html render_rich_text_element apply_text_styles escape_html
    replace_char decode_unicode_emoji parse_hex split_char show_ℕ digits_before
numbered_html = refl

table_html :
    render_blocks (cons table nil)
    ≡ some
        "<table><tr><td>&quot;x&quot;</td><td>&quot;x&quot;</td></tr><tr><td>&quot;x&quot;</td></tr></table>"
unfolding join render_blocks table_rows escape_html replace_char
table_html = refl

attachment_html :
    render_attachments (cons attachment nil)
    ≡ some
        "<blockquote><strong><a href=\"https://example.org\">A</a></strong><br/>x &amp; y</blockquote>"
unfolding join render_attachments escape_html replace_char
attachment_html = refl

plain_text : IsText ""
unfolding contains_char
plain_text = record { no_lt = refl; no_gt = refl }

bold_ids : HasPlainValues bold
unfolding contains_char
bold_ids = record {
  user = record { is_text = plain_text; no_quote = refl };
  channel = record { is_text = plain_text; no_quote = refl };
  value = record { is_text = record { no_lt = refl; no_gt = refl }; no_quote = refl };
  emoji_text = record { no_lt = refl; no_gt = refl };
  range = record { no_lt = refl; no_gt = refl };
  usergroup = plain_text;
}

face_ids : HasPlainValues face
unfolding contains_char decode_unicode_emoji parse_hex split_char
face_ids = record {
  user = record { is_text = plain_text; no_quote = refl };
  channel = record { is_text = plain_text; no_quote = refl };
  value = record { is_text = record { no_lt = refl; no_gt = refl }; no_quote = refl };
  emoji_text = record { no_lt = refl; no_gt = refl };
  range = record { no_lt = refl; no_gt = refl };
  usergroup = plain_text;
}

rich_plain_ids : PlainBlock rich
rich_plain_ids = (((bold_ids, (face_ids, tt)), (tt, (tt, tt))), tt)

abbrev message : SlackMessageContext
message = record context {
  blocks = some (array blocks);
  slack_attachments = some (cons attachment nil);
}

prepare-IsHtml_example : IsHtml (prepare parsers message).formatted_body
prepare-IsHtml_example = prepare-IsHtml parsers message (rich_plain_ids, (tt, tt))
