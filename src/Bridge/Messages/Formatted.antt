-- ===== src/Bridge/Messages/Formatted.antt =====
-- The formatted body of a Slack message: what its blocks and attachments are rendered to.
use matrix_bridge_slack.Prelude.{Option, none, some, String, refl}
use matrix_bridge_slack.Json.{Values, or_else}
use matrix_bridge_slack.Text.{contains_char}
use matrix_bridge_slack.Blocks.{render_blocks}
use matrix_bridge_slack.Blocks.Attachment.{render_attachments}
use matrix_bridge_slack.Blocks.Html.{Html, IsHtml}
use matrix_bridge_slack.Blocks.Safe.{Each, PlainBlock, literal}
use matrix_bridge_slack.Blocks.Safe.Rendered.{render_blocks-IsHtml}
use matrix_bridge_slack.Blocks.Safe.Attached.{render_attachments-IsHtml}
use matrix_bridge_slack.MessageFlow.{slack_to_matrix}
use matrix_bridge_slack.Bridge.Messages.{
  SlackMessageContext, Parsers, blocks_of, both_html, try, prepare,
}

blocks-IsHtml : (o : Option Values) → Each PlainBlock o → IsHtml (try render_blocks o)
blocks-IsHtml none h = tt
blocks-IsHtml (some vs) h = render_blocks-IsHtml vs h

attachments-IsHtml : (o : Option Values) → IsHtml (try render_attachments o)
attachments-IsHtml none = tt
attachments-IsHtml (some vs) = render_attachments-IsHtml vs

both_html-IsHtml : (o p : Option String) → IsHtml o → IsHtml p → IsHtml (both_html o p)
unfolding contains_char
both_html-IsHtml (some a) (some b) ha hb =
    Html.append a _ ha (Html.append "\n" b (literal "\n" refl refl) hb)
both_html-IsHtml (some a) none ha hb = ha
both_html-IsHtml none (some b) ha hb = hb
both_html-IsHtml none none ha hb = tt

or_none-IsHtml : (o : Option String) → IsHtml o → IsHtml (or_else o none)
or_none-IsHtml none h = tt
or_none-IsHtml (some s) h = h

-- If every element that a part of a Slack message's blocks holds, or a part within such a part (an
-- item of a list), of whatever type it is, has no quote and no angle bracket in user_id,
-- channel_id and value (a colour), and no angle bracket in usergroup_id, in range and in its emoji
-- (what unicode decodes to, or without one the name between colons), then the formatted body that
-- the message is sent with to Matrix, if there is one, is HTML of a fixed grammar, whatever its
-- other texts, its addresses, tables, images and attachments hold: elements are closed in the
-- order in which they were opened, and an attribute's value has no quote.
pub prepare-IsHtml :
    (parsers : Parsers) (ctx : SlackMessageContext)
    → Each PlainBlock (blocks_of ctx.blocks)
    → IsHtml (prepare parsers ctx).formatted_body
unfolding prepare slack_to_matrix
prepare-IsHtml parsers ctx h = or_none-IsHtml _ (
    both_html-IsHtml _ _ (blocks-IsHtml (blocks_of ctx.blocks) h)
      (attachments-IsHtml ctx.slack_attachments))
