-- ===== src/MessageFlow.antt =====
-- bridge/message_flow.rs and bridge/logic.rs: messages on their way, and what they are about.
pub mod Content
use Prim.Native.String
use matrix_bridge_slack.Prelude.{
  ℕ, String, Bool, true, false, not, ◌&&◌, ◌||◌, Option, none, some, List, [], ◌∷◌, ◌++◌, map,
  is_some, is_empty, unwrap_or, ◌==◌, if◌then◌else◌,
}
use matrix_bridge_slack.Text.{◌⧺◌, is_blank, join}
use matrix_bridge_slack.Json.{Value, string, object, get, as_str, get_str, and_then, is_object}
use matrix_bridge_slack.Db.{MessageMapping}
use mathlib.Core.Option.{map as map_option}
use matrix_bridge_slack.Embed.{SlackEmbed, build_matrix_message_embed}
use matrix_bridge_slack.Bridge.Matrix.{MatrixEvent}

pub data MessageRelation : Type 0 where
  reply replace : (event_id : String) → MessageRelation

pub record MessageAttachment : Type 0 where
  pub name : String
  pub url : String
  pub kind : String

pub record MatrixInboundMessage : Type 0 where
  pub event_id : Option String
  pub room_id : String
  pub sender : String
  pub body : String
  pub relation : Option MessageRelation
  pub attachments : List MessageAttachment

pub record SlackInboundMessage : Type 0 where
  pub channel_id : String
  pub sender_id : String
  pub content : String
  pub attachments : List String
  pub reply_to : Option String
  pub edit_of : Option String

pub record OutboundSlackMessage : Type 0 where
  pub content : String
  pub reply_to : Option String
  pub edit_of : Option String
  pub attachments : List String
  pub embed : Option SlackEmbed
  pub use_embed : Bool

pub record OutboundMatrixMessage : Type 0 where
  pub body : String
  pub formatted_body : Option String
  pub reply_to : Option String
  pub edit_of : Option String
  pub attachments : List String

abbrev pub labelled : String → Option String → List String
labelled label none = []
labelled label (some id) = ("(" ⧺ label ⧺ ":" ⧺ id ⧺ ")") ∷ []

abbrev pub unless_blank : String → List String
unless_blank text = if is_blank text then [] else text ∷ []

abbrev pub unless_empty : List String → List String
unless_empty attachments = if is_empty attachments then [] else join " " attachments ∷ []

unfoldable pub render_content : OutboundSlackMessage → String
render_content m = join "\n" (
    labelled "reply" m.reply_to
    ++ labelled "edit" m.edit_of
    ++ unless_blank m.content
    ++ unless_empty m.attachments)

abbrev pub with_reply : Option String → String → String
with_reply none body = body
with_reply (some reply_to) body = "> reply to " ⧺ reply_to ⧺ "\n" ⧺ body

abbrev pub with_edit : Option String → String → String
with_edit none body = body
with_edit (some edit_of) body = "* " ⧺ body ⧺ "\n(edit:" ⧺ edit_of ⧺ ")"

abbrev pub with_attachments : List String → String → String
with_attachments attachments body =
    if is_empty attachments
    then body
    else if is_blank body
    then join "\n" attachments
    else body ⧺ "\n" ⧺ join "\n" attachments

unfoldable pub render_body : OutboundMatrixMessage → String
render_body m = with_attachments m.attachments (with_edit m.edit_of (with_reply m.reply_to m.body))

abbrev pub replaced_event : Value → Option MessageRelation
replaced_event relates_to =
    if unwrap_or (get_str "rel_type" relates_to) "" == "m.replace"
    then and_then (get_str "event_id" relates_to) (λ id. some (replace id))
    else none

abbrev pub relation_of : Option String → Value → Option MessageRelation
relation_of (some id) relates_to = some (reply id)
relation_of none relates_to = replaced_event relates_to

unfoldable pub parse_relation : Value → Option MessageRelation
parse_relation content = and_then (get "m.relates_to" content) λ relates_to.
    relation_of (and_then (get "m.in_reply_to" relates_to) (get_str "event_id")) relates_to

abbrev pub is_attachment_type : String → Bool
is_attachment_type kind =
    kind == "m.image"
    || kind == "m.audio"
    || kind == "m.video"
    || kind == "m.file"
    || kind == "m.sticker"

abbrev pub attachment_at : Value → String → Option String → List MessageAttachment
attachment_at content msgtype none = []
attachment_at content msgtype (some url) =
    record { name = unwrap_or (get_str "body" content) "matrix-media"; url = url; kind = msgtype }
    ∷ []

unfoldable pub parse_attachments : Value → String → List MessageAttachment
parse_attachments content msgtype =
    if not (is_attachment_type msgtype)
    then []
    else attachment_at content msgtype (get_str "url" content)

-- the new content of an edit, if it is an object
abbrev pub new_content_or : Value → Option Value → Value
new_content_or content none = content
new_content_or content (some value) = if is_object value then value else content

abbrev pub text_or : (String → String) → Option String → Option String → String
text_or strip_html_tags (some body) formatted = body
text_or strip_html_tags none (some formatted) = strip_html_tags formatted
text_or strip_html_tags none none = ""

-- parsers/common.rs; `strip_html_tags` is its two regular expressions
unfoldable pub extract_plain_text : (String → String) → Value → String
extract_plain_text strip_html_tags (string s) = s
extract_plain_text strip_html_tags (object ms) =
    text_or strip_html_tags (get_str "body" (object ms)) (get_str "formatted_body" (object ms))
extract_plain_text strip_html_tags _ = ""

-- `plain_text` is `MessageUtils::extract_plain_text`
module _ (plain_text : Value → String) where
  abbrev pub parsed_content : MatrixEvent → Value → Option MatrixInboundMessage
  parsed_content event content =
      let content_for_body = new_content_or content (get "m.new_content" content) in
      let body = plain_text content_for_body in
      let msgtype =
        unwrap_or (get_str "msgtype" content_for_body)
          (if event.event_type == "m.sticker" then "m.sticker" else "m.text") in
      let attachments = parse_attachments content_for_body msgtype in
      if is_blank body && is_empty attachments
      then none
      else some (record {
        event_id = event.event_id;
        room_id = event.room_id;
        sender = event.sender;
        body = body;
        relation = parse_relation content;
        attachments = attachments;
      })

  unfoldable pub parse_matrix_event : MatrixEvent → Option MatrixInboundMessage
  parse_matrix_event event =
      if event.event_type == "m.room.message" || event.event_type == "m.sticker"
      then and_then event.content (parsed_content event)
      else none

abbrev pub reply_id : Option MessageRelation → Option String
reply_id (some (reply id)) = some id
reply_id (some (replace id)) = none
reply_id none = none

abbrev pub replace_id : Option MessageRelation → Option String
replace_id (some (replace id)) = some id
replace_id (some (reply id)) = none
replace_id none = none

-- `format_for_slack` is the converter's
unfoldable pub matrix_to_slack : (String → String) → MatrixInboundMessage → OutboundSlackMessage
matrix_to_slack format_for_slack message = record {
  content = format_for_slack message.body;
  reply_to = reply_id message.relation;
  edit_of = replace_id message.relation;
  attachments = map (λ attachment. attachment.url) message.attachments;
  embed = none;
  use_embed = false;
}

-- the message in an embed, which may panic on the preview of a reply
abbrev pub matrix_to_slack_with_embed :
    MatrixInboundMessage
    → String
    → Option String
    → Option (String × String)
    → Option OutboundSlackMessage
matrix_to_slack_with_embed message sender_displayname sender_avatar_url reply_info =
    map_option
      (λ embed. record {
        content = "";
        reply_to = reply_id message.relation;
        edit_of = replace_id message.relation;
        attachments = map (λ attachment. attachment.url) message.attachments;
        embed = some embed;
        use_embed = true;
      })
      (build_matrix_message_embed sender_displayname sender_avatar_url message.body reply_info)

-- `format_for_matrix` is the converter's
unfoldable pub slack_to_matrix : (String → String) → SlackInboundMessage → OutboundMatrixMessage
slack_to_matrix format_for_matrix message = record {
  body = format_for_matrix message.content;
  formatted_body = none;
  reply_to = message.reply_to;
  edit_of = message.edit_of;
  attachments = message.attachments;
}

abbrev pub event_or : Option MessageMapping → Option String → Option String
event_or none id = id
event_or (some link) id = some link.matrix_event_id

unfoldable pub apply_message_relation_mappings :
    OutboundMatrixMessage → Option MessageMapping → Option MessageMapping → OutboundMatrixMessage
apply_message_relation_mappings outbound reply_mapping edit_mapping = record outbound {
  reply_to = event_or reply_mapping outbound.reply_to;
  edit_of = event_or edit_mapping outbound.edit_of;
}
