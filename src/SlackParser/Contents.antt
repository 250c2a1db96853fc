-- ===== src/SlackParser/Contents.antt =====
-- parsers/slack_parser.rs: the contents of Matrix events, and what message_flow.rs reads from them.
use text.Mathlib.TextLemmas.{cons-append}
use matrix_bridge_slack.Prelude.{
  List, ◌≡◌, refl, sym, subst, ◌∙◌, ◌||◌, ◌==◌, true, String, false, Option, none, some, [],
  unwrap_or,
}
use matrix_bridge_slack.Text.{◌⧺◌, is_blank}
use matrix_bridge_slack.Json.{Value, string, object, member, end}
use matrix_bridge_slack.Bridge.Matrix.{MatrixEvent}
use matrix_bridge_slack.MessageFlow.{
  MessageRelation, reply, replace, MatrixInboundMessage, parse_relation, parse_attachments,
  extract_plain_text, parsed_content, parse_matrix_event,
}

-- parsers/common.rs
pub record BridgeMessage : Type 0 where
  pub source_platform : String
  pub target_platform : String
  pub source_id : String
  pub target_id : String
  pub content : String
  pub formatted_content : Option String
  pub timestamp : String
  pub attachments : List String

-- a text message, with HTML if there is one
abbrev pub message_content : String → Option String → Value
message_content body none =
    object (member "msgtype" (string "m.text") (member "body" (string body) end))
message_content body (some formatted) = object (
    member "msgtype" (string "m.text") (
      member "body" (string body) (
        member "format" (string "org.matrix.custom.html")
          (member "formatted_body" (string formatted) end))))

unfoldable pub to_matrix_content : BridgeMessage → Value
to_matrix_content message = message_content message.content message.formatted_content

abbrev pub plain_reply : String → String → String → String
plain_reply body reply_body reply_sender = "> <" ⧺ reply_sender ⧺ "> " ⧺ reply_body ⧺ "\n\n" ⧺ body

abbrev pub formatted_reply : String → String → String → String → String
formatted_reply body reply_event_id reply_body reply_sender =
    "<mx-reply><blockquote><a href=\"https://matrix.to/#/" ⧺ reply_event_id
    ⧺ "\">In reply to</a> <a href=\"https://matrix.to/#/" ⧺ reply_sender ⧺ "\">" ⧺ reply_sender
    ⧺ "</a><br/>" ⧺ reply_body ⧺ "</blockquote></mx-reply>" ⧺ body

unfoldable pub create_reply_content : String → String → String → String → Value
create_reply_content body reply_event_id reply_body reply_sender = object (
    member "msgtype" (string "m.text") (
      member "body" (string (plain_reply body reply_body reply_sender)) (
        member "format" (string "org.matrix.custom.html") (
          member "formatted_body"
            (string (formatted_reply body reply_event_id reply_body reply_sender))
            (member "m.relates_to"
              (object (
                member "m.in_reply_to" (object (member "event_id" (string reply_event_id) end))
                  end))
              end)))))

unfoldable pub create_edit_content : String → String → Option String → Value
create_edit_content new_body original_event_id new_formatted_body = object (
    member "msgtype" (string "m.text") (
      member "body" (string ("* " ⧺ new_body)) (
        member "format" (string "org.matrix.custom.html") (
          member "formatted_body" (string ("* " ⧺ unwrap_or new_formatted_body new_body)) (
            member "m.new_content" (message_content new_body new_formatted_body) (
              member "m.relates_to"
                (object (
                  member "rel_type" (string "m.replace")
                    (member "event_id" (string original_event_id) end)))
                end))))))

reply-is_blank : (s : String) → is_blank ("> <" ⧺ s) ≡ false
reply-is_blank s = rw (cons-append ">" " <" s) refl

module _ (strip : String → String) (event : MatrixEvent) where
  abbrev pub read_as : String → MessageRelation → Option MatrixInboundMessage
  read_as body relation = some (record {
    event_id = event.event_id;
    room_id = event.room_id;
    sender = event.sender;
    body = body;
    relation = some relation;
    attachments = [];
  })

  parsed_content-edit :
      (new_body id : String) (html : Option String)
      → is_blank new_body ≡ false
      → parsed_content (extract_plain_text strip) event (create_edit_content new_body id html)
        ≡ read_as new_body (replace id)
  unfolding create_edit_content parse_relation extract_plain_text parse_attachments
  parsed_content-edit new_body id none solid = rw solid
  parsed_content-edit new_body id (some html) solid = rw solid

  read_of :
      (content : Value)
      → event.event_type ≡ "m.room.message"
      → parse_matrix_event (extract_plain_text strip) (record event { content = some content })
        ≡ parsed_content (extract_plain_text strip) event content
  unfolding parse_matrix_event
  read_of content kind =
      let typed = subst (λ x. (x == "m.room.message" || x == "m.sticker") ≡ true) (sym kind) refl in
      rw typed refl

  -- From an m.room.message event with the content that create_edit_content or create_reply_content
  -- makes of a text that is not empty, parse_matrix_event reads back the event's id, room and
  -- sender, with the edit of the edited event and the new text, or the reply to the event that is
  -- replied to and the text with the quoted body before it, and no attachment.
  pub parse_matrix_event-created :
      (body id reply_body reply_sender : String) (html : Option String)
      → is_blank body ≡ false
      → event.event_type ≡ "m.room.message"
      → (parse_matrix_event
            (extract_plain_text strip)
            (record event { content = some (create_edit_content body id html) })
          ≡ read_as body (replace id))
        × (parse_matrix_event (extract_plain_text strip) (record event {
          content = some (create_reply_content body id reply_body reply_sender);
        })
            ≡ read_as (plain_reply body reply_body reply_sender) (reply id))
  unfolding create_reply_content parse_relation extract_plain_text parse_attachments
  parse_matrix_event-created body id reply_body reply_sender html solid kind = (
    read_of _ kind ∙ parsed_content-edit body id html solid,
    read_of _ kind ∙ rw (reply-is_blank (reply_sender ⧺ "> " ⧺ reply_body ⧺ "\n\n" ⧺ body)) refl,
  )
