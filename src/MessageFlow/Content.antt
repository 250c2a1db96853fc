-- ===== src/MessageFlow/Content.antt =====
-- matrix.rs: the content of a message that the bridge sends, and what message_flow.rs reads from it.
use matrix_bridge_slack.Prelude.{
  ◌≡◌, refl, sym, ap, subst, ◌||◌, ◌∙◌, String, true, false, Option, none, some, [], ◌==◌,
}
use matrix_bridge_slack.Text.{◌⧺◌, is_blank}
use matrix_bridge_slack.Json.{Value, Members, string, object, member, end, set_member, and_then}
use matrix_bridge_slack.Bridge.Matrix.{MatrixEvent}
use matrix_bridge_slack.MessageFlow.{
  MessageRelation, reply, replace, MatrixInboundMessage, parse_relation, parse_attachments,
  extract_plain_text, parsed_content, parse_matrix_event,
}

abbrev pub with_html : Option String → Members → Members
with_html none content = content
with_html (some formatted) content =
    set_member "formatted_body" (string formatted)
      (set_member "format" (string "org.matrix.custom.html") content)

abbrev pub text_content : String → Members
text_content body = member "msgtype" (string "m.text") (member "body" (string body) end)

abbrev pub with_reply : Option String → Members → Members
with_reply none content = content
with_reply (some reply_id) content =
    set_member "m.relates_to"
      (object (member "m.in_reply_to" (object (member "event_id" (string reply_id) end)) end))
      content

abbrev pub starred : Option String → Members → Members
starred none content = content
starred (some formatted) content = set_member "formatted_body" (string ("* " ⧺ formatted)) content

abbrev pub with_edit : String → Option String → Option String → Members → Members
with_edit body formatted_body none content = content
with_edit body formatted_body (some edit_event_id) content = starred formatted_body (
    set_member "body" (string ("* " ⧺ body)) (
      set_member "m.relates_to"
        (object
          (member "rel_type" (string "m.replace") (member "event_id" (string edit_event_id) end)))
        (set_member "m.new_content" (object (with_html formatted_body (text_content body)))
          content)))

unfoldable pub build_matrix_message_content :
    String → Option String → Option String → Option String → Value
build_matrix_message_content body reply_to edit_of formatted_body = object (
    with_edit body formatted_body edit_of
      (with_reply reply_to (with_html formatted_body (text_content body))))

-- an edit wins over a reply
abbrev pub relation_sent : Option String → Option String → Option MessageRelation
relation_sent reply_to (some edit_of) = some (replace edit_of)
relation_sent (some reply_to) none = some (reply reply_to)
relation_sent none none = none

pub parse_relation-build_matrix_message_content :
    (body : String) (reply_to edit_of formatted_body : Option String)
    → parse_relation (build_matrix_message_content body reply_to edit_of formatted_body)
      ≡ relation_sent reply_to edit_of
unfolding parse_relation build_matrix_message_content
parse_relation-build_matrix_message_content body none none none = refl
parse_relation-build_matrix_message_content body none none (some f) = refl
parse_relation-build_matrix_message_content body (some r) none none = refl
parse_relation-build_matrix_message_content body (some r) none (some f) = refl
parse_relation-build_matrix_message_content body none (some e) none = refl
parse_relation-build_matrix_message_content body none (some e) (some f) = refl
parse_relation-build_matrix_message_content body (some r) (some e) none = refl
parse_relation-build_matrix_message_content body (some r) (some e) (some f) = refl

module _ (strip : String → String) (event : MatrixEvent) (body : String)
    (solid : is_blank body ≡ false) where
  abbrev pub read_back : Option String → Option String → MatrixInboundMessage
  read_back reply_to edit_of = record {
    event_id = event.event_id;
    room_id = event.room_id;
    sender = event.sender;
    body = body;
    relation = relation_sent reply_to edit_of;
    attachments = [];
  }

  parsed_content-build :
      (reply_to edit_of formatted_body : Option String)
      → parsed_content
          (extract_plain_text strip)
          event
          (build_matrix_message_content body reply_to edit_of formatted_body)
        ≡ some (read_back reply_to edit_of)
  unfolding parse_relation build_matrix_message_content extract_plain_text parse_attachments
  parsed_content-build none none none = rw solid
  parsed_content-build none none (some f) = rw solid
  parsed_content-build (some r) none none = rw solid
  parsed_content-build (some r) none (some f) = rw solid
  parsed_content-build none (some e) none = rw solid
  parsed_content-build none (some e) (some f) = rw solid
  parsed_content-build (some r) (some e) none = rw solid
  parsed_content-build (some r) (some e) (some f) = rw solid

  -- From an m.room.message event with the content that the bridge builds for a body that is not
  -- blank, parse_matrix_event reads back the body and the relation, the edit if there is one and
  -- else the reply, and no attachment.
  pub parse_matrix_event-build_matrix_message_content :
      (reply_to edit_of formatted_body : Option String)
      → event.event_type ≡ "m.room.message"
      → event.content ≡ some (build_matrix_message_content body reply_to edit_of formatted_body)
      → parse_matrix_event (extract_plain_text strip) event ≡ some (read_back reply_to edit_of)
  unfolding parse_matrix_event
  parse_matrix_event-build_matrix_message_content reply_to edit_of formatted_body kind content =
      let typed = subst (λ x. (x == "m.room.message" || x == "m.sticker") ≡ true) (sym kind) refl in
      rw typed (
        ap (λ c. and_then c (parsed_content (extract_plain_text strip) event)) content
        ∙ parsed_content-build reply_to edit_of formatted_body)
