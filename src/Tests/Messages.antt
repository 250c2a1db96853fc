-- ===== src/Tests/Messages.antt =====
-- bridge.rs and message_flow.rs: messages of both sides in a bridged room.
use matrix_bridge_slack.Prelude.{◌≡◌, refl, none, some, [], arith}
use matrix_bridge_slack.Text.{
  contains_char, strip_prefix, strip_suffix, trim_start, whitespace_code,
}
use matrix_bridge_slack.Db.{
  find, count_rooms, get_room_by_slack_channel, get_room_by_matrix_room, create_room_mapping,
  upsert_message_mapping, get_by_slack_message_id,
}
use matrix_bridge_slack.Cache.{new}
use matrix_bridge_slack.Bridge.Monad.{◌>>=◌}
use matrix_bridge_slack.Bridge.Triple.{Post}
use matrix_bridge_slack.Bridge.Rooms.{create_mapping, bridge_matrix_room}
use matrix_bridge_slack.Bridge.Matrix.{MatrixEvent, ghost_user_id, slack_user_id_from_mxid}
use matrix_bridge_slack.Bridge.Matrix.Ghost.{slack_user_id_from_mxid-ghost_user_id}
use matrix_bridge_slack.Bridge.History.{start}
use matrix_bridge_slack.Command.{is_command}
use matrix_bridge_slack.Db.Messages as Q
use matrix_bridge_slack.Db.Messages.{view}
use matrix_bridge_slack.MessageFlow.{
  MatrixInboundMessage, reply, parse_matrix_event, extract_plain_text, slack_to_matrix,
  apply_message_relation_mappings,
}
use matrix_bridge_slack.MessageFlow.Content.{
  build_matrix_message_content, parse_matrix_event-build_matrix_message_content,
}
use matrix_bridge_slack.Bridge.Messages.{
  handle_slack_message_with_context, send_to_matrix_with_attachments, send_attachments, prepare,
}
use matrix_bridge_slack.Bridge.Messages.Stored.{Stored, handle_slack_message_with_context-Stored}
use matrix_bridge_slack.Bridge.Outgoing.{handle_matrix_message}
use matrix_bridge_slack.Bridge.Outgoing.Addressed.{Sent, handle_matrix_message-Sent}
use matrix_bridge_slack.Tests.World.{config, context, env, event, linked, parsers, same}

slack_user_id_from_mxid-ghost_user_id_example :
    slack_user_id_from_mxid config (ghost_user_id "U1" config.domain) ≡ some "U1"
unfolding contains_char
slack_user_id_from_mxid-ghost_user_id_example =
    slack_user_id_from_mxid-ghost_user_id config "U1" refl refl

from_mxid : slack_user_id_from_mxid config "@_slack_U1:example.org" ≡ some "U1"
unfolding slack_user_id_from_mxid strip_prefix strip_suffix contains_char
from_mxid = refl

linked_IsValid : Q.IsValid linked.messages
linked_IsValid = ((omega arith, tt), (tt, tt))

handle_slack_message_with_context-Stored_example :
    Post
      (λ _. Stored env linked context (get_room_by_slack_channel linked.rooms "C1"))
      (λ u. u.messages ≡ linked.messages)
      (handle_slack_message_with_context config parsers (λ _. "1") context env linked)
unfolding is_command trim_start strip_prefix whitespace_code
handle_slack_message_with_context-Stored_example =
    handle_slack_message_with_context-Stored config parsers (λ _. "1") context env linked
      linked_IsValid refl

-- the run stores the mapping to the last event
stored :
    view
      (handle_slack_message_with_context config parsers (λ _. "1") context env linked).1.messages
      "171.2"
    ≡ some ("!r:example.org", "$1")
unfolding handle_slack_message_with_context is_command trim_start strip_prefix whitespace_code
    bridge_matrix_room create_mapping create_room_mapping get_room_by_slack_channel count_rooms
    start new find ◌>>=◌ send_to_matrix_with_attachments send_attachments prepare slack_to_matrix
    apply_message_relation_mappings upsert_message_mapping get_by_slack_message_id
stored = refl

abbrev said : MatrixEvent
said = record (event "@u:example.org") {
  event_type = "m.room.message";
  content = some (build_matrix_message_content "good morning" (some "$1") none none);
  timestamp = none;
}

handle_matrix_message-Sent_example :
    Post
      (λ _ u. Sent linked.calls (get_room_by_matrix_room linked.rooms "!r:example.org") u)
      (λ u. Sent linked.calls (get_room_by_matrix_room linked.rooms "!r:example.org") u)
      (handle_matrix_message config same same said env linked)
unfolding is_command trim_start strip_prefix whitespace_code extract_plain_text
    build_matrix_message_content
handle_matrix_message-Sent_example =
    handle_matrix_message-Sent config same same said env linked refl

-- what is read from it, and the pair that the state has
abbrev greeting : MatrixInboundMessage
greeting = record {
  event_id = some "$2";
  room_id = "!r:example.org";
  sender = "@u:example.org";
  body = "good morning";
  relation = some (reply "$1");
  attachments = [];
}

parse_matrix_event-build_matrix_message_content_example :
    parse_matrix_event (extract_plain_text same) said
    ≡ some (record {
      event_id = some "$2";
      room_id = "!r:example.org";
      sender = "@u:example.org";
      body = "good morning";
      relation = some (reply "$1");
      attachments = [];
    })
parse_matrix_event-build_matrix_message_content_example =
    parse_matrix_event-build_matrix_message_content same said "good morning" refl (some "$1") none
      none refl refl
