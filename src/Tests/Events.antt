-- ===== src/Tests/Events.antt =====
-- Events of different ages.
use matrix_bridge_slack.Prelude.{
  ◌++◌, ℕ, ◌≡◌, refl, true, ◌↔◌, ◌⊎◌, some, none, [], ◌∷◌, String, arith,
}
use matrix_bridge_slack.Json.{object, member, string, end, pos, negsuc}
use matrix_bridge_slack.Bridge.{
  deny_channel_member_permissions, slack_message, spawn_clear_overwrite, ok, State, send_notice,
}
use matrix_bridge_slack.Bridge.Monad.{M, call, ◌>>=◌}
use matrix_bridge_slack.Bridge.History.{start}
use matrix_bridge_slack.Bridge.Matrix.{is_namespaced_user, slack_user_id_from_mxid, MatrixEvent}
use matrix_bridge_slack.EventHandler.{
  parse_i64, check_event_age, MatrixEventHandler, with_age_limit, process_event,
}
use matrix_bridge_slack.EventHandler.Age.{InTime, check_event_age_iff, process_event-late}
use matrix_bridge_slack.Bridge.Rooms.{bridge_matrix_room, get_room_mapping_cached, create_mapping}
use matrix_bridge_slack.Db.{
  count_rooms, get_room_by_slack_channel, find, create_room_mapping, get_room_by_matrix_room,
}
use matrix_bridge_slack.Text.{strip_prefix, strip_suffix, contains_char}
use matrix_bridge_slack.Cache.{get}
use matrix_bridge_slack.Prelude.Assoc.{lookup}
use matrix_bridge_slack.Bridge.Members.{handle_matrix_member}
use matrix_bridge_slack.Tests.World.{empty, env, config, bridged}

-- a handler that says what it was given
abbrev said : String → MatrixEvent → M Unit
said text event = call (send_notice event.room_id text)

abbrev handler : MatrixEventHandler
handler = record {
  handle_room_message = said "message";
  handle_room_member = said "member";
  handle_presence = said "presence";
  handle_room_encryption = said "encryption";
  handle_room_name = said "name";
  handle_room_topic = said "topic";
  handle_room_power_levels = said "power levels";
  handle_room_redaction = said "redaction";
  handle_reaction = said "reaction";
  handle_typing = said "typing";
  handle_receipt = said "receipt";
  handle_sticker = said "sticker";
}

abbrev event : String → String → MatrixEvent
event event_type timestamp = record {
  event_id = some "$1";
  event_type = event_type;
  room_id = "!r:example.org";
  sender = "@u:example.org";
  state_key = none;
  content = none;
  timestamp = some timestamp;
}

parsed : parse_i64 "1000" ≡ some (pos 1000)
unfolding parse_i64
parsed = refl

parsed_negative : parse_i64 "-12" ≡ some (negsuc 11)
unfolding parse_i64
parsed_negative = refl

parsed_overflow : parse_i64 "9223372036854775808" ≡ none
unfolding parse_i64
parsed_overflow = refl

parsed_least : parse_i64 "-9223372036854775808" ≡ some (negsuc 9223372036854775807)
unfolding parse_i64
parsed_least = refl

-- an age that wraps is in time
least_in_time :
    check_event_age 1000 (event "m.room.message" "-9223372036854775808") (pos 900000) ≡ true
unfolding check_event_age parse_i64
least_in_time = refl

check_event_age_iff_example :
    (check_event_age 901000
        (event "m.room.message" "1000")
        (with_age_limit handler 900000).age_limit_ms
      ≡ true)
    ↔ ((◌≡◌ {A = ℕ} 900000 0) ⊎ InTime 901000 900000 (pos 1000))
check_event_age_iff_example =
    check_event_age_iff handler (event "m.room.message" "1000") 901000 900000 (pos 1000)
      (omega arith) parsed

abbrev at : State
at = record empty { clock = 2000 }

handed_on :
    (process_event (with_age_limit handler 1000) (event "m.room.topic" "1000") env at).1.calls
    ≡ send_notice "!r:example.org" "topic" ∷ []
unfolding process_event check_event_age with_age_limit parse_i64 ◌>>=◌ start
handed_on = refl

process_event-late_example :
    process_event (with_age_limit handler 900) (event "m.room.topic" "1000") env at ≡ (ok tt, at)
process_event-late_example =
    process_event-late handler (event "m.room.topic" "1000") 900 1000 env at (omega arith) parsed
      (ground arith) (omega arith)

abbrev kick : MatrixEvent
kick = record (event "m.room.member" "1000") {
  state_key = some "@_slack_U1:example.org";
  content = some (object (member "membership" (string "leave") end));
}

kicked :
    (handle_matrix_member config kick env bridged).1.calls
    ≡ bridged.calls
      ++ deny_channel_member_permissions "C1" "U1"
        ∷ slack_message "C1"
            "Matrix moderation: `@_slack_U1:example.org` was kicked by `@u:example.org`. Reason: No reason provided"
        ∷ spawn_clear_overwrite "C1" "U1" 5000
        ∷ []
unfolding bridge_matrix_room handle_matrix_member ◌>>=◌ is_namespaced_user count_rooms strip_prefix
    start get_room_mapping_cached get_room_by_slack_channel get find lookup create_mapping
    create_room_mapping get_room_by_matrix_room slack_user_id_from_mxid strip_suffix contains_char
kicked = refl
