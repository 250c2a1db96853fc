-- ===== src/Tests/World.antt =====
-- An environment where all requests succeed, a configuration, and a room that is bridged there.
use matrix_bridge_slack.Prelude.{ℕ, String, true, false, none, some, [], ◌∷◌}
use matrix_bridge_slack.Json.{null, string, object, member, end}
use matrix_bridge_slack.Db.{RoomMapping}
use matrix_bridge_slack.Bridge.{
  create_dm_room, post_upload, upload_media_for_ghost, replied, Request, Answer, Result, ok, State,
  Env, Config, get_channel, create_room, get_conversation_history, get_conversation_replies,
  get_user, power_levels, get_user_profile, download_matrix_media, send_message_with_metadata,
  upload_media, send_media_message, download_from_url, mark_approval, get_room_state_event,
  get_room_name, get_room_topic, ask_bridge_permission,
}
use matrix_bridge_slack.Bridge.Rooms.{bridge_matrix_room}
use matrix_bridge_slack.Bridge.Matrix.{MatrixEvent}
use matrix_bridge_slack.Bridge.History.{start}
use matrix_bridge_slack.Bridge.Messages.{SlackMessageContext, Parsers}

abbrev pub answers : (r : Request) → Result (Answer r)
answers (get_channel c) =
    ok (some (record { id = c; name = "general"; guild_id = "T1"; topic = none }))
answers (get_conversation_history _ _ _) = ok (object end)
answers (get_conversation_replies _ _ _) = ok (object end)
answers (create_room _ _ _) = ok "!new:example.org"
answers (create_dm_room _) = ok "!dm:example.org"
answers (power_levels _) = ok null
answers (get_user_profile _) = ok none
answers (download_matrix_media _) =
    ok (record { content_type = "image/png"; filename = "a.png"; size = 10 })
answers (get_user _) = ok none
answers (post_upload _ _) =
    ok (replied (object (member "content_uri" (string "mxc://example.org/2") end)))
answers (upload_media_for_ghost _ _) = ok "mxc://example.org/3"
answers (send_message_with_metadata _ _ _ _ _ _ _) = ok "$1"
answers (upload_media _) = ok "mxc://example.org/1"
answers (send_media_message _ _ _ _ _ _) = ok "$2"
answers (download_from_url _) =
    ok (record { content_type = "image/png"; filename = "a.png"; size = 10 })
answers (mark_approval _ _) = ok true
answers (get_room_state_event _ _) = ok (some "name")
answers (get_room_name _) = ok none
answers (get_room_topic _) = ok none
answers (ask_bridge_permission _ _) = ok none
answers _ = ok tt

abbrev pub env : Env
env = record { now = λ n. n; database = λ _. none; answer = λ _ r. answers r }

abbrev pub config : Config
config = record {
  domain = "example.org";
  homeserver_url = "https://example.org/";
  enable_self_service_bridging = true;
  room_count = some 2;
  room_count_text = "2";
  name_pattern = "[Slack] :guild :name";
  name_prefix = some "[bridge gone] ";
  topic_prefix = none;
  unset_room_alias = true;
  room_alias_prefix = "_slack_";
  backfill_enabled = true;
  backfill_max_messages = 100;
  username_pattern = ":username";
  disable_deletion_forwarding = false;
  disable_typing_notifications = false;
  disable_read_receipts = false;
  disable_join_leave_notifications = false;
  kick_for = 5000;
  sender_localpart = "_slack_bot";
}

abbrev pub empty : State
empty = start config 900

abbrev pub bridged : State
bridged = (bridge_matrix_room config "!r:example.org" "T1" "C1" env empty).1

abbrev pub event : String → MatrixEvent
event sender = record {
  event_id = some "$2";
  event_type = "m.room.redaction";
  room_id = "!r:example.org";
  sender = sender;
  state_key = none;
  content = some (object (member "redacts" (string "$1") end));
  timestamp = none;
}

abbrev pub linked : State
linked = record bridged {
  messages = record {
    rows =
        record {
          id = 1;
          slack_message_id = "171.1";
          matrix_room_id = "!r:example.org";
          matrix_event_id = "$1";
          created_at = 0;
          updated_at = 0;
        }
        ∷ [];
    next_id = 2;
  };
}

abbrev pub room : ℕ → String → RoomMapping
room id matrix_room_id = record {
  id = id;
  matrix_room_id = matrix_room_id;
  slack_channel_id = "C1";
  slack_channel_name = "general";
  slack_team_id = "T1";
  created_at = 0;
  updated_at = 0;
}

abbrev pub same : String → String
same text = text

abbrev pub context : SlackMessageContext
context = record {
  channel_id = "C1";
  source_message_id = some "171.2";
  sender_id = "U1";
  content = "good morning";
  attachments = "https://files.example.org/a.png" ∷ [];
  reply_to = none;
  edit_of = none;
  permissions = [];
  thread_ts = some "171.1";
  blocks = none;
  slack_attachments = none;
}

abbrev pub parsers : Parsers
parsers = record { format_for_matrix = same }
