-- ===== src/Tests/Stores.antt =====
-- The cache, the tables, the blocker and the presence queue with a few entries.
use matrix_bridge_slack.Prelude.{ℕ, ◌≡◌, refl, String, false, none, some, [], ◌∷◌, ◌++◌, arith}
use matrix_bridge_slack.Prelude.Assoc.{string_eq}
use matrix_bridge_slack.Cache as C
use matrix_bridge_slack.Db.{
  RoomMapping, MessageMapping, Table, find, get_room_by_matrix_room, create_room_mapping,
}
use matrix_bridge_slack.Db.Rooms as R
use matrix_bridge_slack.Db.Messages as Q
use matrix_bridge_slack.Db.Messages.{target, view-delete_by_slack_message_id}
use matrix_bridge_slack.Blocker as B
use matrix_bridge_slack.Blocker.Laws.{
  start, next, paused_by, IsConsistent, Reach-IsConsistent, check_and_update_lem, pause_lost,
}
use matrix_bridge_slack.Presence as P
use matrix_bridge_slack.Presence.Queue as PQ
use matrix_bridge_slack.Presence.Queue.{Reach-IsValid, requeue-enqueue_user}

abbrev cache : C.TimedCache String String
cache = record { entries = ("a", record { value = "1"; inserted_at = 3 }) ∷ []; ttl = 10 }

abbrev room : String → String → RoomMapping
room matrix slack = record {
  id = 1;
  matrix_room_id = matrix;
  slack_channel_id = slack;
  slack_channel_name = "general";
  slack_team_id = "T1";
  created_at = 0;
  updated_at = 0;
}

abbrev rooms : Table RoomMapping
rooms = record { rows = room "!a" "C1" ∷ []; next_id = 2 }

rooms_IsValid : R.IsValid rooms
rooms_IsValid = ((omega arith, tt), (tt, tt), (tt, tt))

abbrev more_rooms : Table RoomMapping
more_rooms = record { rows = room "!a" "C1" ∷ record (room "!b" "C2") { id = 2 } ∷ []; next_id = 3 }

created : create_room_mapping rooms (room "!b" "C2") ≡ some more_rooms
unfolding create_room_mapping
created = refl

found : get_room_by_matrix_room rooms "!a" ≡ some (room "!a" "C1")
unfolding get_room_by_matrix_room find
found = refl

abbrev link : String → String → MessageMapping
link slack event = record {
  id = 1;
  slack_message_id = slack;
  matrix_room_id = "!a";
  matrix_event_id = event;
  created_at = 0;
  updated_at = 0;
}

abbrev messages : Table MessageMapping
messages = record { rows = link "171.1" "$1" ∷ []; next_id = 2 }

messages_IsValid : Q.IsValid messages
messages_IsValid = ((omega arith, tt), (tt, tt))

abbrev show : ℕ → String
show _ = "10"

abbrev blocker : B.BridgeBlocker
blocker = B.new (some 10) 0

Reach-IsConsistent_example : IsConsistent show (B.pause "maintenance" blocker)
Reach-IsConsistent_example = Reach-IsConsistent show (next start (paused_by "maintenance"))

check_and_update_lem_example :
    (B.check_and_update show 5 (some 11) (some 1) blocker).1 ≡ some B.limited
unfolding B.new
check_and_update_lem_example = check_and_update_lem show 5 11 1 blocker

pause_lost_example :
    B.is_blocked
      (B.check_and_update show 9
        (some 3)
        (some 1)
        (B.check_and_update show 5 (some 11) (some 1) (B.pause "maintenance" blocker)).0).0
    ≡ false
unfolding B.new
pause_lost_example = pause_lost show "maintenance" 5 9 11 3 1 1 blocker (omega arith) (omega arith)

abbrev presence : P.SlackPresenceState → P.SlackPresence
presence state = record { user_id = "U1"; username = none; state = state; activities = [] }

abbrev handler : P.PresenceHandler
handler = P.new none

Reach-IsValid_example : PQ.IsValid (P.enqueue_user (presence P.idle) handler)
Reach-IsValid_example = Reach-IsValid (PQ.next PQ.start (PQ.enqueued (presence P.idle)))

abbrev decision : P.PresenceDecision
decision = record { presence = P.unavailable; status_message = ""; should_drop = false }

requeue-enqueue_user_example :
    (P.requeue (presence P.idle) decision (P.enqueue_user (presence P.dnd) handler)).queue
    ≡ P.others "U1" handler.queue ++ presence P.idle ∷ []
unfolding P.new
requeue-enqueue_user_example =
    requeue-enqueue_user (presence P.idle) (presence P.dnd) decision handler refl refl refl

abbrev case : P.LetterCase
case = record { to_uppercase = λ _. "X"; to_lowercase = λ s. s }

abbrev matrix : P.MatrixPresenceTarget
matrix = record { set_presence = λ _ _ _. none; ensure_user_registered = λ _ _. none }
