-- ===== src/Bridge/Promises.antt =====
-- What the handlers of bridge.rs ensure of each run, in every environment: of a run that returns and
-- of one that an error stops.
use matrix_bridge_slack.Prelude.{ℕ, ◌+◌, ◌≤◌, ◌≡◌, refl, String, some, List, ◌++◌, map, length}
use matrix_bridge_slack.Db.{count_rooms}
use matrix_bridge_slack.Command.Slack.{ModerationAction}
use matrix_bridge_slack.Bridge.{State, Env, Config}
use matrix_bridge_slack.Bridge.Triple.{Post}
use matrix_bridge_slack.Bridge.Rooms.{
  bridge_matrix_room, request_bridge_matrix_room, unbridge_matrix_room, handle_slack_channel_delete,
  handle_matrix_encryption,
}
use matrix_bridge_slack.Bridge.Rooms.Coherent as C
use matrix_bridge_slack.Bridge.Rooms.Coherent.{Coherent, Unbridged}
use matrix_bridge_slack.Bridge.Rooms.Deleted.{Deleted, handle_slack_channel_delete_lem}
use matrix_bridge_slack.Bridge.Rooms.Limit as L
use matrix_bridge_slack.Bridge.Rooms.Created as N
use matrix_bridge_slack.Bridge.Rooms.Created.{Outcome}
use matrix_bridge_slack.Bridge.Matrix.{MatrixEvent, handle_matrix_redaction}
use matrix_bridge_slack.Bridge.Slack.{handle_slack_message_delete, moderate_rooms}
use matrix_bridge_slack.Bridge.Slack.Moderation.{moderations, request_for, moderate_rooms_lem}
use matrix_bridge_slack.Bridge.Forget.{
  Redacted, Forgotten, handle_matrix_redaction_lem, handle_slack_message_delete_lem,
}

-- Where limits.room_count is a limit and the table has at most that many rows, it still has at
-- most that many after bridge_matrix_room, whether it returns or fails.
pub bridge_matrix_room-count_rooms :
    (config : Config) (limit : ℕ) (room guild channel : String) (env : Env) (s : State)
    → config.room_count ≡ some limit
    → count_rooms s.rooms ≤ limit
    → Post
        (λ _ t. count_rooms t.rooms ≤ limit)
        (λ t. count_rooms t.rooms ≤ limit)
        (bridge_matrix_room config room guild channel env s)
bridge_matrix_room-count_rooms config limit room guild channel env s e h =
    (L.bridge_matrix_room-AtMost config room guild limit e channel).at env s h

-- Where limits.room_count is a limit and the table has at most that many rows, it still has at
-- most that many after request_bridge_matrix_room, whether it returns or fails.
pub request_bridge_matrix_room-count_rooms :
    (config : Config) (limit : ℕ) (room user guild channel : String) (env : Env) (s : State)
    → config.room_count ≡ some limit
    → count_rooms s.rooms ≤ limit
    → Post
        (λ _ t. count_rooms t.rooms ≤ limit)
        (λ t. count_rooms t.rooms ≤ limit)
        (request_bridge_matrix_room config room user guild channel env s)
request_bridge_matrix_room-count_rooms config limit room user guild channel env s e h =
    (L.request_bridge_matrix_room-AtMost config room guild limit e user channel).at env s h

-- When request_bridge_matrix_room returns, the room table is as it was, or the reply is "I have
-- bridged this room to your channel" and the table is the old one with a row for the room and some
-- channel, under the given team, inserted. When it fails, the room table is as it was.
pub request_bridge_matrix_room-Outcome :
    (config : Config) (room user guild channel : String) (env : Env) (s : State)
    → Post
        (Outcome s.rooms room guild)
        (λ t. t.rooms ≡ s.rooms)
        (request_bridge_matrix_room config room user guild channel env s)
request_bridge_matrix_room-Outcome config room user guild channel env s =
    (N.request_bridge_matrix_room-Outcome config s.rooms room guild user channel).at env s refl

-- From a coherent state, when unbridge_matrix_room returns, neither the table nor the cache, at
-- any time, has the room, and the state is coherent; when it fails, the state is coherent.
pub unbridge_matrix_room-Unbridged :
    (config : Config) (room : String) (env : Env) (s : State)
    → Coherent s
    → Post (λ _. Unbridged room) Coherent (unbridge_matrix_room config room env s)
unbridge_matrix_room-Unbridged config room env s h =
    (C.unbridge_matrix_room_lem config room).at env s h

-- From a coherent state, when handle_matrix_encryption returns, neither the table nor the cache,
-- at any time, has the room, and the state is coherent; when it fails, the state is coherent.
pub handle_matrix_encryption-Unbridged :
    (room : String) (env : Env) (s : State)
    → Coherent s
    → Post (λ _. Unbridged room) Coherent (handle_matrix_encryption room env s)
handle_matrix_encryption-Unbridged room env s h = (C.handle_matrix_encryption_lem room).at env s h

-- From a coherent state, when handle_slack_channel_delete returns, the table has no row for the
-- channel and the state is coherent; when it fails, the state is coherent.
pub handle_slack_channel_delete-Deleted :
    (config : Config) (channel : String) (env : Env) (s : State)
    → Coherent s
    → Post (λ _. Deleted channel) Coherent (handle_slack_channel_delete config channel env s)
handle_slack_channel_delete-Deleted config channel env s h =
    (handle_slack_channel_delete_lem channel config).at env s h

-- When handle_matrix_redaction returns, the message table is as it was, or the last request asked
-- Slack to delete the message of the redacted event's mapping and the table is the old one after
-- the deletion by that event. When it fails, the message table is as it was.
pub handle_matrix_redaction-Redacted :
    (config : Config) (event : MatrixEvent) (env : Env) (s : State)
    → Post
        (λ _. Redacted s.messages event)
        (λ t. t.messages ≡ s.messages)
        (handle_matrix_redaction config event env s)
handle_matrix_redaction-Redacted config event env s =
    (handle_matrix_redaction_lem s.messages config event).at env s refl

-- When handle_slack_message_delete returns, the id had no mapping and the message table is as it
-- was, or the last request asked Matrix to redact the mapping's event and the id, and no other,
-- has lost its mapping. When it fails, the message table is as it was.
pub handle_slack_message_delete-Forgotten :
    (slack_id : String) (env : Env) (s : State)
    → Post
        (λ _. Forgotten s.messages slack_id)
        (λ t. t.messages ≡ s.messages)
        (handle_slack_message_delete slack_id env s)
handle_slack_message_delete-Forgotten slack_id env s =
    (handle_slack_message_delete_lem s.messages slack_id).at env s refl

-- The moderation loop never fails. It adds one moderation request for each room to the log, in the
-- order of the rooms, and the sum of its two counts grows by the number of rooms.
pub moderate_rooms-moderations :
    (action : ModerationAction) (user channel sender : String) (rooms : List String)
    (success failed : ℕ) (env : Env) (s : State)
    → Post
        (λ counts t.
          (moderations t.calls
            ≡ moderations s.calls ++ map (request_for action user channel sender) rooms)
          × (counts.0 + counts.1 ≡ success + failed + length rooms))
        (λ _. ⊥)
        (moderate_rooms action user channel sender rooms success failed env s)
moderate_rooms-moderations action user channel sender rooms success failed env s =
    (moderate_rooms_lem action user channel sender rooms success failed (moderations s.calls)).at
      env s refl
