-- ===== src/Bridge/Matrix/Events.antt =====
-- The handlers of Matrix events, the tables and the cache.
use matrix_bridge_slack.Prelude.{refl, String, Option, none, some, unwrap_or}
use matrix_bridge_slack.Prelude.Assoc.{string_eq}
use matrix_bridge_slack.Db.{RoomMapping, MessageMapping}
use matrix_bridge_slack.Bridge.{
  Request, Result, ok, err, State, Config, delete_message, rename_conversation,
  set_conversation_topic, add_reaction,
}
use matrix_bridge_slack.Bridge.Monad.{M, tick, pure, attempt, ◌>>=◌}
use matrix_bridge_slack.Bridge.Triple.{
  Triple, Triple-pure, Triple-query, Triple-write, Triple-if, Triple-weaken, Triple-then,
  Triple-bind,
}
use matrix_bridge_slack.Bridge.Rooms.{get_room_mapping_cached}
use matrix_bridge_slack.Bridge.Rooms.Coherent.{Coherent, attempt-Keeps, get_room_mapping_cached_lem}
use matrix_bridge_slack.Bridge.Rooms.Rule.{Stable}
use matrix_bridge_slack.Text.{is_blank}
use matrix_bridge_slack.Bridge.Rooms.Limit.{Coherent-stable}
use matrix_bridge_slack.Bridge.Matrix.{
  MatrixEvent, unless_ghost, for_some, content_str, handle_matrix_room_name,
  handle_matrix_room_topic, message_by_event, after_delete, redact, redacted_event,
  handle_matrix_redaction, react, relates_to_str, handle_matrix_reaction, is_namespaced_user,
  trim_start_colons, trim_end_colons,
}

-- a property that the events cannot break: `P` reads the rooms and the cache
module _ (P E : State → Type 0) (keep : Stable P) (fail : (s : State) → P s → E s) where
  pub for_some-Keeps :
      {A : Type 0} (o : Option A) (f : A → M Unit)
      → ((a : A) → Triple P (f a) (λ _. P) E)
      → Triple P (for_some o f) (λ _. P) E
  for_some-Keeps none f h = Triple-pure tt λ s p. p
  for_some-Keeps (some a) f h = h a

  pub attempt_then_done : (r : Request) → Triple P (attempt r >>= λ _. pure tt) (λ _. P) E
  attempt_then_done r = Triple-then _ _ (attempt-Keeps P E keep r) λ _. Triple-pure tt λ s p. p

  pub message_by_event-Keeps : (event_id : String) → Triple P (message_by_event event_id) (λ _. P) E
  message_by_event-Keeps event_id =
      Triple-query _ (λ s p. keep s (tick s) refl refl p)
        (λ s p. fail (tick s) (keep s (tick s) refl refl p))

  pub unless_ghost-Keeps :
      (event : MatrixEvent) (m : M Unit)
      → Triple P m (λ _. P) E
      → Triple P (unless_ghost event m) (λ _. P) E
  unless_ghost-Keeps event m h =
      Triple-if (is_namespaced_user event.sender) _ _ (λ _. Triple-pure tt λ s p. p) (λ _. h)

-- after a cached read, the rest keeps `Coherent`
pub read_first :
    (room : String) (f : Option RoomMapping → M Unit)
    → ((o : Option RoomMapping) → Triple Coherent (f o) (λ _. Coherent) Coherent)
    → Triple Coherent (get_room_mapping_cached room >>= f) (λ _. Coherent) Coherent
read_first room f h =
    Triple-bind _ _ (get_room_mapping_cached_lem room)
      λ o. Triple-weaken (f o) (h o) (λ s r. r.0) (λ a s q. q) (λ s e. e)

pub id_fail : (s : State) → Coherent s → Coherent s
id_fail s h = h

pub handle_matrix_room_name-Coherent :
    (event : MatrixEvent) → Triple Coherent (handle_matrix_room_name event) (λ _. Coherent) Coherent
unfolding handle_matrix_room_name
handle_matrix_room_name-Coherent event =
    unless_ghost-Keeps Coherent Coherent Coherent-stable id_fail event _ (
      read_first event.room_id _ λ o.
        for_some-Keeps Coherent Coherent Coherent-stable id_fail o _ λ mapping.
          Triple-if (is_blank (unwrap_or (content_str event "name") "")) _ _
            (λ _. Triple-pure tt λ s p. p)
            (λ _. attempt_then_done Coherent Coherent Coherent-stable id_fail (
              rename_conversation mapping.slack_channel_id
                (unwrap_or (content_str event "name") ""))))

pub handle_matrix_room_topic-Coherent :
    (event : MatrixEvent)
    → Triple Coherent (handle_matrix_room_topic event) (λ _. Coherent) Coherent
unfolding handle_matrix_room_topic
handle_matrix_room_topic-Coherent event =
    unless_ghost-Keeps Coherent Coherent Coherent-stable id_fail event _ (
      read_first event.room_id _ λ o.
        for_some-Keeps Coherent Coherent Coherent-stable id_fail o _ λ mapping.
          attempt_then_done Coherent Coherent Coherent-stable id_fail (
            set_conversation_topic mapping.slack_channel_id
              (unwrap_or (content_str event "topic") "")))

react-Coherent :
    (channel key : String) (o : Option MessageMapping)
    → Triple Coherent (react channel key o) (λ _. Coherent) Coherent
react-Coherent channel key none = Triple-pure tt λ s p. p
react-Coherent channel key (some link) =
    attempt_then_done Coherent Coherent Coherent-stable id_fail
      (add_reaction channel link.slack_message_id (trim_end_colons (trim_start_colons key)))

pub handle_matrix_reaction-Coherent :
    (event : MatrixEvent) → Triple Coherent (handle_matrix_reaction event) (λ _. Coherent) Coherent
unfolding handle_matrix_reaction
handle_matrix_reaction-Coherent event =
    unless_ghost-Keeps Coherent Coherent Coherent-stable id_fail event _ (
      read_first event.room_id _ λ o.
        for_some-Keeps Coherent Coherent Coherent-stable id_fail o _ λ mapping.
          for_some-Keeps Coherent Coherent Coherent-stable id_fail (relates_to_str event "event_id")
            _
            λ target.
              for_some-Keeps Coherent Coherent Coherent-stable id_fail (relates_to_str event "key")
                _
                λ key.
                  Triple-then _ _
                    (message_by_event-Keeps Coherent Coherent Coherent-stable id_fail target)
                    (react-Coherent mapping.slack_channel_id key))

after_delete-Coherent :
    (event_id : String) (r : Result (Unit {0}))
    → Triple Coherent (after_delete event_id r) (λ _. Coherent) Coherent
after_delete-Coherent event_id (ok _) = Triple-write _ tt (λ s p. p) (λ s p. p)
after_delete-Coherent event_id (err _) = Triple-pure tt λ s p. p

redact-Coherent :
    (channel event_id : String) (o : Option MessageMapping)
    → Triple Coherent (redact channel event_id o) (λ _. Coherent) Coherent
redact-Coherent channel event_id none = Triple-pure tt λ s p. p
redact-Coherent channel event_id (some link) =
    Triple-then _ _
      (attempt-Keeps Coherent Coherent Coherent-stable
        (delete_message channel link.slack_message_id))
      (after_delete-Coherent event_id)

pub handle_matrix_redaction-Coherent :
    (config : Config) (event : MatrixEvent)
    → Triple Coherent (handle_matrix_redaction config event) (λ _. Coherent) Coherent
unfolding handle_matrix_redaction
handle_matrix_redaction-Coherent config event =
    unless_ghost-Keeps Coherent Coherent Coherent-stable id_fail event _ (
      Triple-if config.disable_deletion_forwarding _ _ (λ _. Triple-pure tt λ s p. p)
        (λ _. read_first event.room_id _ λ o.
          for_some-Keeps Coherent Coherent Coherent-stable id_fail o _ λ mapping.
            for_some-Keeps Coherent Coherent Coherent-stable id_fail (redacted_event event) _
              λ target.
                Triple-then _ _
                  (message_by_event-Keeps Coherent Coherent Coherent-stable id_fail target)
                  (redact-Coherent mapping.slack_channel_id target)))
