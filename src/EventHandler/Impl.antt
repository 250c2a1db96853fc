-- ===== src/EventHandler/Impl.antt =====
-- matrix/event_handler.rs: MatrixEventHandlerImpl hands every event to BridgeCore; the dispatch
-- and the cache.
use matrix_bridge_slack.Prelude.{String, Bool, not, ◌==◌, if◌then◌else◌}
use matrix_bridge_slack.Json.{Integer}
use matrix_bridge_slack.Bridge.{Config}
use matrix_bridge_slack.Bridge.Monad.{M, pure}
use matrix_bridge_slack.Bridge.Triple.{
  Triple, Triple-pure, Triple-with_state, Triple-if, Triple-then, Triple-weaken,
}
use matrix_bridge_slack.Bridge.Rooms.{handle_matrix_encryption}
use matrix_bridge_slack.Bridge.Rooms.Coherent.{Coherent, handle_matrix_encryption_lem}
use matrix_bridge_slack.Bridge.Matrix.{
  MatrixEvent, handle_matrix_room_name, handle_matrix_room_topic, handle_matrix_redaction,
  handle_matrix_reaction,
}
use matrix_bridge_slack.Bridge.Matrix.Events.{
  handle_matrix_room_name-Coherent, handle_matrix_room_topic-Coherent,
  handle_matrix_redaction-Coherent, handle_matrix_reaction-Coherent,
}
use matrix_bridge_slack.Bridge.Outgoing.{handle_matrix_message}
use matrix_bridge_slack.Bridge.Outgoing.Coherent.{handle_matrix_message-Coherent}
use matrix_bridge_slack.Bridge.Members.{
  handle_matrix_member, handle_matrix_power_levels, handle_matrix_typing, handle_matrix_receipt,
}
use matrix_bridge_slack.Bridge.Members.Coherent.{
  handle_matrix_member-Coherent, handle_matrix_power_levels-Coherent, handle_matrix_typing-Coherent,
  handle_matrix_receipt-Coherent,
}
use matrix_bridge_slack.EventHandler.{MatrixEventHandler, dispatch, process_event}

-- `if let Some(bridge) = &self.bridge`
abbrev when_bound : Bool → M Unit → M Unit
when_bound bound m = if bound then m else pure tt

module _ (config : Config) (strip format : String → String) (show : Integer → String) where
  abbrev pub handle_matrix_sticker : MatrixEvent → M Unit
  handle_matrix_sticker event = handle_matrix_message config strip format event

  -- `bound` says whether set_bridge has been called
  abbrev pub handler_impl : Bool → MatrixEventHandler
  handler_impl bound = record {
    handle_room_message =
        λ event. when_bound bound (handle_matrix_message config strip format event);
    handle_room_member = λ event. when_bound bound (handle_matrix_member config event);
    handle_presence = λ event. pure tt;
    handle_room_encryption = λ event. when_bound bound (handle_matrix_encryption event.room_id);
    handle_room_name = λ event. when_bound bound (handle_matrix_room_name event);
    handle_room_topic = λ event. when_bound bound (handle_matrix_room_topic event);
    handle_room_power_levels =
        λ event. when_bound bound (handle_matrix_power_levels config show event);
    handle_room_redaction = λ event. when_bound bound (handle_matrix_redaction config event);
    handle_reaction = λ event. when_bound bound (handle_matrix_reaction event);
    handle_typing = λ event. when_bound bound (handle_matrix_typing config event);
    handle_receipt = λ event. when_bound bound (handle_matrix_receipt config event);
    handle_sticker = λ event. when_bound bound (handle_matrix_sticker event);
  }

abbrev Keeps : {A : Type 0} → M A → Type 0
Keeps m = Triple Coherent m (λ _. Coherent) Coherent

done : Keeps (pure tt)
done = Triple-pure tt λ s h. h

when_bound-Coherent : (bound : Bool) (m : M Unit) → Keeps m → Keeps (when_bound bound m)
when_bound-Coherent bound m h = Triple-if bound m (pure tt) (λ _. h) (λ _. done)

choose : (b : Bool) (m n : M Unit) → Keeps m → Keeps n → Keeps (if b then m else n)
choose b m n hm hn = Triple-if b m n (λ _. hm) (λ _. hn)

module _ (config : Config) (strip format : String → String) (show : Integer → String) (bound : Bool)
    (event : MatrixEvent) where
  abbrev h : MatrixEventHandler
  h = handler_impl config strip format show bound

  encryption : Keeps (handle_matrix_encryption event.room_id)
  encryption =
      Triple-weaken _ (handle_matrix_encryption_lem event.room_id) (λ s p. p) (λ a s q. q.0)
        (λ s e. e)

  -- one type of event
  route :
      (kind name : String) (m n : M Unit)
      → Keeps m
      → Keeps n
      → Keeps (if kind == name then when_bound bound m else n)
  route kind name m n hm hn = choose (kind == name) _ _ (when_bound-Coherent bound m hm) hn

  dispatch-Coherent : (kind : String) → Keeps (dispatch h event kind)
  dispatch-Coherent kind =
      let message = handle_matrix_message-Coherent config strip format event in
      let sticker = route kind "m.sticker" _ _ message done in
      let receipt =
        route kind "m.receipt" _ _ (handle_matrix_receipt-Coherent config event) sticker in
      let typing = route kind "m.typing" _ _ (handle_matrix_typing-Coherent config event) receipt in
      let reaction = route kind "m.reaction" _ _ (handle_matrix_reaction-Coherent event) typing in
      let redaction =
        route kind "m.room.redaction" _ _ (handle_matrix_redaction-Coherent config event)
          reaction in
      let levels =
        route kind "m.room.power_levels" _ _ (handle_matrix_power_levels-Coherent config show event)
          redaction in
      let topic = route kind "m.room.topic" _ _ (handle_matrix_room_topic-Coherent event) levels in
      let name = route kind "m.room.name" _ _ (handle_matrix_room_name-Coherent event) topic in
      let encrypted = route kind "m.room.encryption" _ _ encryption name in
      let presence = choose (kind == "m.presence") _ _ done encrypted in
      let membership =
        route kind "m.room.member" _ _ (handle_matrix_member-Coherent config event) presence in
      route kind "m.room.message" _ _ message membership

  pub process_event-Coherent :
      (limit : Integer)
      → Keeps (process_event (record { event_handler = h; age_limit_ms = limit }) event)
  unfolding process_event
  process_event-Coherent limit =
      Triple-then _ _ (Triple-with_state _ (λ now s p. p))
        λ recent. choose (not recent) _ _ done (dispatch-Coherent event.event_type)
