-- ===== src/Bridge/Outgoing/Coherent.antt =====
-- Messages and commands in either direction, the room table and the cache.
use matrix_bridge_slack.Prelude.{
  ℕ, ◌≡◌, String, Option, none, some, [], ◌∷◌, is_some, List, Bool, true, false,
}
use matrix_bridge_slack.Prelude.Assoc.{string_eq}
use matrix_bridge_slack.Db.{RoomMapping}
use matrix_bridge_slack.Bridge.{
  Request, State, Config, send_notice, slack_message, power_levels, mark_approval, get_user,
}
use matrix_bridge_slack.Bridge.Monad.{call, ◌>>=◌, M, logged}
use matrix_bridge_slack.Bridge.Triple.{
  Triple, Triple-pure, Triple-query, Triple-write, Triple-with_state, Triple-if, Triple-weaken,
  Triple-then, Triple-bind,
}
use matrix_bridge_slack.Bridge.Rooms.Coherent.{
  Coherent, call-Keeps, attempt-Keeps, unbridge_matrix_room_lem,
}
use matrix_bridge_slack.Bridge.Rooms.Limit.{
  Coherent-stable, request_bridge_matrix_room-Coherent, request_bridge_slack_channel-Coherent,
}
use matrix_bridge_slack.Bridge.Matrix.{for_some, MatrixEvent, is_namespaced_user}
use matrix_bridge_slack.Bridge.Rooms.Deleted.{Found, find_by_channel_lem}
use matrix_bridge_slack.Command.{is_command}
use matrix_bridge_slack.Command.Slack as S
use matrix_bridge_slack.Command.Matrix as C
use matrix_bridge_slack.MessageFlow.{
  MatrixInboundMessage, extract_plain_text, parse_matrix_event, matrix_to_slack,
  apply_message_relation_mappings,
}
use matrix_bridge_slack.Bridge.Slack.{
  moderate, moderate_rooms, notify, moderation_request, reason, moderation_notice, moderation_reply,
  target_rooms, is_ok,
}
use matrix_bridge_slack.Bridge.Slack.Events.{unbridge_channel_lem}
use matrix_bridge_slack.Bridge.Outgoing.{
  download_matrix_attachments, send_to_slack_with_attachments, check_permission, level_granted,
  handle_matrix_command_outcome, handler, run_command, forward, body_of, handle_matrix_message,
}
use matrix_bridge_slack.Bridge.Outgoing.Addressed.{writes_only, download-Keeps, send_to_slack-Keeps}
use matrix_bridge_slack.Bridge.Messages as N
use matrix_bridge_slack.Bridge.Messages.{
  SlackMessageContext, Parsers, answer_approval, approval_reply, handle_slack_command_outcome,
  remember_message, handle_slack_message_with_context, prepare,
}
use matrix_bridge_slack.Bridge.Messages.Keeps as K

pub pass : (s : State) → Coherent s → Coherent s
pass s h = h

pub asked : (q : Request) → Triple Coherent (call q) (λ _. Coherent) Coherent
asked q = call-Keeps Coherent Coherent Coherent-stable pass q

-- a run that ends with more than coherence
weakly :
    {A : Type 0} (Q : A → State → Type 0) (m : M A)
    → Triple Coherent m Q Coherent
    → ((a : A) (s : State) → Q a s → Coherent s)
    → Triple Coherent m (λ _. Coherent) Coherent
weakly Q m h q = Triple-weaken m h pass q pass

outcome-Coherent :
    (config : Config) (o : C.MatrixCommandOutcome) (event : MatrixEvent)
    → Triple Coherent (handle_matrix_command_outcome config o event) (λ _. Coherent) Coherent
unfolding handle_matrix_command_outcome
outcome-Coherent config C.ignored event = Triple-pure tt pass
outcome-Coherent config (C.reply text) event = asked (send_notice event.room_id text)
outcome-Coherent config (C.bridge_requested guild channel) event =
    Triple-then _ _
      (request_bridge_matrix_room-Coherent config event.room_id guild event.sender channel)
      λ text. asked (send_notice event.room_id text)
outcome-Coherent config C.unbridge_requested event =
    Triple-then _ _ (weakly _ _ (unbridge_matrix_room_lem config event.room_id) λ a s q. q.0)
      λ text. asked (send_notice event.room_id text)

module _ (config : Config) (strip format : String → String) (event : MatrixEvent) where
  run_command-Coherent :
      (body : String) (o : Option RoomMapping)
      → Triple Coherent (run_command config strip format event body o) (λ _. Coherent) Coherent
  unfolding check_permission
  run_command-Coherent body o =
      Triple-then _ _
        (Triple-then _ _
          (attempt-Keeps Coherent Coherent Coherent-stable (power_levels event.room_id))
          λ pl. Triple-pure (level_granted 50 event.sender pl) pass)
        λ granted.
          outcome-Coherent config
            (C.handle (handler config strip format) body (is_some o) (λ _. C.ok granted)) event

  kept :
      (channel : String) (q : Request)
      → writes_only channel q ≡ true
      → (s : State) → Coherent s
      → Coherent (logged q s)
  kept channel q w s h = h

  for_message :
      (channel : String) (o : Option MatrixInboundMessage)
      → Triple Coherent
          (for_some o λ message.
            download_matrix_attachments (matrix_to_slack format message).attachments
            >>= λ attachments.
                send_to_slack_with_attachments config channel
                  (matrix_to_slack format message)
                  event.sender
                  attachments)
          (λ _. Coherent)
          Coherent
  for_message channel none = Triple-pure tt pass
  for_message channel (some message) =
      Triple-then _ _
        (download-Keeps channel Coherent (kept channel)
          (matrix_to_slack format message).attachments)
        λ attachments.
          send_to_slack-Keeps channel Coherent (kept channel) config
            (matrix_to_slack format message) event.sender attachments

  forward-Coherent :
      (o : Option RoomMapping)
      → Triple Coherent (forward config strip format event o) (λ _. Coherent) Coherent
  forward-Coherent none = Triple-pure tt pass
  forward-Coherent (some mapping) =
      for_message mapping.slack_channel_id (parse_matrix_event (extract_plain_text strip) event)

  pub handle_matrix_message-Coherent :
      Triple Coherent (handle_matrix_message config strip format event) (λ _. Coherent) Coherent
  unfolding handle_matrix_message
  handle_matrix_message-Coherent =
      Triple-if (is_namespaced_user event.sender) _ _ (λ _. Triple-pure tt pass)
        λ _. Triple-then _ _ (Triple-query {Q = λ _. Coherent} _ pass pass) λ o.
          Triple-if
            (is_command (handler config strip format).prefix (body_of config strip format event)) _
            _ (λ _. run_command-Coherent (body_of config strip format event) o)
            (λ _. forward-Coherent o)

-- the Slack side
module _ (action : S.ModerationAction) (user channel sender : String) where
  notify-Coherent :
      (room : String) (b : Bool)
      → Triple Coherent (notify action user channel sender room b) (λ _. Coherent) Coherent
  notify-Coherent room false = Triple-pure tt pass
  notify-Coherent room true =
      Triple-then _ _
        (attempt-Keeps Coherent Coherent Coherent-stable
          (send_notice room (moderation_notice action user channel sender)))
        λ _. Triple-pure tt pass

  moderate_rooms-Coherent :
      (rooms : List String) (a b : ℕ)
      → Triple Coherent
          (moderate_rooms action user channel sender rooms a b)
          (λ _. Coherent)
          Coherent
  unfolding moderate_rooms
  moderate_rooms-Coherent [] a b = Triple-pure (a, b) pass
  moderate_rooms-Coherent (room ∷ rooms) a b =
      Triple-then _ _
        (attempt-Keeps Coherent Coherent Coherent-stable
          (moderation_request action room user (reason action user channel sender)))
        λ result.
          Triple-then _ _ (notify-Coherent room (is_ok result))
            λ _. moderate_rooms-Coherent rooms _ _

  moderate-Coherent :
      (show : ℕ → String) (o : Option RoomMapping)
      → Triple Coherent (moderate action user channel sender show o) (λ _. Coherent) Coherent
  moderate-Coherent show none =
      asked (slack_message channel "This channel is not bridged to a plumbed matrix room")
  moderate-Coherent show (some mapping) =
      Triple-then _ _ (Triple-query {Q = λ _. Coherent} _ pass pass) λ guild_rooms.
        Triple-then _ _ (moderate_rooms-Coherent (target_rooms mapping guild_rooms) 0 0) λ counts.
          asked (slack_message channel (moderation_reply action user channel sender show counts))

answer-Coherent :
    (channel : String) (allow : Bool)
    → Triple Coherent (answer_approval channel allow) (λ _. Coherent) Coherent
answer-Coherent channel allow =
    Triple-then _ _ (asked (mark_approval channel allow))
      λ applied. asked (slack_message channel (approval_reply allow applied))

slack_outcome-Coherent :
    (show : ℕ → String) (ctx : SlackMessageContext) (o : Option RoomMapping)
    (outcome : S.SlackCommandOutcome)
    → Triple
        (Found ctx.channel_id o)
        (handle_slack_command_outcome show ctx o outcome)
        (λ _. Coherent)
        Coherent
unfolding handle_slack_command_outcome
slack_outcome-Coherent show ctx o S.ignored = Triple-pure tt λ s h. h.0
slack_outcome-Coherent show ctx o (S.reply text) =
    Triple-weaken _ (asked (slack_message ctx.channel_id text)) (λ s h. h.0) (λ a s h. h) pass
slack_outcome-Coherent show ctx o S.approve_requested =
    Triple-weaken _ (answer-Coherent ctx.channel_id true) (λ s h. h.0) (λ a s h. h) pass
slack_outcome-Coherent show ctx o S.deny_requested =
    Triple-weaken _ (answer-Coherent ctx.channel_id false) (λ s h. h.0) (λ a s h. h) pass
slack_outcome-Coherent show ctx o (S.moderation_requested action user) =
    Triple-weaken _ (moderate-Coherent action user ctx.channel_id ctx.sender_id show o) (λ s h. h.0)
      (λ a s h. h) pass
slack_outcome-Coherent show ctx o S.unbridge_requested =
    Triple-weaken _ (unbridge_channel_lem ctx.channel_id ctx.channel_id o) (λ s h. h) (λ a s q. q.0)
      pass
slack_outcome-Coherent show ctx o (S.bridge_requested guild channel) =
    Triple-weaken _
      (Triple-then _ _ (request_bridge_slack_channel-Coherent guild channel)
        λ text. asked (slack_message ctx.channel_id text))
      (λ s h. h.0) (λ a s h. h) pass

pub remember_message-Coherent :
    (o : Option String) (room event : String)
    → Triple Coherent (remember_message o room event) (λ _. Coherent) Coherent
remember_message-Coherent none room event = Triple-pure tt pass
remember_message-Coherent (some id) room event =
    Triple-then _ _ (Triple-with_state {Q = λ _. Coherent} _ λ now s h. h)
      λ now. Triple-write _ tt pass pass

slack_forward-Coherent :
    (config : Config) (parsers : Parsers) (show : ℕ → String) (ctx : SlackMessageContext)
    (o : Option RoomMapping)
    → Triple Coherent (N.forward config parsers show ctx o) (λ _. Coherent) Coherent
slack_forward-Coherent config parsers show ctx none = Triple-pure tt pass
slack_forward-Coherent config parsers show ctx (some mapping) =
    Triple-then _ _ (asked (get_user ctx.sender_id)) λ user.
      Triple-then _ _
        (K.register-Keeps Coherent Coherent (λ q. pass) pass pass config ctx.sender_id user)
        λ _.
          Triple-then _ _
            (K.lookup_relation-Keeps Coherent Coherent (λ q. pass) pass pass
              (prepare parsers ctx).reply_to)
            λ reply_mapping.
              Triple-then _ _
                (K.lookup_relation-Keeps Coherent Coherent (λ q. pass) pass pass
                  (prepare parsers ctx).edit_of)
                λ edit_mapping.
                  Triple-then _ _
                    (K.send_outbound-Keeps Coherent Coherent (λ q. pass) pass pass
                      mapping.matrix_room_id ctx.sender_id
                      (apply_message_relation_mappings (prepare parsers ctx) reply_mapping
                        edit_mapping))
                    λ event.
                      remember_message-Coherent ctx.source_message_id mapping.matrix_room_id event

pub handle_slack_message_with_context-Coherent :
    (config : Config) (parsers : Parsers) (show : ℕ → String) (ctx : SlackMessageContext)
    → Triple Coherent
        (handle_slack_message_with_context config parsers show ctx)
        (λ _. Coherent)
        Coherent
unfolding handle_slack_message_with_context
handle_slack_message_with_context-Coherent config parsers show ctx =
    Triple-bind _ _ (find_by_channel_lem ctx.channel_id) λ o.
      Triple-if (is_command S.prefix ctx.content) _ _ (λ _. slack_outcome-Coherent show ctx o _)
        (λ _.
          Triple-weaken _ (slack_forward-Coherent config parsers show ctx o) (λ s h. h.0)
            (λ a s h. h) pass)
