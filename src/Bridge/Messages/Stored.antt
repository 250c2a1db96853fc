-- ===== src/Bridge/Messages/Stored.antt =====
-- What a Slack message that is forwarded leaves in the message table.
use matrix_bridge_slack.Prelude.{
  ℕ, ◌≤◌, ◌≡◌, refl, sym, ap, subst, ◌∙◌, String, false, ◌⊎◌, inl, inr, Option, none, some, [],
  is_some, arith, ◌==◌, if◌then◌else◌,
}
use mathlib.Core.List.{append-nil}
use matrix_bridge_slack.Command.{is_command}
use matrix_bridge_slack.Command.Slack as S
use matrix_bridge_slack.Db.{
  RoomMapping, MessageMapping, get_room_by_slack_channel, upsert_message_mapping,
}
use matrix_bridge_slack.Db.Messages.{IsValid, view, view-upsert}
use matrix_bridge_slack.MessageFlow.{apply_message_relation_mappings}
use matrix_bridge_slack.Bridge.{State, Env, Config, get_user}
use matrix_bridge_slack.Bridge.Monad.{M, tick, ◌>>=◌}
use matrix_bridge_slack.Bridge.Triple.{
  Post, Triple, Triple-pure, Triple-query, Triple-write, Triple-with_state, Triple-then,
}
use matrix_bridge_slack.Bridge.Rooms.{find_by_channel}
use matrix_bridge_slack.Bridge.Messages.Keeps as K
use matrix_bridge_slack.Bridge.Messages.Given.{
  Given, Unchanged, Before, keep, ticked, fail, Runs, Triple-Runs, Runs-then, Runs-pure, Sent,
  outbound_Sent,
}
use matrix_bridge_slack.Bridge.Messages.{
  SlackMessageContext, Parsers, handle_slack_command_outcome, prepare, remember_message, forward,
  handle_slack_message_with_context,
}

module _ (env : Env) (start : State) where
  -- the channel has no room, and no mapping changes; or Matrix gives an event of the room for a
  -- request of the run, and either the message has no id, and no mapping changes, or the id, and no
  -- other, maps to that event
  abbrev pub Stored : SlackMessageContext → Option RoomMapping → State → Type 0
  Stored ctx none u = u.messages ≡ start.messages
  Stored ctx (some mapping) u =
      (event : String) × (Given env start mapping.matrix_room_id event u
        × (((ctx.source_message_id ≡ none) × (u.messages ≡ start.messages))
            ⊎ ((id : String) × ((ctx.source_message_id ≡ some id)
                  × ((j : String)
                      → view u.messages j ≡ (
                          if id == j
                          then some (mapping.matrix_room_id, event)
                          else view start.messages j))))))

  later :
      (room event : String) (u w : State)
      → u.calls ≡ w.calls
      → u.clock ≤ w.clock
      → Given env start room event u
      → Given env start room event w
  later room event u w e c (before, (q, (after, (clock, (made, (gave, (low, high))))))) =
      (before, (q, (after, (clock, (sym e ∙ made, (gave, (low, omega (arith, high, c))))))))

  module _ (ctx : SlackMessageContext) (v : IsValid start.messages) where
    abbrev row : RoomMapping → String → String → ℕ → MessageMapping
    row mapping id event now = record {
      id = 0;
      slack_message_id = id;
      matrix_room_id = mapping.matrix_room_id;
      matrix_event_id = event;
      created_at = now;
      updated_at = now;
    }

    remember_message_lem :
        (mapping : RoomMapping) (o : Option String) (event : String)
        → ctx.source_message_id ≡ o
        → Triple
            (Sent env start mapping.matrix_room_id event)
            (remember_message o mapping.matrix_room_id event)
            (λ _. Stored ctx (some mapping))
            (Unchanged env start)
    remember_message_lem mapping none event e =
        Triple-pure tt λ u (b, g). (event, (g, inl (e, b.0)))
    remember_message_lem mapping (some id) event e =
        Triple-then _ _
          (Triple-with_state {Q = λ _. Sent env start mapping.matrix_room_id event} _ λ now u h. h)
          λ now.
            Triple-write _ tt
              (λ u (b, g). (
                event,
                (
                  later mapping.matrix_room_id event u
                      (tick (record u {
                        messages = upsert_message_mapping u.messages (row mapping id event now);
                      }))
                      refl (omega arith) g,
                  inr (
                    id,
                    (
                      e,
                      λ j.
                          subst
                            (λ x. view (upsert_message_mapping x (row mapping id event now)) j ≡ (
                              if id == j
                              then some (mapping.matrix_room_id, event)
                              else view start.messages j))
                            (sym b.0) (view-upsert start.messages (row mapping id event now) j v),
                    ),
                  ),
                ),
              ))
              (λ u (b, _). b.0)

    module _ (config : Config) (parsers : Parsers) (show : ℕ → String) where
      -- one query or request before the message is sent
      first :
          {A : Type 0} {R : Unit {0} → State → Type 0} (m : M A) (f : A → M Unit)
          → Triple (Before env start) m (λ _. Before env start) (Unchanged env start)
          → ((a : A) → Runs env start (Before env start) (f a) R)
          → Runs env start (Before env start) (m >>= f) R
      first m f h k = Runs-then env start m f (Triple-Runs env start m h) k

      forward_lem :
          (o : Option RoomMapping)
          → Runs env start
              (Before env start)
              (forward config parsers show ctx o)
              (λ _. Stored ctx o)
      forward_lem none = Runs-pure env start tt λ u h. h.0
      forward_lem (some mapping) =
          let B = Before env start in
          let U = Unchanged env start in
          let k = keep env start in
          let t = ticked env start in
          let f = fail env start in
          first _ _ (K.asked B U k t f (get_user ctx.sender_id)) λ user.
            first _ _ (K.register-Keeps B U k t f config ctx.sender_id user) λ _.
              first _ _ (K.lookup_relation-Keeps B U k t f (prepare parsers ctx).reply_to)
                λ reply_mapping.
                  first _ _ (K.lookup_relation-Keeps B U k t f (prepare parsers ctx).edit_of)
                    λ edit_mapping.
                      Runs-then env start _ _
                        (outbound_Sent env start mapping.matrix_room_id ctx.sender_id (
                          apply_message_relation_mappings (prepare parsers ctx) reply_mapping
                            edit_mapping))
                        λ event.
                          Triple-Runs env start _
                            (remember_message_lem mapping ctx.source_message_id event refl)

      -- the mapping that the channel had at the start
      abbrev Found : Option RoomMapping → State → Type 0
      Found o u = Before env start u × (o ≡ get_room_by_slack_channel start.rooms ctx.channel_id)

      found_lem : Runs env start (Before env start) (find_by_channel ctx.channel_id) Found
      found_lem = Triple-Runs env start _ (
          Triple-query _
            (λ u h.
              (ticked env start u h, ap (λ x. get_room_by_slack_channel x ctx.channel_id) h.1.0))
            (λ u h. h.0))

      branch :
          (o : Option RoomMapping)
          → is_command S.prefix ctx.content ≡ false
          → Runs env start
              (Found o)
              (if is_command S.prefix ctx.content
                then handle_slack_command_outcome show ctx o
                    (S.handle ctx.content (is_some o) ctx.permissions)
                else forward config parsers show ctx o)
              (λ _. Stored ctx (get_room_by_slack_channel start.rooms ctx.channel_id))
      branch o plain = record {
        run = λ u (b, e). rw plain (
            subst
              (λ x.
                Post (λ _. Stored ctx x) (Unchanged env start)
                  (forward config parsers show ctx o env u))
              e ((forward_lem o).run u b));
      }

begun : (env : Env) (s : State) → Before env s s
begun env s = (refl, (refl, (omega arith, ([], sym (append-nil s.calls)))))

-- For a Slack message that is no command, where the message table is valid: when
-- handle_slack_message_with_context returns and the channel has a room, this run made a request to
-- send a message or a file to that room that Matrix answered with an event, and either the message
-- has no id and the message table is as it was, or the message's id maps to the room and that
-- event and every other id to what it did. When it returns and the channel has no room, and when
-- it fails, the message table is as it was.
pub handle_slack_message_with_context-Stored :
    (config : Config) (parsers : Parsers) (show : ℕ → String) (ctx : SlackMessageContext)
    (env : Env) (s : State)
    → IsValid s.messages
    → is_command S.prefix ctx.content ≡ false
    → Post
        (λ _. Stored env s ctx (get_room_by_slack_channel s.rooms ctx.channel_id))
        (λ u. u.messages ≡ s.messages)
        (handle_slack_message_with_context config parsers show ctx env s)
unfolding handle_slack_message_with_context
handle_slack_message_with_context-Stored config parsers show ctx env s v plain =
    (Runs-then env s _ _ (found_lem env s ctx v config parsers show)
        λ o. branch env s ctx v config parsers show o plain).run
      s (begun env s)
