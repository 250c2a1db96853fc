-- ===== src/Bridge/Forget.antt =====
-- Deletions in either direction, and the message mappings that go with them.
use matrix_bridge_slack.Prelude.{
  ℕ, ◌≡◌, refl, sym, ap, subst, String, Option, none, some, List, [], ◌∷◌, ◌==◌, if◌then◌else◌, inl,
  inr, ◌⊎◌, ◌++◌,
}
use matrix_bridge_slack.Prelude.Assoc.{string_eq}
use matrix_bridge_slack.Db.{
  RoomMapping, Table, MessageMapping, get_by_matrix_event_id, delete_by_matrix_event_id,
  get_by_slack_message_id, delete_by_slack_message_id,
}
use matrix_bridge_slack.Bridge.{
  Request, Result, ok, err, State, Config, delete_message, redact_message,
}
use matrix_bridge_slack.Bridge.Monad.{attempt, ◌>>=◌}
use matrix_bridge_slack.Bridge.Triple.{
  Triple, Triple-pure, Triple-query, Triple-write, Triple-with_state, Triple-if, Triple-then,
  Triple-bind, Triple-call, Triple-attempt,
}
use matrix_bridge_slack.Bridge.Rooms.{remember, or_load, get_room_mapping_cached}
use matrix_bridge_slack.Bridge.Matrix.{
  MatrixEvent, for_some, message_by_event, after_delete, redact, redacted_event,
  handle_matrix_redaction, is_namespaced_user,
}
use matrix_bridge_slack.Db.Messages.{view, view-delete_by_slack_message_id}
use matrix_bridge_slack.Bridge.Slack.{
  build_slack_delete_redaction_request, redact_and_forget, handle_slack_message_delete,
}

-- the last request
abbrev pub Asked : Request → State → Type 0
Asked r s = (before : List Request) × (s.calls ≡ before ++ r ∷ [])

module _ (t : Table MessageMapping) where
  abbrev pub Same : State → Type 0
  Same s = s.messages ≡ t

  -- nothing was deleted, or the mapping of the event that is redacted, once Slack was asked to delete its message
  abbrev pub Redacted : MatrixEvent → State → Type 0
  Redacted event s =
      Same s
      ⊎ ((event_id : String) × (link : MessageMapping) × (channel : String) × (redacted_event event
            ≡ some event_id)
          × (get_by_matrix_event_id t event_id ≡ some link)
          × Asked (delete_message channel link.slack_message_id) s
          × (s.messages ≡ delete_by_matrix_event_id t event_id))

  Same-attempt : (r : Request) → Triple Same (attempt r) (λ _ s. Same s × Asked r s) Same
  Same-attempt r = Triple-attempt r λ a s h. (h, (s.calls, refl))

  after_delete_lem :
      (event : MatrixEvent) (event_id channel : String) (link : MessageMapping)
      (r : Result (Unit {0}))
      → redacted_event event ≡ some event_id
      → get_by_matrix_event_id t event_id ≡ some link
      → Triple
          (λ s. Same s × Asked (delete_message channel link.slack_message_id) s)
          (after_delete event_id r)
          (λ _. Redacted event)
          Same
  after_delete_lem event event_id channel link (err _) e f = Triple-pure tt λ s h. inl h.0
  after_delete_lem event event_id channel link (ok _) e f =
      Triple-write _ tt
        (λ s (h, asked).
          inr (
            event_id,
            link,
            channel,
            e,
            f,
            asked,
            ap (λ x. delete_by_matrix_event_id x event_id) h,
          ))
        (λ s h. h.0)

  redact_lem :
      (event : MatrixEvent) (event_id channel : String) (o : Option MessageMapping)
      → redacted_event event ≡ some event_id
      → Triple
          (λ s. Same s × (get_by_matrix_event_id t event_id ≡ o))
          (redact channel event_id o)
          (λ _. Redacted event)
          Same
  redact_lem event event_id channel none e = Triple-pure tt λ s h. inl h.0
  redact_lem event event_id channel (some link) e = record {
    at = λ env s (h, f).
        (Triple-bind _ _ (Same-attempt (delete_message channel link.slack_message_id))
            λ r. after_delete_lem event event_id channel link r e f).at
          env s h;
  }

  redact_for :
      (event : MatrixEvent) (channel event_id : String)
      → redacted_event event ≡ some event_id
      → Triple Same
          (message_by_event event_id >>= redact channel event_id)
          (λ _. Redacted event)
          Same
  redact_for event channel event_id e =
      Triple-bind {Q = λ o s. Same s × (get_by_matrix_event_id t event_id ≡ o)} _ _
        (Triple-query _ (λ s h. (h, ap (λ x. get_by_matrix_event_id x event_id) (sym h)))
          (λ s h. h))
        (λ o. redact_lem event event_id channel o e)

  for_target :
      (event : MatrixEvent) (channel : String) (o : Option String)
      → redacted_event event ≡ o
      → Triple Same
          (for_some o λ event_id. message_by_event event_id >>= redact channel event_id)
          (λ _. Redacted event)
          Same
  for_target event channel none e = Triple-pure tt λ s h. inl h
  for_target event channel (some event_id) e = redact_for event channel event_id e

  for_mapping :
      (event : MatrixEvent) (o : Option RoomMapping)
      → Triple Same
          (for_some o λ mapping.
            for_some
              (redacted_event event)
              λ event_id. message_by_event event_id >>= redact mapping.slack_channel_id event_id)
          (λ _. Redacted event)
          Same
  for_mapping event none = Triple-pure tt λ s h. inl h
  for_mapping event (some mapping) =
      for_target event mapping.slack_channel_id (redacted_event event) refl

  cached_read-Same : (room : String) → Triple Same (get_room_mapping_cached room) (λ _. Same) Same
  unfolding get_room_mapping_cached
  cached_read-Same room = Triple-then _ _ (Triple-with_state _ λ now s h. h) load
    where
      remember-Same :
          (o : Option RoomMapping) (now : ℕ) (s : State) → Same s → Same (remember room o now s)
      remember-Same none now s h = h
      remember-Same (some m) now s h = h

      load : (cached : Option RoomMapping) → Triple Same (or_load room cached) (λ _. Same) Same
      load (some m) = Triple-pure _ λ s h. h
      load none = Triple-then _ _ (Triple-query {Q = λ _. Same} _ (λ s h. h) (λ s h. h)) λ o.
          Triple-then _ _ (Triple-with_state {Q = λ _. Same} _ λ now s h. remember-Same o now s h)
            λ _. Triple-pure o λ s h. h

  pub handle_matrix_redaction_lem :
      (config : Config) (event : MatrixEvent)
      → Triple
          (λ s. s.messages ≡ t)
          (handle_matrix_redaction config event)
          (λ _. Redacted event)
          (λ s. s.messages ≡ t)
  unfolding handle_matrix_redaction
  handle_matrix_redaction_lem config event =
      Triple-if (is_namespaced_user event.sender) _ _ (λ _. Triple-pure tt λ s h. inl h)
        λ _.
          Triple-if config.disable_deletion_forwarding _ _ (λ _. Triple-pure tt λ s h. inl h)
            λ _. Triple-then _ _ (cached_read-Same event.room_id) (for_mapping event)

  -- the Slack message had no mapping, or Matrix accepted the redaction of its event and the mapping is gone
  abbrev pub Forgotten : String → State → Type 0
  Forgotten slack_id s =
      ((get_by_slack_message_id t slack_id ≡ none) × Same s)
      ⊎ ((link : MessageMapping) × (get_by_slack_message_id t slack_id ≡ some link)
          × Asked (redact_message link.matrix_room_id link.matrix_event_id "Deleted on Slack") s
          × ((j : String) → view s.messages j ≡ (if slack_id == j then none else view t j)))

  forget_for :
      (slack_id : String) (o : Option MessageMapping)
      → Triple
          (λ s. Same s × (get_by_slack_message_id t slack_id ≡ o))
          (for_some o
            λ mapping. redact_and_forget slack_id (build_slack_delete_redaction_request mapping))
          (λ _. Forgotten slack_id)
          Same
  unfolding build_slack_delete_redaction_request
  forget_for slack_id none = Triple-pure tt λ s h. inl (h.1, h.0)
  forget_for slack_id (some link) = record {
    at = λ env s (h, f).
        (Triple-bind
            {Q = λ _ u.
              Same u
              × Asked (redact_message link.matrix_room_id link.matrix_event_id "Deleted on Slack")
                  u}
            _ _
            (Triple-call
              (redact_message link.matrix_room_id link.matrix_event_id "Deleted on Slack")
              (λ a u g. (g, (u.calls, refl))) (λ u g. g))
            λ _.
              Triple-write _ tt
                (λ u (g, asked). inr (
                  link,
                  f,
                  asked,
                  λ j.
                      subst
                        (λ x.
                          view (delete_by_slack_message_id x slack_id) j
                          ≡ (if slack_id == j then none else view t j))
                        (sym g) (view-delete_by_slack_message_id t slack_id j),
                ))
                (λ u g. g.0)).at
          env s h;
  }

  pub handle_slack_message_delete_lem :
      (slack_id : String)
      → Triple
          (λ s. s.messages ≡ t)
          (handle_slack_message_delete slack_id)
          (λ _. Forgotten slack_id)
          (λ s. s.messages ≡ t)
  unfolding handle_slack_message_delete
  handle_slack_message_delete_lem slack_id =
      Triple-bind {Q = λ o s. Same s × (get_by_slack_message_id t slack_id ≡ o)} _ _
        (Triple-query _ (λ s h. (h, ap (λ x. get_by_slack_message_id x slack_id) (sym h)))
          (λ s h. h))
        (forget_for slack_id)
