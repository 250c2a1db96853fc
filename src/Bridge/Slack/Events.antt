-- ===== src/Bridge/Slack/Events.antt =====
-- The handlers of Slack events, the room table and the cache.
use matrix_bridge_slack.Prelude.{
  ℕ, ◌≡◌, refl, sym, subst, ◌∙◌, String, Option, none, some, [], ◌∷◌, not, true,
}
use matrix_bridge_slack.Prelude.Assoc.{string_eq}
use matrix_bridge_slack.Text.{◌⧺◌}
use matrix_bridge_slack.Db.{
  RoomMapping, get_room_by_slack_channel, update_room_mapping, MessageMapping,
}
use matrix_bridge_slack.Bridge.{
  Request, State, Config, send_notice, slack_message, get_room_name, get_room_topic, set_room_name,
  set_room_topic, redact_message, ensure_ghost_user_registered, send_reaction_as_ghost,
  redact_reaction_as_ghost, set_slack_user_typing,
}
use matrix_bridge_slack.Bridge.Monad.{call, ◌>>=◌, M}
use matrix_bridge_slack.Bridge.Triple.{
  Triple, Triple-pure, Triple-query, Triple-write, Triple-with_state, Triple-if, Triple-weaken,
  Triple-then, Triple-bind, Triple-raise,
}
use matrix_bridge_slack.Bridge.Rooms.{set_prefix, find_by_channel}
use matrix_bridge_slack.Bridge.Rooms.Coherent.{Coherent, set_prefix-Keeps, call-Keeps}
use matrix_bridge_slack.Bridge.Rooms.Limit.{Coherent-stable}
use matrix_bridge_slack.Bridge.Matrix.{for_some}
use matrix_bridge_slack.Formatting.{apply_pattern_string}
use matrix_bridge_slack.Db.Updates.{update_room_mapping-IsValid, mapped-update}
use matrix_bridge_slack.Bridge.Matrix.Events.{id_fail, for_some-Keeps}
use matrix_bridge_slack.Bridge.Rooms.Deleted.{
  Deleted, Found, Found-stable, find_by_channel_lem, drop-Found,
}
use matrix_bridge_slack.Bridge.Slack.{
  message_by_slack, build_slack_delete_redaction_request, handle_slack_message_delete,
  should_forward_slack_typing, handle_slack_typing, with_emoji, emoji_of, add_reaction_to,
  handle_slack_reaction_added, handle_slack_reaction_removed, unbridge_channel, update_name,
  update_topic, topic_or_purpose, same_text, handle_slack_channel_update,
  handle_slack_channel_archive,
}

call-Coherent : (r : Request) → Triple Coherent (call r) (λ _. Coherent) Coherent
call-Coherent r = call-Keeps Coherent Coherent Coherent-stable id_fail r

-- after an unbridge from Slack that returns, the channel has no mapping, in the table or in the cache
pub unbridge_channel_lem :
    (channel_id channel : String) (o : Option RoomMapping)
    → Triple (Found channel o) (unbridge_channel channel_id o) (λ _. Deleted channel) Coherent
unbridge_channel_lem channel_id channel none =
    Triple-weaken _
      (call-Keeps (Found channel none) Coherent (Found-stable channel none) (λ s h. h.0)
        (slack_message channel_id "This channel is not bridged to a plumbed matrix room"))
      (λ s h. h) (λ a s (c, e). (c, sym e)) (λ s h. h)
unbridge_channel_lem channel_id channel (some m) =
    Triple-bind {Q = λ _. Deleted channel} _ _ (drop-Found channel m) λ _.
      call-Keeps (Deleted channel) Coherent
        (λ s t e f (c, h).
          (Coherent-stable s t e f c, subst (λ x. get_room_by_slack_channel x channel ≡ none) e h))
        (λ s h. h.0) (slack_message channel_id "This channel has been unbridged")

module _ (config : Config) where
  renamed_at :
      (channel : String) (mapping : RoomMapping) (new_name : String) (now : ℕ) (s : State)
      → Found channel (some mapping) s
      → Coherent (record s {
        rooms =
            update_room_mapping s.rooms
              (record mapping { slack_channel_name = new_name; updated_at = now });
      })
  renamed_at channel mapping new_name now s ((v, h), e) =
      let m : RoomMapping = record mapping { slack_channel_name = new_name; updated_at = now } in
      (
        update_room_mapping-IsValid s.rooms m channel mapping v (sym e) refl,
        record {
          agree = λ room tv found.
              mapped-update s.rooms m channel mapping v (sym e) refl room ∙ h.agree room tv found;
        },
      )

  update_name-Coherent :
      (channel : String) (mapping : RoomMapping) (o : Option String)
      → Triple
          (Found channel (some mapping))
          (update_name config mapping o)
          (λ _. Coherent)
          Coherent
  update_name-Coherent channel mapping none = Triple-pure tt λ s h. h.0
  update_name-Coherent channel mapping (some new_name) =
      let P = Found channel (some mapping) in
      let keep = Found-stable channel (some mapping) in
      let formatted_name =
        apply_pattern_string config.name_pattern
          (("guild", mapping.slack_team_id) ∷ ("name", "#" ⧺ new_name) ∷ []) in
      Triple-then _ _
        (call-Keeps P Coherent keep (λ s h. h.0) (get_room_name mapping.matrix_room_id))
        λ current.
          Triple-if (same_text current formatted_name) _ _ (λ _. Triple-pure tt λ s h. h.0)
            λ _.
              Triple-then _ _
                (call-Keeps P Coherent keep (λ s h. h.0)
                  (set_room_name mapping.matrix_room_id formatted_name))
                λ _.
                  Triple-then _ _ (Triple-with_state _ λ now s h. h)
                    λ now. Triple-write _ tt (renamed_at channel mapping new_name now) (λ s h. h.0)

  update_topic-Coherent :
      (mapping : RoomMapping) (o : Option String)
      → Triple Coherent (update_topic config mapping o) (λ _. Coherent) Coherent
  update_topic-Coherent mapping none = Triple-pure tt λ s h. h
  update_topic-Coherent mapping (some topic) =
      Triple-then _ _ (call-Coherent (get_room_topic mapping.matrix_room_id)) λ current.
        Triple-if (same_text current topic) _ _ (λ _. Triple-pure tt λ s h. h)
          λ _. call-Coherent (set_room_topic mapping.matrix_room_id topic)

  update-Found :
      (channel : String) (new_name new_topic new_purpose : Option String) (o : Option RoomMapping)
      → Triple
          (Found channel o)
          (for_some o λ mapping. update_name config mapping new_name >>= λ _.
            update_topic config mapping (topic_or_purpose config new_topic new_purpose))
          (λ _. Coherent)
          Coherent
  update-Found channel new_name new_topic new_purpose none = Triple-pure tt λ s h. h.0
  update-Found channel new_name new_topic new_purpose (some mapping) =
      Triple-bind _ _ (update_name-Coherent channel mapping new_name)
        λ _. update_topic-Coherent mapping _

  pub handle_slack_channel_update-Coherent :
      (channel : String) (new_name new_topic new_purpose : Option String)
      → Triple Coherent
          (handle_slack_channel_update config channel new_name new_topic new_purpose)
          (λ _. Coherent)
          Coherent
  unfolding handle_slack_channel_update
  handle_slack_channel_update-Coherent channel new_name new_topic new_purpose =
      Triple-bind _ _ (find_by_channel_lem channel)
        (update-Found channel new_name new_topic new_purpose)

  archive_found :
      (o : Option RoomMapping)
      → Triple Coherent
          (for_some o λ mapping.
            call (
              send_notice mapping.matrix_room_id
                "This Slack channel has been archived. No new messages will be bridged.")
            >>= λ _. set_prefix config mapping.matrix_room_id "m.room.name" config.name_prefix)
          (λ _. Coherent)
          Coherent
  archive_found none = Triple-pure tt λ s h. h
  archive_found (some mapping) =
      Triple-then _ _
        (call-Coherent (
          send_notice mapping.matrix_room_id
            "This Slack channel has been archived. No new messages will be bridged."))
        λ _.
          set_prefix-Keeps Coherent Coherent Coherent-stable config mapping.matrix_room_id
            "m.room.name" config.name_prefix

  pub handle_slack_channel_archive-Coherent :
      (channel : String)
      → Triple Coherent (handle_slack_channel_archive config channel) (λ _. Coherent) Coherent
  unfolding handle_slack_channel_archive
  handle_slack_channel_archive-Coherent channel =
      Triple-then _ _ (Triple-query {Q = λ _. Coherent} _ (λ s h. h) (λ s h. h)) archive_found

-- the handlers that only request and look up
for_some-Coherent :
    {A : Type 0} (o : Option A) (f : A → M Unit)
    → ((a : A) → Triple Coherent (f a) (λ _. Coherent) Coherent)
    → Triple Coherent (for_some o f) (λ _. Coherent) Coherent
for_some-Coherent o f h = for_some-Keeps Coherent Coherent Coherent-stable id_fail o f h

looked_up : (id : String) → Triple Coherent (message_by_slack id) (λ _. Coherent) Coherent
looked_up id = Triple-query {Q = λ _. Coherent} _ (λ s h. h) (λ s h. h)

found_first :
    (channel : String) → Triple Coherent (find_by_channel channel) (λ _. Coherent) Coherent
found_first channel = Triple-query {Q = λ _. Coherent} _ (λ s h. h) (λ s h. h)

pub handle_slack_message_delete-Coherent :
    (id : String) → Triple Coherent (handle_slack_message_delete id) (λ _. Coherent) Coherent
unfolding handle_slack_message_delete build_slack_delete_redaction_request
handle_slack_message_delete-Coherent id = Triple-then _ _ (looked_up id) λ o.
    for_some-Coherent o _ λ link.
      Triple-then _ _
        (call-Coherent (redact_message link.matrix_room_id link.matrix_event_id "Deleted on Slack"))
        λ _. Triple-write _ tt (λ s h. h) (λ s h. h)

pub handle_slack_typing-Coherent :
    (config : Config) (channel sender : String)
    → Triple Coherent (handle_slack_typing config channel sender) (λ _. Coherent) Coherent
unfolding handle_slack_typing
handle_slack_typing-Coherent config channel sender = Triple-then _ _ (found_first channel) λ o.
    Triple-if (not (should_forward_slack_typing config.disable_typing_notifications o)) _ _
      (λ _. Triple-pure tt λ s h. h)
      λ _. for_some-Coherent o _ λ mapping.
        Triple-then _ _ (call-Coherent (ensure_ghost_user_registered sender none))
          λ _. call-Coherent (set_slack_user_typing mapping.matrix_room_id sender true 4000)

with_emoji-Coherent :
    (o : Option String) (f : String → M Unit)
    → ((emoji : String) → Triple Coherent (f emoji) (λ _. Coherent) Coherent)
    → Triple Coherent (with_emoji o f) (λ _. Coherent) Coherent
with_emoji-Coherent none f h = Triple-raise _ λ s c. c
with_emoji-Coherent (some emoji) f h = h emoji

add_reaction_to-Coherent :
    (room user reaction : String) (o : Option MessageMapping)
    → Triple Coherent (add_reaction_to room user reaction o) (λ _. Coherent) Coherent
add_reaction_to-Coherent room user reaction none = Triple-pure tt λ s h. h
add_reaction_to-Coherent room user reaction (some link) =
    Triple-then _ _ (call-Coherent (ensure_ghost_user_registered user none)) λ _.
      with_emoji-Coherent (emoji_of reaction) _
        λ emoji. call-Coherent (send_reaction_as_ghost room link.matrix_event_id user emoji)

pub handle_slack_reaction_added-Coherent :
    (channel id user reaction : String)
    → Triple Coherent
        (handle_slack_reaction_added channel id user reaction)
        (λ _. Coherent)
        Coherent
unfolding handle_slack_reaction_added
handle_slack_reaction_added-Coherent channel id user reaction =
    Triple-then _ _ (found_first channel) λ o. for_some-Coherent o _ λ mapping.
      Triple-then _ _ (looked_up id) (add_reaction_to-Coherent mapping.matrix_room_id user reaction)

pub handle_slack_reaction_removed-Coherent :
    (channel id user reaction : String)
    → Triple Coherent
        (handle_slack_reaction_removed channel id user reaction)
        (λ _. Coherent)
        Coherent
unfolding handle_slack_reaction_removed
handle_slack_reaction_removed-Coherent channel id user reaction =
    Triple-then _ _ (found_first channel) λ o. for_some-Coherent o _ λ mapping.
      Triple-then _ _ (looked_up id) λ p. for_some-Coherent p _ λ link.
        with_emoji-Coherent (emoji_of reaction) _ λ emoji.
          call-Coherent
            (redact_reaction_as_ghost mapping.matrix_room_id link.matrix_event_id user emoji)
