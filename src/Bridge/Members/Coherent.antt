-- ===== src/Bridge/Members/Coherent.antt =====
-- The handlers of memberships, power levels, typing and receipts, the room table and the cache.
use matrix_bridge_slack.Prelude.{
  unwrap_or, String, Option, none, some, List, [], ◌∷◌, ◌&&◌, ◌||◌, not, ltb, ◌==◌,
}
use matrix_bridge_slack.Json.{Members, Integer, end, member, get, as_object, and_then}
use matrix_bridge_slack.Db.{RoomMapping, MessageMapping}
use matrix_bridge_slack.Bridge.{
  Request, Result, ok, err, Config, mark_conversation, get_user_profile, slack_message, join_room,
  deny_channel_member_permissions, spawn_clear_overwrite,
}
use matrix_bridge_slack.Bridge.Monad.{M, pure, attempt, ◌>>=◌}
use matrix_bridge_slack.Bridge.Triple.{Triple, Triple-pure, Triple-if, Triple-then, Triple-catch}
use matrix_bridge_slack.Bridge.Rooms.Coherent.{Coherent, attempt-Keeps, call-Keeps}
use matrix_bridge_slack.Bridge.Rooms.Limit.{Coherent-stable}
use matrix_bridge_slack.Bridge.Matrix.{
  MatrixEvent, for_some, content_str, message_by_event, is_namespaced_user, slack_user_id_from_mxid,
}
use matrix_bridge_slack.Bridge.Matrix.Events.{
  for_some-Keeps, attempt_then_done, message_by_event-Keeps, unless_ghost-Keeps, read_first,
  id_fail,
}
use matrix_bridge_slack.Bridge.Members.{
  moderation_text, is_text, bot_user_id, restore_later, deny_member, member_removed, member_changed,
  handle_matrix_member, tell_levels, levels_text, changed_users, users_of,
  handle_matrix_power_levels, handle_matrix_typing, mark, mark_read, read_by, receipts_of,
  handle_matrix_receipt,
}

-- `m` keeps the cache in step
abbrev Keeps : {A : Type 0} → M A → Type 0
Keeps m = Triple Coherent m (λ _. Coherent) Coherent

done : Keeps (pure tt)
done = Triple-pure tt λ s h. h

attempted : (r : Request) → Keeps (attempt r)
attempted r = attempt-Keeps Coherent Coherent Coherent-stable r

asked : (r : Request) → Keeps (attempt r >>= λ _. pure tt)
asked r = attempt_then_done Coherent Coherent Coherent-stable id_fail r

present :
    {A : Type 0} (o : Option A) (f : A → M Unit) → ((a : A) → Keeps (f a)) → Keeps (for_some o f)
present o f h = for_some-Keeps Coherent Coherent Coherent-stable id_fail o f h

module _ (config : Config) (event : MatrixEvent) (membership : String) where
  restore_later-Coherent :
      (channel user : String) → Keeps (restore_later config event membership channel user)
  restore_later-Coherent channel user =
      Triple-if (membership == "leave" && ltb 0 config.kick_for) _ _
        (λ _. asked (spawn_clear_overwrite channel user config.kick_for)) (λ _. done)

  deny_member-Coherent :
      (target : String) (mapping : RoomMapping) (user : String)
      → Keeps (deny_member config event membership target mapping user)
  deny_member-Coherent target mapping user =
      Triple-then _ _ (attempted (deny_channel_member_permissions mapping.slack_channel_id user))
        λ _.
          Triple-then _ _
            (attempted (
              slack_message mapping.slack_channel_id (
                moderation_text target membership event.sender
                  (unwrap_or (content_str event "reason") "No reason provided"))))
            λ _. restore_later-Coherent mapping.slack_channel_id user

  member_removed-Coherent :
      (target : String) → Keeps (member_removed config event membership target)
  member_removed-Coherent target =
      Triple-if ((membership == "leave" || membership == "ban") && not (event.sender == target)) _ _
        (λ _. read_first event.room_id _ λ o. present o _ λ mapping.
          present (slack_user_id_from_mxid config target) _ (deny_member-Coherent target mapping))
        (λ _. done)

  member_changed-Coherent : Keeps (member_changed config event membership)
  member_changed-Coherent =
      Triple-if (membership == "invite" && is_text (bot_user_id config) event.state_key) _ _
        (λ _. asked (join_room event.room_id))
        (λ _.
          unless_ghost-Keeps Coherent Coherent Coherent-stable id_fail event _
            (present event.state_key _ member_removed-Coherent))

pub handle_matrix_member-Coherent :
    (config : Config) (event : MatrixEvent) → Keeps (handle_matrix_member config event)
unfolding handle_matrix_member
handle_matrix_member-Coherent config event =
    present (content_str event "membership") _ (member_changed-Coherent config event)

module _ (config : Config) (show : Integer → String) (event : MatrixEvent) where
  tell_levels-Coherent :
      (channel : String) (changed : List String)
      → Keeps (tell_levels config show event channel changed)
  tell_levels-Coherent channel [] = done
  tell_levels-Coherent channel (text ∷ more) =
      Triple-then _ _ (attempted (get_user_profile event.sender)) λ profile.
        call-Keeps Coherent Coherent Coherent-stable id_fail
          (slack_message channel (levels_text config show event.sender profile (text ∷ more)))

  pub handle_matrix_power_levels-Coherent : Keeps (handle_matrix_power_levels config show event)
  unfolding handle_matrix_power_levels
  handle_matrix_power_levels-Coherent = read_first event.room_id _ λ o. present o _ λ mapping.
      tell_levels-Coherent mapping.slack_channel_id
        (changed_users config show (users_of config show event))

pub handle_matrix_typing-Coherent :
    (config : Config) (event : MatrixEvent) → Keeps (handle_matrix_typing config event)
unfolding handle_matrix_typing
handle_matrix_typing-Coherent config event =
    Triple-if config.disable_typing_notifications _ _ (λ _. done)
      (λ _. read_first event.room_id _ λ _. done)

module _ (channel : String) where
  mark-Coherent : (o : Result (Option MessageMapping)) → Keeps (mark channel o)
  mark-Coherent (ok (some link)) = asked (mark_conversation channel link.slack_message_id)
  mark-Coherent (ok none) = done
  mark-Coherent (err _) = done

  mark_read-Coherent : (event_id user : String) → Keeps (mark_read channel event_id user)
  mark_read-Coherent event_id user =
      Triple-if (is_namespaced_user user) _ _ (λ _. done)
        (λ _.
          Triple-then _ _
            (Triple-catch (message_by_event event_id)
              (message_by_event-Keeps Coherent Coherent Coherent-stable id_fail event_id))
            mark-Coherent)

  read_by-Coherent : (event_id : String) (read : Members) → Keeps (read_by channel event_id read)
  unfolding read_by
  read_by-Coherent event_id end = done
  read_by-Coherent event_id (member user _ read) =
      Triple-then _ _ (mark_read-Coherent event_id user) λ _. read_by-Coherent event_id read

  receipts_of-Coherent : (content : Members) → Keeps (receipts_of channel content)
  unfolding receipts_of
  receipts_of-Coherent end = done
  receipts_of-Coherent (member event_id receipts content) =
      Triple-then _ _
        (present (and_then (get "m.read" receipts) as_object) _ (read_by-Coherent event_id))
        λ _. receipts_of-Coherent content

pub handle_matrix_receipt-Coherent :
    (config : Config) (event : MatrixEvent) → Keeps (handle_matrix_receipt config event)
unfolding handle_matrix_receipt
handle_matrix_receipt-Coherent config event =
    Triple-if config.disable_read_receipts _ _ (λ _. done)
      (λ _. read_first event.room_id _ λ o. present o _ λ mapping.
        present (and_then event.content as_object) _
          (receipts_of-Coherent mapping.slack_channel_id))
