-- ===== src/Bridge/Rooms/Created.antt =====
-- What a request to bridge does to the table.
use matrix_bridge_slack.Prelude.{
  ℕ, ◌≡◌, refl, sym, ap, subst, ◌∙◌, String, none, some, inl, inr, ◌⊎◌,
}
use matrix_bridge_slack.Prelude.Assoc.{string_eq}
use matrix_bridge_slack.Db.{RoomMapping, Table, create_room_mapping}
use matrix_bridge_slack.Bridge.{State, Config, SlackChannel}
use matrix_bridge_slack.Bridge.Triple.{Triple, Triple-try_write}
use matrix_bridge_slack.Bridge.Rooms.{
  create_mapping, new_mapping, check_room_limit, bridge_matrix_room, request_bridge_matrix_room,
}
use matrix_bridge_slack.Bridge.Rooms.Rule.{
  success, Stable, inserted-rooms, bridge_matrix_room-rule, request_bridge_matrix_room-rule,
  over_limit-Keeps,
}

-- the table is still `t`, or it has one row more, for the channel that Slack gave, and the reply says so
abbrev pub Outcome : Table RoomMapping → String → String → String → State → Type 0
Outcome t room guild reply s =
    (s.rooms ≡ t)
    ⊎ ((reply ≡ success)
        × ((channel : SlackChannel) × (now : ℕ) × (create_room_mapping t
                (new_mapping room channel guild now)
              ≡ some s.rooms)))

module _ (config : Config) (t : Table RoomMapping) (room guild : String) where
  abbrev Same : State → Type 0
  Same s = s.rooms ≡ t

  Same-stable : Stable Same
  Same-stable s u e f h = sym e ∙ h

  abbrev Inserted : State → Type 0
  Inserted s =
      (channel : SlackChannel) × (now : ℕ) × (create_room_mapping t
          (new_mapping room channel guild now)
        ≡ some s.rooms)

  Inserted-stable : Stable Inserted
  Inserted-stable s u e f (channel, now, h) = (channel, now, h ∙ ap some e)

  create_mapping_lem :
      (channel : SlackChannel) (now : ℕ)
      → Triple Same (create_mapping (new_mapping room channel guild now)) (λ _. Inserted) Same
  unfolding create_mapping
  create_mapping_lem channel now =
      Triple-try_write _ tt
        (λ s u h e. (
          channel,
          now,
          subst (λ x. create_room_mapping x (new_mapping room channel guild now) ≡ some u.rooms) h
              (inserted-rooms s u _ e).0,
        ))
        (λ s h. h)

  check_room_limit_lem :
      Triple Same
        (check_room_limit config)
        (λ o s. (o ≡ none → Same s) × ((m : String) → o ≡ some m → Outcome t room guild m s))
        Same
  unfolding check_room_limit
  check_room_limit_lem =
      over_limit-Keeps config Same Same (Outcome t room guild) Same-stable (λ s h. h)
        (λ m s h. inl h) config.room_count

  pub bridge_matrix_room-Outcome :
      (channel_id : String)
      → Triple
          (λ s. s.rooms ≡ t)
          (bridge_matrix_room config room guild channel_id)
          (Outcome t room guild)
          (λ s. s.rooms ≡ t)
  bridge_matrix_room-Outcome channel_id =
      bridge_matrix_room-rule config room guild Same Same Inserted Same (Outcome t room guild)
        Same-stable Inserted-stable (λ s h. h) (λ m s h. inl h) (λ s h. inr (refl, h))
        check_room_limit_lem create_mapping_lem channel_id

  -- Asking first changes nothing about that.
  pub request_bridge_matrix_room-Outcome :
      (requestor channel_id : String)
      → Triple
          (λ s. s.rooms ≡ t)
          (request_bridge_matrix_room config room requestor guild channel_id)
          (Outcome t room guild)
          (λ s. s.rooms ≡ t)
  request_bridge_matrix_room-Outcome requestor channel_id =
      request_bridge_matrix_room-rule config room guild Same Same Inserted Same
        (Outcome t room guild) Same-stable Inserted-stable (λ s h. h) (λ m s h. inl h)
        (λ s h. inr (refl, h)) check_room_limit_lem create_mapping_lem (λ s h. h) requestor
        channel_id
