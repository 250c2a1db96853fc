-- ===== src/Bridge/Rooms/Limit.antt =====
-- Bridging from Matrix, `limits.room_count` and the cache.
use matrix_bridge_slack.Prelude.{
  ℕ, leb, ◌≤◌, ◌<◌, ◌≡◌, refl, sym, subst, String, Option, none, some, if◌then◌else◌, arith,
  Bool-cases, inl, inr, is_some,
}
use matrix_bridge_slack.Prelude.Assoc.{string_eq}
use matrix_bridge_slack.Text.{◌⧺◌}
use matrix_bridge_slack.Db.{RoomMapping, count_rooms}
use matrix_bridge_slack.Db.Rooms.{count_rooms-create, IsValid, create_room_mapping-IsValid}
use matrix_bridge_slack.Bridge.{
  Result, ok, err, State, Config, SlackChannel, get_channel, create_room,
}
use matrix_bridge_slack.Bridge.Triple.{
  Triple, Triple-pure, Triple-query, Triple-try_write, Triple-with_state, Triple-if, Triple-then,
  Triple-bind,
}
use matrix_bridge_slack.Bridge.Rooms.{
  create_mapping, new_mapping, over_limit, limit_message, check_room_limit, bridge_matrix_room,
  request_bridge_matrix_room, bridge_created, create_for, request_bridge_slack_channel,
}
use matrix_bridge_slack.Bridge.Rooms.Cached.{Cached, Cached-create}
use matrix_bridge_slack.Bridge.Rooms.Coherent.{Coherent, call-Keeps, attempt-Keeps}
use matrix_bridge_slack.Bridge.Rooms.Rule.{
  Stable, inserted-rooms, bridge_matrix_room-rule, request_bridge_matrix_room-rule,
  over_limit-Keeps,
}

abbrev pub AtMost : ℕ → State → Type 0
AtMost limit s = count_rooms s.rooms ≤ limit

abbrev RoomFor : ℕ → State → Type 0
RoomFor limit s = count_rooms s.rooms < limit

pub Coherent-stable : Stable Coherent
Coherent-stable s t e f (v, h) =
    (subst IsValid e v, subst (λ x. Cached x t.room_cache) e (subst (Cached s.rooms) f h))

pub create-Coherent :
    (m : RoomMapping) → Triple Coherent (create_mapping m) (λ _. Coherent) Coherent
unfolding create_mapping
create-Coherent m =
    Triple-try_write _ tt
      (λ s u (v, h) e.
        let (made, same) = inserted-rooms s u m e in
        (
          create_room_mapping-IsValid s.rooms u.rooms m v made,
          subst (Cached u.rooms) same (Cached-create s.rooms u.rooms s.room_cache m h made),
        ))
      (λ s h. h)

module _ (config : Config) (room guild : String) where
  module _ (limit : ℕ) (e : config.room_count ≡ some limit) where
    stable : Stable (AtMost limit)
    stable s t e f h = subst (λ x. count_rooms x ≤ limit) e h

    stable_for : Stable (RoomFor limit)
    stable_for s t e f h = subst (λ x. count_rooms x < limit) e h

    room_for :
        (n : ℕ) (s : State)
        → (if leb limit n then some (limit_message config) else none) ≡ none
        → n ≡ count_rooms s.rooms
        → RoomFor limit s
    room_for n s free same = elim (Bool-cases (leb limit n)) [
      | inl full ↦ absurd (ground (arith, rw full at free))
      | inr space ↦ ground (arith, space, same)
    ]

    over_limit_lem :
        Triple
          (AtMost limit)
          (over_limit config (some limit))
          (λ o s. (o ≡ none → RoomFor limit s) × ((m : String) → o ≡ some m → AtMost limit s))
          (AtMost limit)
    over_limit_lem =
        Triple-bind {Q = λ n s. AtMost limit s × (n ≡ count_rooms s.rooms)} _ _
          (Triple-query _ (λ s h. (h, refl)) (λ s h. h))
          (λ n. Triple-pure _ λ s (h, same). ((λ free. room_for n s free same), λ m taken. h))

    check_room_limit_lem :
        Triple
          (AtMost limit)
          (check_room_limit config)
          (λ o s. (o ≡ none → RoomFor limit s) × ((m : String) → o ≡ some m → AtMost limit s))
          (AtMost limit)
    unfolding check_room_limit
    check_room_limit_lem =
        subst
          (λ o.
            Triple (AtMost limit) (over_limit config o)
              (λ o s. (o ≡ none → RoomFor limit s) × ((m : String) → o ≡ some m → AtMost limit s))
              (AtMost limit))
          (sym e) over_limit_lem

    create_mapping_lem :
        (channel : SlackChannel) (now : ℕ)
        → Triple
            (RoomFor limit)
            (create_mapping (new_mapping room channel guild now))
            (λ _. AtMost limit)
            (AtMost limit)
    unfolding create_mapping
    create_mapping_lem channel now =
        Triple-try_write _ tt
          (λ s u h e.
            omega (arith, h, count_rooms-create s.rooms u.rooms _ (inserted-rooms s u _ e).0))
          (λ s h. omega (arith, h))

    pub bridge_matrix_room-AtMost :
        (channel_id : String)
        → Triple
            (AtMost limit)
            (bridge_matrix_room config room guild channel_id)
            (λ _. AtMost limit)
            (AtMost limit)
    bridge_matrix_room-AtMost channel_id =
        bridge_matrix_room-rule config room guild (AtMost limit) (RoomFor limit) (AtMost limit)
          (AtMost limit) (λ _. AtMost limit) stable_for stable (λ s h. omega (arith, h))
          (λ m s h. omega (arith, h)) (λ s h. h) check_room_limit_lem create_mapping_lem channel_id

    pub request_bridge_matrix_room-AtMost :
        (requestor channel_id : String)
        → Triple
            (AtMost limit)
            (request_bridge_matrix_room config room requestor guild channel_id)
            (λ _. AtMost limit)
            (AtMost limit)
    request_bridge_matrix_room-AtMost requestor channel_id =
        request_bridge_matrix_room-rule config room guild (AtMost limit) (RoomFor limit)
          (AtMost limit) (AtMost limit) (λ _. AtMost limit) stable_for stable
          (λ s h. omega (arith, h)) (λ m s h. omega (arith, h)) (λ s h. h) check_room_limit_lem
          create_mapping_lem (λ s h. omega (arith, h)) requestor channel_id

  check-Coherent :
      Triple Coherent
        (check_room_limit config)
        (λ o s. (o ≡ none → Coherent s) × ((m : String) → o ≡ some m → Coherent s))
        Coherent
  unfolding check_room_limit
  check-Coherent =
      over_limit-Keeps config Coherent Coherent (λ _. Coherent) Coherent-stable (λ s h. h)
        (λ m s h. h) config.room_count

  pub request_bridge_matrix_room-Coherent :
      (requestor channel_id : String)
      → Triple Coherent
          (request_bridge_matrix_room config room requestor guild channel_id)
          (λ _. Coherent)
          Coherent
  request_bridge_matrix_room-Coherent requestor channel_id =
      request_bridge_matrix_room-rule config room guild Coherent Coherent Coherent Coherent
        (λ _. Coherent) Coherent-stable Coherent-stable (λ s h. h) (λ m s h. h) (λ s h. h)
        check-Coherent (λ channel now. create-Coherent _) (λ s h. h) requestor channel_id

  pub bridge_matrix_room-Coherent :
      (channel_id : String)
      → Triple Coherent (bridge_matrix_room config room guild channel_id) (λ _. Coherent) Coherent
  bridge_matrix_room-Coherent channel_id =
      bridge_matrix_room-rule config room guild Coherent Coherent Coherent Coherent (λ _. Coherent)
        Coherent-stable Coherent-stable (λ s h. h) (λ m s h. h) (λ s h. h) check-Coherent
        (λ channel now. create-Coherent _) channel_id

-- `!matrix bridge` on the Slack side
created-Coherent :
    (guild : String) (channel : SlackChannel) (r : Result String)
    → Triple Coherent (bridge_created guild channel r) (λ _. Coherent) Coherent
created-Coherent guild channel (err _) = Triple-pure _ λ s h. h
created-Coherent guild channel (ok room) = Triple-then _ _ (Triple-with_state _ λ now s h. h) λ now.
    Triple-then _ _ (create-Coherent (new_mapping room channel guild now))
      λ _. Triple-pure _ λ s h. h

create_for-Coherent :
    (guild : String) (o : Option SlackChannel)
    → Triple Coherent (create_for guild o) (λ _. Coherent) Coherent
create_for-Coherent guild none = Triple-pure _ λ s h. h
create_for-Coherent guild (some channel) =
    Triple-then _ _
      (attempt-Keeps Coherent Coherent Coherent-stable
        (create_room channel.id ("[Slack] #" ⧺ channel.name) channel.topic))
      (created-Coherent guild channel)

pub request_bridge_slack_channel-Coherent :
    (guild channel_id : String)
    → Triple Coherent (request_bridge_slack_channel guild channel_id) (λ _. Coherent) Coherent
unfolding request_bridge_slack_channel
request_bridge_slack_channel-Coherent guild channel_id =
    Triple-then _ _ (Triple-query {Q = λ _. Coherent} _ (λ s h. h) (λ s h. h)) λ existing.
      Triple-if (is_some existing) _ _ (λ _. Triple-pure _ λ s h. h)
        λ _.
          Triple-then _ _
            (call-Keeps Coherent Coherent Coherent-stable (λ s h. h) (get_channel channel_id))
            (create_for-Coherent guild)
