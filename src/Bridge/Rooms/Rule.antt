-- ===== src/Bridge/Rooms/Rule.antt =====
-- How a property of the state goes through a request to bridge.
use matrix_bridge_slack.Prelude.{
  ℕ, ◌≡◌, refl, ap, ◌∙◌, String, Option, none, some, arith, Option-cases, inl, inr, is_some,
}
use mathlib.Core.Option.{some-injective}
use matrix_bridge_slack.Prelude.Assoc.{string_eq}
use matrix_bridge_slack.Db.{RoomMapping, create_room_mapping}
use matrix_bridge_slack.Bridge.{
  State, Config, SlackChannel, ProvisioningError, get_channel, send_notice, send_state_event,
  ask_bridge_permission, timed_out, declined, delivery_failed, cancelled,
}
use matrix_bridge_slack.Bridge.Monad.{M, tick}
use matrix_bridge_slack.Bridge.Triple.{
  Triple, Triple-pure, Triple-query, Triple-with_state, Triple-if, Triple-weaken, Triple-then,
  Triple-bind,
}
use matrix_bridge_slack.Bridge.Rooms.{
  create_mapping, new_mapping, over_limit, check_room_limit, unless_limited, bridge_found,
  room_name, unless_bridged, bridge_matrix_room, permission_outcome, ask_for,
  request_bridge_matrix_room,
}
use matrix_bridge_slack.Bridge.Rooms.Coherent.{call-Keeps, attempt-Keeps, backfill_after-Keeps}

abbrev pub success : String
success = "I have bridged this room to your channel"

abbrev pub Stable : (State → Type 0) → Type 0
Stable P = (s t : State) → s.rooms ≡ t.rooms → s.room_cache ≡ t.room_cache → P s → P t

-- an INSERT that succeeds changes the rooms only
pub inserted-rooms :
    (s u : State) (m : RoomMapping)
    → elim (create_room_mapping s.rooms m) as (λ _. Option State) [
      | none ↦ none
      | some rooms ↦ some (record s { rooms = rooms })
    ]
      ≡ some u
    → (create_room_mapping s.rooms m ≡ some u.rooms) × (s.room_cache ≡ u.room_cache)
inserted-rooms s u m e = elim (Option-cases (create_room_mapping s.rooms m)) [
  | inl refused ↦ absurd (ground (arith, rw refused at e))
  | inr (rooms, made) ↦
      let same : record s { rooms = rooms } ≡ u = some-injective _ u (rw made at e) in
      (made ∙ ap (λ (x : State). some x.rooms) same, ap (λ (x : State). x.room_cache) same)
]

-- `P` before, `L` once the limit is checked, `R` once the row is there, `Q` at the end, `E` on an error
module _ (config : Config) (room guild : String) (P L R E : State → Type 0)
    (Q : String → State → Type 0) (keep : Stable L) (keep' : Stable R)
    (fail : (s : State) → L s → E s) (stay : (reply : String) (s : State) → L s → Q reply s)
    (done : (s : State) → R s → Q success s)
    (checked : Triple P
      (check_room_limit config)
      (λ o s. (o ≡ none → L s) × ((m : String) → o ≡ some m → Q m s))
      E)
    (created : (channel : SlackChannel) (now : ℕ)
      → Triple L (create_mapping (new_mapping room channel guild now)) (λ _. R) E) where
  bridge_found-rule : (o : Option SlackChannel) → Triple L (bridge_found config room guild o) Q E
  bridge_found-rule none = Triple-pure _ λ s h. stay _ s h
  bridge_found-rule (some channel) = Triple-then _ _ (Triple-with_state _ λ now s h. h) λ now.
      Triple-bind {Q = λ _. R} _ _ (created channel now) λ _.
        Triple-then _ _
          (attempt-Keeps R E keep' (send_state_event room "m.room.name" (room_name config channel)))
          λ _.
            Triple-then _ _ (backfill_after-Keeps R E keep' config channel.id)
              λ _. Triple-pure _ λ s h. done s h

  unless_bridged-rule :
      (message : String) (o : Option RoomMapping) (m : M String)
      → Triple L m Q E
      → Triple L (unless_bridged message o m) Q E
  unless_bridged-rule message o m h =
      Triple-if (is_some o) _ _ (λ _. Triple-pure message λ s l. stay message s l) (λ _. h)

  unless_limited-rule :
      (limit : Option String) (m : M String)
      → Triple L m Q E
      → Triple
          (λ s. (limit ≡ none → L s) × ((x : String) → limit ≡ some x → Q x s))
          (unless_limited config limit m)
          Q
          E
  unless_limited-rule none m h = Triple-weaken m h (λ s l. l.0 refl) (λ a s q. q) (λ s e. e)
  unless_limited-rule (some message) m h = Triple-pure message λ s l. l.1 message refl

  pub bridge_matrix_room-rule :
      (channel_id : String) → Triple P (bridge_matrix_room config room guild channel_id) Q E
  unfolding bridge_matrix_room
  bridge_matrix_room-rule channel_id = Triple-bind _ _ checked λ limit.
      unless_limited-rule limit _ (
        Triple-then _ _
          (Triple-query _ (λ s l. keep s (tick s) refl refl l)
            (λ s l. fail (tick s) (keep s (tick s) refl refl l)))
          λ existing.
            unless_bridged-rule _ existing _ (
              Triple-then _ _ (call-Keeps L E keep fail (get_channel channel_id))
                bridge_found-rule))

  permission_outcome-rule :
      ((s : State) → L s → P s)
      → (channel_id : String) (o : Option ProvisioningError)
      → Triple L (permission_outcome config room guild channel_id o) Q E
  permission_outcome-rule again channel_id none =
      Triple-weaken _ (bridge_matrix_room-rule channel_id) again (λ a s q. q) (λ s e. e)
  permission_outcome-rule again channel_id (some timed_out) = Triple-pure _ λ s l. stay _ s l
  permission_outcome-rule again channel_id (some declined) = Triple-pure _ λ s l. stay _ s l
  permission_outcome-rule again channel_id (some delivery_failed) = Triple-pure _ λ s l. stay _ s l
  permission_outcome-rule again channel_id (some cancelled) = Triple-pure _ λ s l. stay _ s l

  ask_for-rule :
      ((s : State) → L s → P s)
      → (requestor channel_id : String) (o : Option SlackChannel)
      → Triple L (ask_for config room requestor guild channel_id o) Q E
  ask_for-rule again requestor channel_id none = Triple-pure _ λ s l. stay _ s l
  ask_for-rule again requestor channel_id (some channel) =
      Triple-then _ _
        (call-Keeps L E keep fail (
          send_notice room
            "I'm asking permission from the guild administrators to make this bridge."))
        λ _.
          Triple-then _ _ (call-Keeps L E keep fail (ask_bridge_permission channel.id requestor))
            (permission_outcome-rule again channel_id)

  pub request_bridge_matrix_room-rule :
      ((s : State) → L s → P s)
      → (requestor channel_id : String)
      → Triple P (request_bridge_matrix_room config room requestor guild channel_id) Q E
  unfolding request_bridge_matrix_room
  request_bridge_matrix_room-rule again requestor channel_id = Triple-bind _ _ checked λ limit.
      unless_limited-rule limit _ (
        Triple-then _ _
          (Triple-query _ (λ s l. keep s (tick s) refl refl l)
            (λ s l. fail (tick s) (keep s (tick s) refl refl l)))
          λ existing. unless_bridged-rule _ existing _ (
            Triple-then _ _ (call-Keeps L E keep fail (get_channel channel_id))
              (ask_for-rule again requestor channel_id)))

-- the limit test alone
pub over_limit-Keeps :
    (config : Config) (P E : State → Type 0) (Q : String → State → Type 0)
    → Stable P
    → ((s : State) → P s → E s)
    → ((reply : String) (s : State) → P s → Q reply s)
    → (o : Option ℕ)
    → Triple P
        (over_limit config o)
        (λ o s. (o ≡ none → P s) × ((m : String) → o ≡ some m → Q m s))
        E
over_limit-Keeps config P E Q keep fail stay none =
    Triple-pure none λ s h. ((λ _. h), λ m e. stay m s h)
over_limit-Keeps config P E Q keep fail stay (some limit) =
    Triple-then _ _
      (Triple-query _ (λ s h. keep s (tick s) refl refl h)
        (λ s h. fail (tick s) (keep s (tick s) refl refl h)))
      λ count. Triple-pure _ λ s h. ((λ _. h), λ m e. stay m s h)
