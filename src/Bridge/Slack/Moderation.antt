-- ===== src/Bridge/Slack/Moderation.antt =====
-- The rooms of a moderation command, its requests, and the counts it reports.
use matrix_bridge_slack.Prelude.{
  ℕ, suc, ◌+◌, ◌≡◌, refl, sym, ap, subst, ◌∙◌, String, Bool, true, false, List, [], ◌∷◌, ◌==◌,
  eq_iff, eq_refl, if◌then◌else◌, arith, Bool-cases, inl, inr, All, retain, length, map, ◌++◌, ◌||◌,
}
use matrix_bridge_slack.Prelude.Assoc.{string_eq}
use matrix_bridge_slack.Db.{RoomMapping}
use matrix_bridge_slack.Bridge.{
  Request, State, send_notice, kick_user_from_room, ban_user_from_room, unban_user_from_room,
}
use matrix_bridge_slack.Bridge.Monad.{logged}
use matrix_bridge_slack.Bridge.Triple.{
  Triple, Triple-pure, Triple-weaken, Triple-then, Triple-bind, Triple-attempt,
}
use matrix_bridge_slack.Bridge.Rooms.Rule.{success}
use mathlib.Core.List.{append_assoc, append-nil}
use matrix_bridge_slack.Command.Slack.{ModerationAction, kick, ban, unban}
use matrix_bridge_slack.Bridge.Slack.{
  member_of, distinct_rooms, target_rooms, moderation_request, moderate_rooms, is_ok, notify,
  reason, moderation_notice,
}

-- the requests of a log that act on a member of a room
abbrev pub is_moderation : Request → Bool
is_moderation (kick_user_from_room _ _ _) = true
is_moderation (ban_user_from_room _ _ _) = true
is_moderation (unban_user_from_room _ _) = true
is_moderation _ = false

abbrev pub moderations : List Request → List Request
moderations calls = retain is_moderation calls

moderations-append :
    (xs ys : List Request) → moderations (xs ++ ys) ≡ moderations xs ++ moderations ys
moderations-append [] ys = refl
moderations-append (x ∷ xs) ys = elim (Bool-cases (is_moderation x)) [
  | inl h ↦ rw h (ap (λ l. x ∷ l) (moderations-append xs ys))
  | inr h ↦ rw h (moderations-append xs ys)
]

request-is_moderation :
    (action : ModerationAction) (room user why : String)
    → is_moderation (moderation_request action room user why) ≡ true
request-is_moderation kick room user why = refl
request-is_moderation ban room user why = refl
request-is_moderation unban room user why = refl

module _ (action : ModerationAction) (user channel sender : String) where
  abbrev pub request_for : String → Request
  request_for room = moderation_request action room user (reason action user channel sender)

  -- the log so far, read for moderations
  abbrev Logged : List Request → State → Type 0
  Logged log s = moderations s.calls ≡ log

  moderated :
      (log : List Request) (room : String) (s : State)
      → Logged log s
      → Logged (log ++ request_for room ∷ []) (logged (request_for room) s)
  moderated log room s h =
      moderations-append s.calls (request_for room ∷ [])
      ∙ rw (request-is_moderation action room user (reason action user channel sender))
          (ap (λ l. l ++ request_for room ∷ []) h)

  noticed :
      (log : List Request) (room : String) (s : State)
      → Logged log s
      → Logged log (logged (send_notice room (moderation_notice action user channel sender)) s)
  noticed log room s h =
      moderations-append s.calls
        (send_notice room (moderation_notice action user channel sender) ∷ [])
      ∙ append-nil (moderations s.calls)
      ∙ h

  notify_lem :
      (log : List Request) (room : String) (b : Bool)
      → Triple (Logged log) (notify action user channel sender room b) (λ _. Logged log) (λ _. ⊥)
  notify_lem log room false = Triple-pure tt λ s h. h
  notify_lem log room true =
      Triple-then _ _
        (Triple-attempt (send_notice room (moderation_notice action user channel sender))
          λ a s h. noticed log room s h)
        λ _. Triple-pure tt λ s h. h

  -- The loop cannot fail: it makes one moderation request for each room, in their order, and every
  -- room is counted once.
  pub moderate_rooms_lem :
      (rooms : List String) (success failed : ℕ) (log : List Request)
      → Triple
          (λ s. moderations s.calls ≡ log)
          (moderate_rooms action user channel sender rooms success failed)
          (λ counts s.
            (moderations s.calls ≡ log ++ map request_for rooms)
            × (counts.0 + counts.1 ≡ success + failed + length rooms))
          (λ _. ⊥)
  unfolding moderate_rooms
  moderate_rooms_lem [] success failed log =
      Triple-pure _ λ s h. (h ∙ sym (append-nil log), omega arith)
  moderate_rooms_lem (room ∷ rooms) success failed log =
      Triple-bind {Q = λ _. Logged (log ++ request_for room ∷ [])} _ _
        (Triple-attempt (request_for room) λ a s h. moderated log room s h)
        λ result.
          Triple-then _ _ (notify_lem (log ++ request_for room ∷ []) room (is_ok result)) λ _.
            Triple-weaken _
              (moderate_rooms_lem rooms (if is_ok result then suc success else success)
                (if is_ok result then failed else suc failed) (log ++ request_for room ∷ []))
              (λ s h. h)
              (λ counts s (h, sum). (
                h ∙ append_assoc log (request_for room ∷ []) (map request_for rooms),
                ground (arith, sum),
              ))
              (λ s e. e)

-- the rooms of a command
abbrev pub Distinct : List String → Type 0
Distinct [] = Unit
Distinct (room ∷ rooms) = (member_of rooms room ≡ false) × Distinct rooms

distinct_rooms-absent :
    (seen : List String) (room : String) (rooms : List RoomMapping)
    → member_of seen room ≡ true
    → member_of (distinct_rooms seen rooms) room ≡ false
distinct_rooms-absent seen room [] h = refl
distinct_rooms-absent seen room (r ∷ rooms) h =
    elim (Bool-cases (member_of seen r.matrix_room_id)) [
      | inl again ↦ rw again (distinct_rooms-absent seen room rooms h)
      | inr fresh ↦ elim (Bool-cases (r.matrix_room_id == room)) [
        | inl same ↦ absurd (
            ground (
              arith,
              h,
              subst (λ x. member_of seen x ≡ false) ((eq_iff r.matrix_room_id room).0 same) fresh,
            ))
        | inr other ↦
            rw (fresh, other)
              (distinct_rooms-absent (r.matrix_room_id ∷ seen) room rooms (rw other h))
      ]
    ]

distinct_rooms-Distinct :
    (seen : List String) (rooms : List RoomMapping) → Distinct (distinct_rooms seen rooms)
distinct_rooms-Distinct seen [] = tt
distinct_rooms-Distinct seen (r ∷ rooms) = elim (Bool-cases (member_of seen r.matrix_room_id)) [
  | inl again ↦ rw again (distinct_rooms-Distinct seen rooms)
  | inr fresh ↦ rw fresh (
    distinct_rooms-absent (r.matrix_room_id ∷ seen) r.matrix_room_id rooms
        (rw (eq_refl r.matrix_room_id)),
    distinct_rooms-Distinct (r.matrix_room_id ∷ seen) rooms,
  )
]

abbrev Covered : List String → List String → List RoomMapping → Type 0
Covered seen d rooms =
    All (λ r. (member_of seen r.matrix_room_id || member_of d r.matrix_room_id) ≡ true) rooms

-- each room is in the set or in the result
distinct_rooms-All :
    (seen : List String) (rooms : List RoomMapping) → Covered seen (distinct_rooms seen rooms) rooms
distinct_rooms-All seen [] = tt
distinct_rooms-All seen (r ∷ rooms) = elim (Bool-cases (member_of seen r.matrix_room_id)) [
  | inl again ↦
      let skipped : distinct_rooms seen (r ∷ rooms) ≡ distinct_rooms seen rooms = (rw again) in
      subst (λ d. Covered seen d (r ∷ rooms)) (sym skipped)
        (ground (arith, again), distinct_rooms-All seen rooms)
  | inr fresh ↦
      let kept : distinct_rooms seen (r ∷ rooms)
          ≡ r.matrix_room_id ∷ distinct_rooms (r.matrix_room_id ∷ seen) rooms =
        (rw fresh) in
      subst (λ d. Covered seen d (r ∷ rooms)) (sym kept)
        (
          rw (fresh, eq_refl r.matrix_room_id),
          later rooms (distinct_rooms-All (r.matrix_room_id ∷ seen) rooms),
        )
]
  where
    later :
        (xs : List RoomMapping)
        → All
            (λ x.
              (member_of (r.matrix_room_id ∷ seen) x.matrix_room_id
                || member_of (distinct_rooms (r.matrix_room_id ∷ seen) rooms) x.matrix_room_id)
              ≡ true)
            xs
        → All
            (λ x.
              (member_of seen x.matrix_room_id
                || member_of
                    (r.matrix_room_id ∷ distinct_rooms (r.matrix_room_id ∷ seen) rooms)
                    x.matrix_room_id)
              ≡ true)
            xs
    later [] h = tt
    later (x ∷ xs) (h, hs) = (ground (arith, h), later xs hs)

-- The rooms of a moderation command are distinct, and the room of each of the team's rows is one
-- of them.
pub target_rooms_lem :
    (mapping : RoomMapping) (guild_rooms : List RoomMapping)
    → Distinct (target_rooms mapping guild_rooms)
      × All (λ r. member_of (target_rooms mapping guild_rooms) r.matrix_room_id ≡ true) guild_rooms
target_rooms_lem mapping [] = ((refl, tt), tt)
target_rooms_lem mapping (r ∷ rooms) =
    (distinct_rooms-Distinct [] (r ∷ rooms), distinct_rooms-All [] (r ∷ rooms))
