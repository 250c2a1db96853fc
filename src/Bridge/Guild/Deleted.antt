-- ===== src/Bridge/Guild/Deleted.antt =====
-- The room table after a team is deleted on Slack.
use mathlib.Core.List.{reverse, reverse-cons, append-nil}
use matrix_bridge_slack.Prelude.{
  ℕ, ◌≡◌, refl, sym, ap, subst, ◌∙◌, String, Bool, true, false, Option, none, some, List, [], ◌∷◌,
  ◌++◌, retain, if◌then◌else◌, ◌==◌, eq_iff, eq_refl, All, All-retain, Bool-cases, inl, inr, arith,
}
use matrix_bridge_slack.Db.{
  RoomMapping, any, find, get_room_by_slack_channel, list_room_mappings, delete_room_mapping,
}
use matrix_bridge_slack.Bridge.{Result, ok, err, State, Env, Config}
use matrix_bridge_slack.Bridge.Monad.{M, tick, continue, ◌>>=◌}
use matrix_bridge_slack.Bridge.Triple.{
  Post, Triple, Triple-pure, Triple-query, Triple-write, Triple-with_state, Triple-then,
}
use matrix_bridge_slack.Bridge.Rooms.{
  drop_mapping, add_prefix, set_prefix, delete_found, handle_slack_channel_delete,
}
use matrix_bridge_slack.Bridge.Rooms.Coherent.{Coherent, set_prefix-Keeps}
use matrix_bridge_slack.Bridge.Rooms.Deleted.{handle_slack_channel_delete_lem}
use matrix_bridge_slack.Bridge.Guild.{delete_channels, handle_slack_guild_delete}

-- what every row has, every row that is left has
module _ (P : RoomMapping → Type 0) (config : Config) where
  abbrev Kept : State → Type 0
  Kept s = All P s.rooms.rows

  Kept-stable : (s t : State) → s.rooms ≡ t.rooms → s.room_cache ≡ t.room_cache → Kept s → Kept t
  Kept-stable s t e f h = subst (λ x. All P x.rows) e h

  delete_found-Kept :
      (o : Option RoomMapping) → Triple Kept (delete_found config o) (λ _. Kept) Kept
  unfolding drop_mapping delete_room_mapping
  delete_found-Kept none = Triple-pure tt λ s h. h
  delete_found-Kept (some m) =
      Triple-then _ _
        (set_prefix-Keeps Kept Kept Kept-stable config m.matrix_room_id "m.room.name"
          config.name_prefix)
        λ _.
          Triple-then _ _
            (set_prefix-Keeps Kept Kept Kept-stable config m.matrix_room_id "m.room.topic"
              config.topic_prefix)
            λ _.
              Triple-then _ _ (Triple-write _ tt (λ s h. All-retain P _ s.rooms.rows h) (λ s h. h))
                λ _. Triple-with_state _ λ now s h. h

  delete-Kept :
      (channel : String) → Triple Kept (handle_slack_channel_delete config channel) (λ _. Kept) Kept
  unfolding handle_slack_channel_delete
  delete-Kept channel =
      Triple-then _ _ (Triple-query {Q = λ _. Kept} _ (λ s h. h) (λ s h. h)) delete_found-Kept

module _ {ℓ} {A : Type ℓ} (p : A → Bool) where
  any-append_left : (xs ys : List A) → any p xs ≡ true → any p (xs ++ ys) ≡ true
  any-append_left [] ys h = absurd (ground (arith, h))
  any-append_left (x ∷ xs) ys h = ground (arith, h, any-append_left xs ys)

  any-append_right : (xs ys : List A) → any p ys ≡ true → any p (xs ++ ys) ≡ true
  any-append_right [] ys h = h
  any-append_right (x ∷ xs) ys h = ground (arith, any-append_right xs ys h)

  retain-append : (xs ys : List A) → retain p (xs ++ ys) ≡ retain p xs ++ retain p ys
  retain-append [] ys = refl
  retain-append (x ∷ xs) ys = ground (arith, retain-append xs ys)

-- every row of the team has its channel in the list
abbrev has_channel : RoomMapping → List RoomMapping → Bool
has_channel r ms = any (λ m. m.slack_channel_id == r.slack_channel_id) ms

module _ (team : String) where
  abbrev IsPending : List RoomMapping → RoomMapping → Type 0
  IsPending ms r = (r.slack_team_id == team) ≡ true → has_channel r ms ≡ true

  abbrev Pending : List RoomMapping → List RoomMapping → Type 0
  Pending ms rows = All (IsPending ms) rows

  Pending-append_one :
      (ms : List RoomMapping) (m : RoomMapping) (rows : List RoomMapping)
      → Pending ms rows
      → Pending (ms ++ m ∷ []) rows
  Pending-append_one ms m [] h = tt
  Pending-append_one ms m (r ∷ rows) (h, hs) =
      ((λ t. any-append_left _ ms (m ∷ []) (h t)), Pending-append_one ms m rows hs)

  with_last :
      (b : Bool) (ms rows : List RoomMapping) (r : RoomMapping)
      → (r.slack_team_id == team) ≡ b
      → Pending ms rows
      → Pending (ms ++ (if b then r ∷ [] else [])) (r ∷ rows)
  with_last true ms rows r e h = (
    (λ _. any-append_right _ ms (r ∷ []) (rw (eq_refl r.slack_channel_id) refl)),
    Pending-append_one ms r rows h,
  )
  with_last false ms rows r e h =
      subst (λ x. Pending x (r ∷ rows)) (sym (append-nil ms))
        ((λ t. absurd (ground (arith, t, e))), h)

  -- the list that the handler reads
  Pending-listed :
      (rows : List RoomMapping)
      → Pending (retain (λ m. m.slack_team_id == team) (reverse rows)) rows
  Pending-listed [] = tt
  Pending-listed (r ∷ rows) =
      subst (λ ms. Pending ms (r ∷ rows))
        (sym (
          ap (retain (λ m. m.slack_team_id == team)) (reverse-cons r rows)
          ∙ retain-append _ (reverse rows) (r ∷ [])))
        (with_last (r.slack_team_id == team) _ rows r refl (Pending-listed rows))

  -- a channel without a row need not be deleted
  Pending-drop :
      (m : RoomMapping) (ms rows : List RoomMapping)
      → Pending (m ∷ ms) rows
      → find (λ r. r.slack_channel_id == m.slack_channel_id) rows ≡ none
      → Pending ms rows
  unfolding find
  Pending-drop m ms [] h e = tt
  Pending-drop m ms (r ∷ rows) (h, hs) e =
      let other : (r.slack_channel_id == m.slack_channel_id) ≡ false = ground (arith, e) in
      (
        (λ t. ground (
          arith,
          h t,
          other,
          eq_iff r.slack_channel_id m.slack_channel_id,
          eq_iff m.slack_channel_id r.slack_channel_id,
        )),
        Pending-drop m ms rows hs (ground (arith, e, other)),
      )

  Pending-done :
      (rows : List RoomMapping)
      → Pending [] rows
      → All (λ r. (r.slack_team_id == team) ≡ false) rows
  Pending-done [] h = tt
  Pending-done (r ∷ rows) (h, hs) = (
    elim (Bool-cases (r.slack_team_id == team)) [
      | inl t ↦ absurd (ground (arith, h t))
      | inr f ↦ f
    ],
    Pending-done rows hs,
  )

-- in an environment whose database always answers
module _ (env : Env) (up : (c : ℕ) → env.database c ≡ none) where
  abbrev Succeeds : M Unit → Type 0
  Succeeds m = (s : State) → (m env s).0 ≡ ok tt

  continue-ok :
      (r : Result (Unit {0}) × State) (f : Unit {0} → M Unit)
      → r.0 ≡ ok tt
      → Succeeds (f tt)
      → (continue r.0 f env r.1).0 ≡ ok tt
  continue-ok (ok a, s) f e h = h s
  continue-ok (err x, s) f e h = absurd (ground (arith, e))

  then-Succeeds : (m n : M Unit) → Succeeds m → Succeeds n → Succeeds (m >>= λ _. n)
  unfolding ◌>>=◌
  then-Succeeds m n hm hn s = continue-ok (m env s) (λ _. n) (hm s) hn

  add_prefix-Succeeds :
      (config : Config) (room event_type prefix : String) (o : Result (Option String))
      → Succeeds (add_prefix config room event_type prefix o)
  unfolding ◌>>=◌
  add_prefix-Succeeds config room event_type prefix (ok (some name)) s = refl
  add_prefix-Succeeds config room event_type prefix (ok none) s = refl
  add_prefix-Succeeds config room event_type prefix (err e) s = refl

  set_prefix-Succeeds :
      (config : Config) (room event_type : String) (o : Option String)
      → Succeeds (set_prefix config room event_type o)
  unfolding ◌>>=◌
  set_prefix-Succeeds config room event_type none s = refl
  set_prefix-Succeeds config room event_type (some prefix) s =
      add_prefix-Succeeds config room event_type prefix _ _

  drop_mapping-Succeeds : (id : ℕ) (room : String) → Succeeds (drop_mapping id room)
  unfolding drop_mapping ◌>>=◌
  drop_mapping-Succeeds id room s = rw (up s.clock) refl

  delete_found-Succeeds :
      (config : Config) (o : Option RoomMapping) → Succeeds (delete_found config o)
  unfolding ◌>>=◌
  delete_found-Succeeds config none = λ s. refl
  delete_found-Succeeds config (some m) =
      let name = set_prefix config m.matrix_room_id "m.room.name" config.name_prefix in
      let topic = set_prefix config m.matrix_room_id "m.room.topic" config.topic_prefix in
      let drop = drop_mapping m.id m.matrix_room_id in
      then-Succeeds name (topic >>= λ _. drop)
        (set_prefix-Succeeds config m.matrix_room_id "m.room.name" config.name_prefix)
        (then-Succeeds topic drop
          (set_prefix-Succeeds config m.matrix_room_id "m.room.topic" config.topic_prefix)
          (drop_mapping-Succeeds m.id m.matrix_room_id))

  delete-Succeeds :
      (config : Config) (channel : String) → Succeeds (handle_slack_channel_delete config channel)
  unfolding handle_slack_channel_delete ◌>>=◌
  delete-Succeeds config channel s = rw (up s.clock) (delete_found-Succeeds config _ _)

  Post-ok :
      (Q : Unit {0} → State → Type 0) (E : State → Type 0) (r : Result (Unit {0}) × State)
      → r.0 ≡ ok tt
      → Post Q E r
      → Q tt r.1
  Post-ok Q E (ok a, s) e h = h
  Post-ok Q E (err x, s) e h = absurd (ground (arith, e))

  module _ (config : Config) (team : String) where
    abbrev Gone : Result (Unit {0}) × State → Type 0
    Gone r = (r.0 ≡ ok tt) × All (λ r. (r.slack_team_id == team) ≡ false) r.1.rooms.rows

    delete_channels-Gone :
        (ms : List RoomMapping) (s : State)
        → Coherent s
        → Pending team ms s.rooms.rows
        → Gone (delete_channels config ms env s)
    unfolding delete_channels ◌>>=◌ get_room_by_slack_channel
    delete_channels-Gone [] s c h = (refl, Pending-done team s.rooms.rows h)
    delete_channels-Gone (m ∷ ms) s c h =
        let r = handle_slack_channel_delete config m.slack_channel_id env s in
        let fine = delete-Succeeds config m.slack_channel_id s in
        let (c', none_left) =
          Post-ok _ _ r fine
            ((handle_slack_channel_delete_lem m.slack_channel_id config).at env s c) in
        let kept =
          Post-ok _ _ r fine
            ((delete-Kept (IsPending team (m ∷ ms)) config m.slack_channel_id).at env s h) in
        delete_channels-Gone ms r.1 c' (Pending-drop team m ms r.1.rooms.rows kept none_left)

    -- From a coherent state, where no query fails, whatever Matrix answers,
    -- handle_slack_guild_delete returns without an error and the room table has no row of the
    -- team.
    pub handle_slack_guild_delete-Gone :
        (s : State) → Coherent s → Gone (handle_slack_guild_delete config team env s)
    unfolding handle_slack_guild_delete ◌>>=◌ list_room_mappings
    handle_slack_guild_delete-Gone s c = rw (up s.clock) (
        delete_channels-Gone (retain (λ m. m.slack_team_id == team) (reverse s.rooms.rows)) (tick s)
          c (Pending-listed team s.rooms.rows))
