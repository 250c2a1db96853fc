-- ===== src/Bridge/Rooms/Coherent.antt =====
-- The handlers that bridge and unbridge, the tables' constraints and the cache.
use matrix_bridge_slack.Prelude.{
  ℕ, ◌≡◌, refl, sym, ap, subst, ◌∙◌, String, Option, none, some, eq_refl, arith, Option-cases, inl,
  inr, ltb, ◌&&◌,
}
use mathlib.Core.Option.{map as map_option}
use matrix_bridge_slack.Prelude.Assoc.{string_eq}
use matrix_bridge_slack.Text.{◌⧺◌}
use matrix_bridge_slack.Db.{RoomMapping, get_room_by_matrix_room}
use matrix_bridge_slack.Db.Rooms.{IsValid, delete_room_mapping-IsValid}
use matrix_bridge_slack.Cache.{get, remove}
use matrix_bridge_slack.Cache.Laws.{get-remove}
use matrix_bridge_slack.Bridge.{
  Request, Result, ok, err, State, Config, send_notice, leave_room, send_state_event,
  get_room_state_event, delete_room_alias, spawn_backfill,
}
use matrix_bridge_slack.Bridge.Monad.{M, logged, pure, call, attempt, ◌>>=◌}
use matrix_bridge_slack.Bridge.Triple.{
  Post, Triple, Triple-pure, Triple-query, Triple-write, Triple-with_state, Triple-if, Triple-then,
  Triple-bind, Triple-call, Triple-attempt,
}
use matrix_bridge_slack.Bridge.Rooms.{
  remember, or_load, get_room_mapping_cached, drop_mapping, backfill_after, add_prefix, set_prefix,
  unset_alias, unbridge_found, unbridge_matrix_room, encrypted, encryption_notice,
  handle_matrix_encryption,
}
use matrix_bridge_slack.Bridge.Rooms.Cached.{
  key_of, mapped, Cached, Cached-get, Cached-insert, Cached-drop, get-drop, room-mapped,
}

abbrev pub Coherent : State → Type 0
Coherent s = IsValid s.rooms × Cached s.rooms s.room_cache

-- a read of the room gave `o`
abbrev pub Read : String → Option RoomMapping → State → Type 0
Read room o s = Coherent s × (map_option key_of o ≡ mapped s.rooms room)

-- neither the table nor the cache has the room
abbrev pub Unbridged : String → State → Type 0
Unbridged room s =
    Coherent s
    × (get_room_by_matrix_room s.rooms room ≡ none)
    × ((now : ℕ) → get now s.room_cache room ≡ none)

module _ (room : String) where
  or_load-Read :
      (cached : Option RoomMapping)
      → Triple
          (λ s.
            Coherent s
            × ((m : RoomMapping) → cached ≡ some m → mapped s.rooms room ≡ some (key_of m)))
          (or_load room cached)
          (Read room)
          Coherent
  or_load-Read (some m) = Triple-pure (some m) λ s (c, h). (c, sym (h m refl))
  or_load-Read none =
      Triple-bind {Q = λ o s. Coherent s × (o ≡ get_room_by_matrix_room s.rooms room)} _ _
        (Triple-query _ (λ s (c, _). (c, refl)) (λ s (c, _). c))
        (λ o.
          Triple-bind {Q = λ _. Read room o} _ _
            (Triple-with_state _ (λ now s (c, e). remembered o now s c e))
            (λ _. Triple-pure o λ s h. h))
    where
      remembered :
          (o : Option RoomMapping) (now : ℕ) (s : State)
          → Coherent s
          → o ≡ get_room_by_matrix_room s.rooms room
          → Read room o (remember room o now s)
      remembered none now s c e = (c, ap (map_option key_of) e)
      remembered (some m) now s (v, h) e =
          ((v, Cached-insert s.rooms s.room_cache now room m h (sym e)), ap (map_option key_of) e)

  -- the cached read gives what the table has
  pub get_room_mapping_cached_lem :
      Triple Coherent (get_room_mapping_cached room) (Read room) Coherent
  unfolding get_room_mapping_cached
  get_room_mapping_cached_lem =
      Triple-bind _ _
        (Triple-with_state _
          (λ now s (v, h). ((v, h), λ m e. Cached-get s.rooms s.room_cache now room m h e)))
        or_load-Read

-- dropping the room's mapping
pub drop_mapping_lem :
    (m : RoomMapping) (room : String)
    → Triple (λ s. Read room (some m) s) (drop_mapping m.id room) (λ _. Unbridged room) Coherent
unfolding drop_mapping
drop_mapping_lem m room =
    Triple-bind
      {Q = λ _ s.
        IsValid s.rooms
        × (get_room_by_matrix_room s.rooms room ≡ none)
        × Cached s.rooms (remove s.room_cache room).0}
      _ _
      (Triple-write _ tt
        (λ s ((v, h), e). (
          delete_room_mapping-IsValid s.rooms m.id v,
          rw (get-drop s.rooms s.room_cache m room v (sym e) room) (rw (eq_refl room)),
          Cached-drop s.rooms s.room_cache m room v (sym e) h,
        ))
        (λ s (c, _). c))
      (λ _. Triple-with_state _ (λ now s (v, gone, h).
        ((v, h), gone, λ later. rw (get-remove s.room_cache room room later) (rw (eq_refl room)))))

-- the handlers name the room by the mapping
drop_own :
    (m : RoomMapping) (room : String)
    → Triple
        (λ s. Read room (some m) s)
        (drop_mapping m.id m.matrix_room_id)
        (λ _. Unbridged room)
        Coherent
drop_own m room = record {
  at = λ env s ((v, h), e).
      let named = room-mapped s.rooms s.room_cache m room (sym e) in
      subst (λ x. Post (λ _. Unbridged room) Coherent (drop_mapping m.id x env s)) (sym named)
        ((drop_mapping_lem m room).at env s ((v, h), e));
}

-- effects that leave the rooms and the cache alone
module _ (P E : State → Type 0)
    (stable : (s t : State) → s.rooms ≡ t.rooms → s.room_cache ≡ t.room_cache → P s → P t) where
  abbrev pub Keeps : {A : Type 0} → M A → Type 0
  Keeps m = Triple P m (λ _. P) E

  pub attempt-Keeps : (r : Request) → Keeps (attempt r)
  attempt-Keeps r = Triple-attempt r λ a s h. stable s (logged r s) refl refl h

  pub call-Keeps : ((s : State) → P s → E s) → (r : Request) → Keeps (call r)
  call-Keeps fail r =
      Triple-call r (λ a s h. stable s (logged r s) refl refl h)
        (λ s h. fail (logged r s) (stable s (logged r s) refl refl h))

  then_done : (r : Request) → Keeps (attempt r >>= λ _. pure tt)
  then_done r = Triple-bind _ _ (attempt-Keeps r) (λ _. Triple-pure tt λ s h. h)

  add_prefix-Keeps :
      (config : Config) (room event_type prefix : String) (o : Result (Option String))
      → Keeps (add_prefix config room event_type prefix o)
  add_prefix-Keeps config room event_type prefix (ok (some name)) =
      then_done (send_state_event room event_type (prefix ⧺ name))
  add_prefix-Keeps config room event_type prefix (ok none) = Triple-pure tt λ s h. h
  add_prefix-Keeps config room event_type prefix (err _) = Triple-pure tt λ s h. h

  pub set_prefix-Keeps :
      (config : Config) (room event_type : String) (o : Option String)
      → Keeps (set_prefix config room event_type o)
  set_prefix-Keeps config room event_type none = Triple-pure tt λ s h. h
  set_prefix-Keeps config room event_type (some prefix) =
      Triple-bind _ _ (attempt-Keeps (get_room_state_event room event_type))
        (add_prefix-Keeps config room event_type prefix)

  pub unset_alias-Keeps : (config : Config) (channel : String) → Keeps (unset_alias config channel)
  unset_alias-Keeps config channel =
      Triple-if config.unset_room_alias _ _
        (λ _.
          then_done
            (delete_room_alias ("#" ⧺ config.room_alias_prefix ⧺ channel ⧺ ":" ⧺ config.domain)))
        (λ _. Triple-pure tt λ s h. h)

  pub backfill_after-Keeps :
      (config : Config) (channel : String) → Keeps (backfill_after config channel)
  backfill_after-Keeps config channel =
      Triple-if (config.backfill_enabled && ltb 0 config.backfill_max_messages) _ _
        (λ _. attempt-Keeps (spawn_backfill channel config.backfill_max_messages))
        (λ _. Triple-pure (ok tt) λ s h. h)

-- `Read` looks at the rooms and at the cache only
Read-stable :
    (room : String) (o : Option RoomMapping) (s t : State)
    → s.rooms ≡ t.rooms
    → s.room_cache ≡ t.room_cache
    → Read room o s
    → Read room o t
Read-stable room o s t e f ((v, h), a) = (
  (subst IsValid e v, subst (λ x. Cached x t.room_cache) e (subst (Cached s.rooms) f h)),
  a ∙ ap (λ x. mapped x room) e,
)

map_option-none : (o : Option RoomMapping) → map_option key_of o ≡ none → o ≡ none
map_option-none none e = refl
map_option-none (some m) e = absurd (ground (arith, e))

-- what the table lacks the cache lacks
uncached :
    (room : String) (s : State)
    → Cached s.rooms s.room_cache
    → get_room_by_matrix_room s.rooms room ≡ none
    → (now : ℕ) → get now s.room_cache room ≡ none
uncached room s h absent now = elim (Option-cases (get now s.room_cache room)) [
  | inl e ↦ e
  | inr (m, e) ↦
      absurd (ground (arith, rw absent at (Cached-get s.rooms s.room_cache now room m h e)))
]

module _ (config : Config) (room : String) where
  unbridge_found_lem :
      (o : Option RoomMapping)
      → Triple (Read room o) (unbridge_found config room o) (λ _. Unbridged room) Coherent
  unbridge_found_lem none = Triple-pure _ λ s ((v, h), a).
      let absent = map_option-none (get_room_by_matrix_room s.rooms room) (sym a) in
      ((v, h), absent, uncached room s h absent)
  unbridge_found_lem (some m) =
      let P = Read room (some m) in
      let keep = Read-stable room (some m) in
      Triple-then _ _
        (set_prefix-Keeps P Coherent keep config room "m.room.name" config.name_prefix)
        λ _.
          Triple-then _ _
            (set_prefix-Keeps P Coherent keep config room "m.room.topic" config.topic_prefix)
            λ _. Triple-then _ _ (unset_alias-Keeps P Coherent keep config m.slack_channel_id) λ _.
              Triple-bind {Q = λ _. Unbridged room} _ _ (drop_own m room)
                λ _. Triple-pure _ λ s h. h

  pub unbridge_matrix_room_lem :
      Triple Coherent (unbridge_matrix_room config room) (λ _. Unbridged room) Coherent
  unfolding unbridge_matrix_room
  unbridge_matrix_room_lem = Triple-bind _ _ (get_room_mapping_cached_lem room) unbridge_found_lem

module _ (room : String) where
  encrypted_lem :
      (o : Option RoomMapping)
      → Triple (Read room o) (encrypted room o) (λ _. Unbridged room) Coherent
  encrypted_lem none = Triple-pure tt λ s ((v, h), a).
      let absent = map_option-none (get_room_by_matrix_room s.rooms room) (sym a) in
      ((v, h), absent, uncached room s h absent)
  encrypted_lem (some m) =
      let P = Read room (some m) in
      let keep = Read-stable room (some m) in
      Triple-then _ _ (call-Keeps P Coherent keep (λ s h. h.0) (send_notice room encryption_notice))
        λ _.
          Triple-then _ _ (call-Keeps P Coherent keep (λ s h. h.0) (leave_room room))
            λ _. drop_mapping_lem m room

  pub handle_matrix_encryption_lem :
      Triple Coherent (handle_matrix_encryption room) (λ _. Unbridged room) Coherent
  unfolding handle_matrix_encryption
  handle_matrix_encryption_lem = Triple-bind _ _ (get_room_mapping_cached_lem room) encrypted_lem
