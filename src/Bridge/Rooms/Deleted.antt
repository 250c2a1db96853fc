-- ===== src/Bridge/Rooms/Deleted.antt =====
-- The room table after Slack deletes a channel.
use matrix_bridge_slack.Prelude.{
  ◌≡◌, refl, sym, ap, subst, ◌∙◌, String, Option, none, some, eq_refl,
}
use mathlib.Core.Option.{map as map_option}
use matrix_bridge_slack.Prelude.Assoc.{string_eq}
use matrix_bridge_slack.Db.{RoomMapping, get_room_by_matrix_room, get_room_by_slack_channel}
use matrix_bridge_slack.Db.Rows.{find-own}
use matrix_bridge_slack.Db.Rooms.{slack_channel-delete, IsValid, delete_room_mapping-IsValid}
use matrix_bridge_slack.Cache.{remove}
use matrix_bridge_slack.Bridge.{State, Config}
use matrix_bridge_slack.Bridge.Triple.{
  Triple, Triple-pure, Triple-query, Triple-write, Triple-with_state, Triple-then, Triple-bind,
}
use matrix_bridge_slack.Bridge.Rooms.{
  find_by_channel, drop_mapping, delete_found, handle_slack_channel_delete,
}
use matrix_bridge_slack.Bridge.Rooms.Cached.{key_of, Cached, Cached-drop}
use matrix_bridge_slack.Bridge.Rooms.Coherent.{Coherent, Read, set_prefix-Keeps}

-- the channel has no row
abbrev pub Deleted : String → State → Type 0
Deleted channel s = Coherent s × (get_room_by_slack_channel s.rooms channel ≡ none)

abbrev pub Found : String → Option RoomMapping → State → Type 0
Found channel o s = Coherent s × (o ≡ get_room_by_slack_channel s.rooms channel)

pub Found-stable :
    (channel : String) (o : Option RoomMapping) (s t : State)
    → s.rooms ≡ t.rooms
    → s.room_cache ≡ t.room_cache
    → Found channel o s
    → Found channel o t
Found-stable channel o s t e f ((v, h), a) = (
  (subst IsValid e v, subst (λ x. Cached x t.room_cache) e (subst (Cached s.rooms) f h)),
  a ∙ ap (λ x. get_room_by_slack_channel x channel) e,
)

module _ (channel : String) where
  pub find_by_channel_lem : Triple Coherent (find_by_channel channel) (Found channel) Coherent
  find_by_channel_lem = Triple-query _ (λ s c. (c, refl)) (λ s c. c)

  Found-Read :
      (s : State) (m : RoomMapping) → Found channel (some m) s → Read m.matrix_room_id (some m) s
  unfolding get_room_by_slack_channel get_room_by_matrix_room
  Found-Read s m ((v, h), e) = (
    (v, h),
    sym (
        ap (map_option key_of) (
          find-own (λ (r : RoomMapping). r.matrix_room_id) (λ (r : RoomMapping). r.id) _
            s.rooms.rows m v.1 (sym e))),
  )

  pub drop-Found :
      (m : RoomMapping)
      → Triple
          (Found channel (some m))
          (drop_mapping m.id m.matrix_room_id)
          (λ _. Deleted channel)
          Coherent
  unfolding drop_mapping
  drop-Found m =
      Triple-bind
        {Q = λ _ s.
          IsValid s.rooms
          × (get_room_by_slack_channel s.rooms channel ≡ none)
          × Cached s.rooms (remove s.room_cache m.matrix_room_id).0}
        _ _
        (Triple-write _ tt
          (λ s ((v, h), e). (
            delete_room_mapping-IsValid s.rooms m.id v,
            rw (slack_channel-delete s.rooms m v channel channel (sym e)) (rw (eq_refl channel)),
            Cached-drop s.rooms s.room_cache m m.matrix_room_id v
                (sym (Found-Read s m ((v, h), e)).1) h,
          ))
          (λ s (c, _). c))
        (λ _. Triple-with_state _ (λ now s (v, gone, h). ((v, h), gone)))

  delete_found_lem :
      (config : Config) (o : Option RoomMapping)
      → Triple (Found channel o) (delete_found config o) (λ _. Deleted channel) Coherent
  delete_found_lem config none = Triple-pure tt λ s (c, e). (c, sym e)
  delete_found_lem config (some m) =
      let P = Found channel (some m) in
      let keep = Found-stable channel (some m) in
      Triple-then _ _
        (set_prefix-Keeps P Coherent keep config m.matrix_room_id "m.room.name" config.name_prefix)
        λ _.
          Triple-then _ _
            (set_prefix-Keeps P Coherent keep config m.matrix_room_id "m.room.topic"
              config.topic_prefix)
            λ _. drop-Found m

  pub handle_slack_channel_delete_lem :
      (config : Config)
      → Triple Coherent (handle_slack_channel_delete config channel) (λ _. Deleted channel) Coherent
  unfolding handle_slack_channel_delete
  handle_slack_channel_delete_lem config =
      Triple-bind _ _ find_by_channel_lem (delete_found_lem config)
