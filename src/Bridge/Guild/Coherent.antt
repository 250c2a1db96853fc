-- ===== src/Bridge/Guild/Coherent.antt =====
-- Slack's events of members and of teams, the room table and the cache.
use matrix_bridge_slack.Prelude.{String, Option, none, some, List, [], ◌∷◌}
use matrix_bridge_slack.Json.{or_else}
use matrix_bridge_slack.Db.{RoomMapping}
use matrix_bridge_slack.Db.Users.{UserMapping}
use matrix_bridge_slack.Bridge.{
  Request, Config, ensure_ghost_user_registered, invite_ghost_to_room, kick_ghost_from_room,
  invite_user_to_room, kick_user_from_room, set_ghost_room_roles,
}
use matrix_bridge_slack.Bridge.Monad.{M, pure, attempt, ◌>>=◌}
use matrix_bridge_slack.Bridge.Triple.{
  Triple, Triple-pure, Triple-query, Triple-write, Triple-with_state, Triple-if, Triple-weaken,
  Triple-then, Triple-catch,
}
use matrix_bridge_slack.Bridge.Matrix.{for_some, ghost_user_id}
use matrix_bridge_slack.Bridge.Matrix.Events.{for_some-Keeps, id_fail}
use matrix_bridge_slack.Bridge.Rooms.{find_by_channel}
use matrix_bridge_slack.Bridge.Rooms.Coherent.{Coherent, attempt-Keeps}
use matrix_bridge_slack.Bridge.Rooms.Limit.{Coherent-stable}
use matrix_bridge_slack.Bridge.Rooms.Deleted.{handle_slack_channel_delete_lem}
use matrix_bridge_slack.Bridge.Outgoing.Coherent.{asked, pass}
use matrix_bridge_slack.Bridge.Guild.{
  find_user, store_updated, handle_slack_user_update, sync_roles, handle_slack_guild_member_update,
  guild_rooms, handle_slack_member_joined_channel, handle_slack_member_left_channel,
  handle_slack_channel_marked, delete_channels, handle_slack_guild_delete, unless_disabled,
  add_to_rooms, add_member, handle_slack_guild_member_add, remove_from_rooms,
  handle_slack_guild_member_remove,
}

abbrev Keeps : {A : Type 0} → M A → Type 0
Keeps m = Triple Coherent m (λ _. Coherent) Coherent

done : Keeps (pure tt)
done = Triple-pure tt pass

attempted : (r : Request) (m : M Unit) → Keeps m → Keeps (attempt r >>= λ _. m)
attempted r m h = Triple-then _ _ (attempt-Keeps Coherent Coherent Coherent-stable r) λ _. h

present :
    {A : Type 0} (o : Option A) (f : A → M Unit) → ((a : A) → Keeps (f a)) → Keeps (for_some o f)
present o f h = for_some-Keeps Coherent Coherent Coherent-stable id_fail o f h

in_channel :
    (channel : String) (f : RoomMapping → M Unit)
    → ((m : RoomMapping) → Keeps (f m))
    → Keeps (find_by_channel channel >>= λ o. for_some o f)
in_channel channel f h =
    Triple-then _ _ (Triple-query {Q = λ _. Coherent} _ pass pass) λ o. present o f h

of_user :
    (id : String) (f : UserMapping → M Unit)
    → ((m : UserMapping) → Keeps (f m))
    → Keeps (find_user id >>= λ o. for_some o f)
of_user id f h = Triple-then _ _ (Triple-query {Q = λ _. Coherent} _ pass pass) λ o. present o f h

in_rooms :
    (team : String) (f : List RoomMapping → M Unit)
    → ((ms : List RoomMapping) → Keeps (f ms))
    → Keeps (guild_rooms team >>= f)
in_rooms team f h =
    Triple-then _ _
      (Triple-then _ _ (Triple-query {Q = λ _. Coherent} _ pass pass) λ ms. Triple-pure _ pass) h

store_updated-Coherent : (m : UserMapping) → Keeps (store_updated m)
store_updated-Coherent m =
    Triple-then _ _ (Triple-with_state {Q = λ _. Coherent} _ λ now s h. h)
      λ now. Triple-write _ tt pass pass

pub handle_slack_user_update-Coherent :
    (user name : String) (avatar : Option String)
    → Keeps (handle_slack_user_update user name avatar)
unfolding handle_slack_user_update
handle_slack_user_update-Coherent user name avatar =
    of_user user _
      λ m. store_updated-Coherent (record m { slack_username = name; slack_avatar = avatar })

sync_roles-Coherent :
    (user : String) (roles : List String) (rooms : List RoomMapping)
    → Keeps (sync_roles user roles rooms)
unfolding sync_roles
sync_roles-Coherent user roles [] = done
sync_roles-Coherent user roles (m ∷ ms) =
    attempted (set_ghost_room_roles user m.matrix_room_id roles) _
      (sync_roles-Coherent user roles ms)

pub handle_slack_guild_member_update-Coherent :
    (team user : String) (avatar : Option String) (roles : List String)
    → Keeps (handle_slack_guild_member_update team user avatar roles)
unfolding handle_slack_guild_member_update
handle_slack_guild_member_update-Coherent team user avatar roles = of_user user _ λ m.
    Triple-then _ _
      (store_updated-Coherent (record m { slack_avatar = or_else avatar m.slack_avatar }))
      λ _.
        Triple-then _ _ (Triple-query {Q = λ _. Coherent} _ pass pass)
          λ rooms. sync_roles-Coherent user roles rooms

module _ (config : Config) where
  pub handle_slack_member_joined_channel-Coherent :
      (channel user : String) → Keeps (handle_slack_member_joined_channel config channel user)
  unfolding handle_slack_member_joined_channel
  handle_slack_member_joined_channel-Coherent channel user = in_channel channel _ λ m.
      Triple-if config.disable_join_leave_notifications _ _ (λ _. done)
        (λ _.
          Triple-then _ _ (asked (ensure_ghost_user_registered user none))
            λ _. asked (invite_ghost_to_room user m.matrix_room_id))

  pub handle_slack_member_left_channel-Coherent :
      (channel user : String) → Keeps (handle_slack_member_left_channel config channel user)
  unfolding handle_slack_member_left_channel
  handle_slack_member_left_channel-Coherent channel user = in_channel channel _ λ m.
      Triple-if config.disable_join_leave_notifications _ _ (λ _. done)
        (λ _. asked (kick_ghost_from_room user m.matrix_room_id))

  pub handle_slack_channel_marked-Coherent :
      (channel user : String) → Keeps (handle_slack_channel_marked config channel user)
  unfolding handle_slack_channel_marked
  handle_slack_channel_marked-Coherent channel user = in_channel channel _ λ m.
      Triple-if config.disable_read_receipts _ _ (λ _. done)
        (λ _. asked (ensure_ghost_user_registered user none))

  delete_channels-Coherent : (ms : List RoomMapping) → Keeps (delete_channels config ms)
  unfolding delete_channels
  delete_channels-Coherent [] = done
  delete_channels-Coherent (m ∷ ms) =
      Triple-then _ _
        (Triple-catch _ (
          Triple-weaken _ (handle_slack_channel_delete_lem m.slack_channel_id config) pass
            (λ a s q. q.0) pass))
        λ _. delete_channels-Coherent ms

  pub handle_slack_guild_delete-Coherent :
      (team : String) → Keeps (handle_slack_guild_delete config team)
  unfolding handle_slack_guild_delete
  handle_slack_guild_delete-Coherent team = in_rooms team _ delete_channels-Coherent

  unless_disabled-Coherent :
      (r : Request) → Keeps (unless_disabled config (attempt r >>= λ _. pure tt))
  unless_disabled-Coherent r =
      Triple-if config.disable_join_leave_notifications _ _ (λ _. done)
        (λ _. attempted r (pure tt) done)

  add_to_rooms-Coherent :
      (user : String) (roles : List String) (ms : List RoomMapping)
      → Keeps (add_to_rooms config user roles ms)
  unfolding add_to_rooms
  add_to_rooms-Coherent user roles [] = done
  add_to_rooms-Coherent user roles (m ∷ ms) =
      Triple-then _ _
        (unless_disabled-Coherent
          (invite_user_to_room m.matrix_room_id (ghost_user_id user config.domain)))
        λ _.
          attempted (set_ghost_room_roles user m.matrix_room_id roles) _
            (add_to_rooms-Coherent user roles ms)

  add_member-Coherent :
      (user name : String) (roles : List String) (ms : List RoomMapping)
      → Keeps (add_member config user name roles ms)
  add_member-Coherent user name roles [] = done
  add_member-Coherent user name roles (m ∷ ms) =
      Triple-then _ _ (asked (ensure_ghost_user_registered user (some name)))
        λ _. add_to_rooms-Coherent user roles (m ∷ ms)

  pub handle_slack_guild_member_add-Coherent :
      (team user name : String) (roles : List String)
      → Keeps (handle_slack_guild_member_add config team user name roles)
  unfolding handle_slack_guild_member_add
  handle_slack_guild_member_add-Coherent team user name roles =
      in_rooms team _ (add_member-Coherent user name roles)

  remove_from_rooms-Coherent :
      (user : String) (ms : List RoomMapping) → Keeps (remove_from_rooms config user ms)
  unfolding remove_from_rooms
  remove_from_rooms-Coherent user [] = done
  remove_from_rooms-Coherent user (m ∷ ms) =
      Triple-then _ _
        (unless_disabled-Coherent (
          kick_user_from_room m.matrix_room_id (ghost_user_id user config.domain)
            "Left Slack server"))
        λ _. remove_from_rooms-Coherent user ms

  pub handle_slack_guild_member_remove-Coherent :
      (team user : String) → Keeps (handle_slack_guild_member_remove config team user)
  unfolding handle_slack_guild_member_remove
  handle_slack_guild_member_remove-Coherent team user =
      in_rooms team _ (remove_from_rooms-Coherent user)
