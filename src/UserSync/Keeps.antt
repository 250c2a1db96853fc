-- ===== src/UserSync/Keeps.antt =====
-- The requests of on_user_update and the user table.
use matrix_bridge_slack.Prelude.{
  String, Bool, true, false, not, ◌||◌, Option, none, some, List, [], ◌∷◌, is_some, is_empty,
}
use matrix_bridge_slack.Db.{Table, list_room_mappings}
use matrix_bridge_slack.Db.Users.{UserMapping}
use matrix_bridge_slack.Bridge.{
  Request, Result, ok, err, State, Config, ensure_ghost_user_registered, set_ghost_displayname,
  set_ghost_avatar, download_from_url, upload_media_for_ghost, set_ghost_room_displayname,
  set_ghost_room_avatar, set_ghost_room_roles,
}
use matrix_bridge_slack.Bridge.Monad.{M, pure, call, attempt, ◌>>◌}
use matrix_bridge_slack.Bridge.Triple.{
  Triple, Triple-pure, Triple-query, Triple-if, Triple-then, Triple-call, Triple-attempt,
  Triple-catch,
}
use matrix_bridge_slack.UserSync.{
  UserState, upload_avatar_to_matrix, set_displayname, set_uploaded, set_avatar, drop_avatar,
  room_displayname, room_avatar, apply_state_to_room, update_rooms, update_guilds, group_rooms,
  update_state_for_guilds, update_if_named,
}

-- a property of the user table, which no request and no query changes
module _ (config : Config) (U : Table UserMapping → Type 0) where
  abbrev P : State → Type 0
  P s = U s.users

  abbrev Keeps : {A : Type 0} → M A → Type 0
  Keeps m = Triple P m (λ _. P) P

  asked : (q : Request) → Keeps (call q)
  asked q = Triple-call q (λ a s h. h) (λ s h. h)

  tried : (q : Request) → Keeps (attempt q)
  tried q = Triple-attempt q λ a s h. h

  done : Keeps (pure tt)
  done = Triple-pure tt λ s h. h

  pub set_displayname-Keeps :
      (id : String) (o : Option String) → Keeps (set_displayname config id o)
  set_displayname-Keeps id none = done
  set_displayname-Keeps id (some name) =
      Triple-then _ _ (tried (set_ghost_displayname id name)) λ _. done

  upload_avatar_to_matrix-Keeps : (id url : String) → Keeps (upload_avatar_to_matrix config id url)
  unfolding upload_avatar_to_matrix
  upload_avatar_to_matrix-Keeps id url =
      Triple-then (call (download_from_url url)) _ (asked (download_from_url url))
        λ media. asked (upload_media_for_ghost id media)

  set_uploaded-Keeps : (id : String) (r : Result String) → Keeps (set_uploaded config id r)
  set_uploaded-Keeps id (err e) = done
  set_uploaded-Keeps id (ok url) = Triple-then _ _ (tried (set_ghost_avatar id url)) λ _. done

  pub set_avatar-Keeps : (id : String) (o : Option String) → Keeps (set_avatar config id o)
  set_avatar-Keeps id none = done
  set_avatar-Keeps id (some url) =
      Triple-then _ _ (Triple-catch _ (upload_avatar_to_matrix-Keeps id url))
        (set_uploaded-Keeps id)

  pub drop_avatar-Keeps : (id : String) (b : Bool) → Keeps (drop_avatar config id b)
  drop_avatar-Keeps id false = done
  drop_avatar-Keeps id true = Triple-then _ _ (tried (set_ghost_avatar id "")) λ _. done

  room_displayname-Keeps :
      (id room : String) (o : Option String) → Keeps (room_displayname config id room o)
  room_displayname-Keeps id room none = done
  room_displayname-Keeps id room (some name) = asked (set_ghost_room_displayname id room name)

  room_avatar-Keeps : (id room : String) (o : Option String) → Keeps (room_avatar config id room o)
  room_avatar-Keeps id room none = done
  room_avatar-Keeps id room (some url) = asked (set_ghost_room_avatar id room url)

  apply_state_to_room-Keeps :
      (state : UserState) (room : String) → Keeps (apply_state_to_room config state room)
  unfolding apply_state_to_room
  apply_state_to_room-Keeps state room =
      Triple-then _ _ (room_displayname-Keeps state.id room state.displayname) λ _.
        Triple-then _ _ (room_avatar-Keeps state.id room state.avatar_url) λ _.
          Triple-if (not (is_empty state.roles)) _ _
            (λ _. asked (set_ghost_room_roles state.id room state.roles)) (λ _. done)

  update_rooms-Keeps :
      (state : UserState) (rooms : List String) → Keeps (update_rooms config state rooms)
  unfolding update_rooms
  update_rooms-Keeps state [] = done
  update_rooms-Keeps state (room ∷ rooms) =
      Triple-then _ _ (Triple-catch _ (apply_state_to_room-Keeps state room))
        λ _. update_rooms-Keeps state rooms

  update_guilds-Keeps :
      (state : UserState) (groups : List (String × List String))
      → Keeps (update_guilds config state groups)
  unfolding update_guilds
  update_guilds-Keeps state [] = done
  update_guilds-Keeps state ((guild, rooms) ∷ groups) =
      Triple-then _ _ (update_rooms-Keeps state rooms) λ _. update_guilds-Keeps state groups

  module _ (order : List (String × List String) → List (String × List String)) where
    update_state_for_guilds-Keeps :
        (state : UserState) → Keeps (update_state_for_guilds config order state)
    unfolding update_state_for_guilds
    update_state_for_guilds-Keeps state =
        Triple-then _ _
          (Triple-query {Q = λ _. P} (λ s. list_room_mappings s.rooms) (λ s h. h) (λ s h. h))
          λ ms. update_guilds-Keeps state (order (group_rooms config ms []))

    pub update_if_named-Keeps : (state : UserState) → Keeps (update_if_named config order state)
    update_if_named-Keeps state =
        Triple-if (is_some state.displayname || is_some state.avatar_url) _ _
          (λ _. update_state_for_guilds-Keeps state) (λ _. done)

  -- what follows the write of the row
  pub profile-Keeps :
      (state : UserState)
      → Keeps (do
        call (ensure_ghost_user_registered state.id state.displayname)
        set_displayname config state.id state.displayname
        set_avatar config state.id state.avatar_url
        drop_avatar config state.id state.remove_avatar)
  profile-Keeps state =
      Triple-then _ _ (asked (ensure_ghost_user_registered state.id state.displayname)) λ _.
        Triple-then _ _ (set_displayname-Keeps state.id state.displayname) λ _.
          Triple-then _ _ (set_avatar-Keeps state.id state.avatar_url)
            λ _. drop_avatar-Keeps state.id state.remove_avatar
