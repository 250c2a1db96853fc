-- ===== src/Tests/Users.antt =====
-- A user that is seen for the first time, and one that changes its name.
use matrix_bridge_slack.Prelude.{◌≡◌, ◌⊎◌, refl, String, false, some, none, ◌∷◌, [], List, arith}
use matrix_bridge_slack.Text.{strip_prefix}
use matrix_bridge_slack.Formatting.{apply_pattern_string}
use matrix_bridge_slack.Text.Replace.{replace}
use matrix_bridge_slack.Db.{find, list_room_mappings}
use matrix_bridge_slack.Db.Users.{
  UserMapping, HasIds, get_user_by_slack_id, create_user_mapping, update_user_mapping,
}
use matrix_bridge_slack.Bridge.{State}
use matrix_bridge_slack.Bridge.Monad.{◌>>=◌}
use matrix_bridge_slack.Bridge.Triple.{Post}
use matrix_bridge_slack.Bridge.History.{start}
use matrix_bridge_slack.UserSync.{
  sanitize_for_mxid, on_user_update, get_user_update_state, apply_state_to_profile,
  update_state_for_guilds, update_guilds,
}
use matrix_bridge_slack.UserSync.Registered.{
  Synced, row_key, ghost, matrix_id, on_user_update-Synced,
}
use matrix_bridge_slack.Tests.World.{config, env, empty}

abbrev in_order : List (String × List String) → List (String × List String)
in_order groups = groups

abbrev pub ann : UserMapping
ann = record {
  id = 1;
  matrix_user_id = "@_slack_U1:example.org";
  slack_user_id = "U1";
  slack_username = "ann";
  slack_discriminator = "0000";
  slack_avatar = none;
  created_at = 0;
  updated_at = 0;
}

abbrev pub seen : State
seen = record empty { users = record { rows = ann ∷ []; next_id = 2 } }

seen_HasIds : HasIds seen.users
seen_HasIds = ((omega arith, tt), omega arith)

sanitized : sanitize_for_mxid "a b@c.d" ≡ "a_b_c.d"
unfolding sanitize_for_mxid
sanitized = refl

on_user_update-Synced_example :
    Post
      (λ _ u.
        Synced seen.users
          (row_key config in_order "U1" (some "anna") none false)
          (ghost config in_order "U1" (some "anna") none false)
          (get_user_by_slack_id seen.users (row_key config in_order "U1" (some "anna") none false))
          u.users)
      (λ u.
        (u.users ≡ seen.users)
        ⊎ Synced seen.users
            (row_key config in_order "U1" (some "anna") none false)
            (ghost config in_order "U1" (some "anna") none false)
            (get_user_by_slack_id seen.users
              (row_key config in_order "U1" (some "anna") none false))
            u.users)
      (on_user_update config in_order "U1" (some "anna") none false env seen)
on_user_update-Synced_example =
    on_user_update-Synced config in_order "U1" (some "anna") none false env seen seen_HasIds

-- the row keeps the old name
old_name :
    (on_user_update config in_order "U1" (some "anna") none false env seen).1.users ≡ seen.users
unfolding on_user_update get_user_update_state apply_state_to_profile update_state_for_guilds
    update_guilds get_user_by_slack_id find list_room_mappings update_user_mapping start ◌>>=◌
    apply_pattern_string replace strip_prefix
old_name = refl

new_row :
    matrix_id (on_user_update config in_order "U2" (some "bo") none false env seen).1.users "U2"
    ≡ some "@_slack_U2:example.org"
unfolding on_user_update get_user_update_state apply_state_to_profile update_state_for_guilds
    update_guilds get_user_by_slack_id find list_room_mappings create_user_mapping start ◌>>=◌
new_row = refl
