-- ===== src/UserSync/Registered.antt =====
-- What on_user_update stores.
use mathlib.Core.Option.{some-injective, map as map_option}
use matrix_bridge_slack.Prelude.{
  ℕ, ◌≡◌, ◌⊎◌, inl, inr, refl, ap, ◌∙◌, String, Bool, Option, none, some, List, ◌==◌, if◌then◌else◌,
  arith,
}
use matrix_bridge_slack.Text.{◌⧺◌}
use matrix_bridge_slack.Db.{Table}
use matrix_bridge_slack.Db.Users.{
  UserMapping, HasIds, get_user_by_slack_id, create_user_mapping, update_user_mapping,
  update_user_mapping_zero, get_user-create,
}
use matrix_bridge_slack.Bridge.{State, Env, Config}
use matrix_bridge_slack.Bridge.Monad.{◌>>◌}
use matrix_bridge_slack.Bridge.Triple.{
  Post, Triple, Triple-pure, Triple-query, Triple-write, Triple-try_write, Triple-with_state,
  Triple-bind, Triple-weaken, Triple-known,
}
use matrix_bridge_slack.UserSync.{
  mxid_extra_of, displayname_of, state_for, get_user_update_state, mapping_of, with_users,
  store_user, apply_state_to_profile, update_if_named, on_user_update,
}
use matrix_bridge_slack.UserSync.Keeps.{profile-Keeps, update_if_named-Keeps}

abbrev mxid_of : UserMapping → String
mxid_of r = r.matrix_user_id

-- the Matrix id that the table has for a Slack id
abbrev pub matrix_id : Table UserMapping → String → Option String
matrix_id t k = map_option mxid_of (get_user_by_slack_id t k)

-- what the table is afterwards, by what it had for the user
abbrev pub Synced :
    Table UserMapping → String → String → Option UserMapping → Table UserMapping → Type 0
Synced t id mxid none u =
    (k : String) → matrix_id u k ≡ (if id == k then some mxid else matrix_id t k)
Synced t id mxid (some existing) u = u ≡ t

module _ (config : Config) (t : Table UserMapping) (ids : HasIds t) where
  abbrev Same : State → Type 0
  Same s = s.users ≡ t

  with_users-some :
      (s u : State) (o : Option (Table UserMapping))
      → with_users config s o ≡ some u
      → o ≡ some u.users
  with_users-some s u none e = absurd (ground (arith, e))
  with_users-some s u (some users) e =
      ap some (ap (λ (x : State). x.users) (some-injective (record s { users = users }) u e))

  module _ (slack_user_id extra : String) (name avatar : Option String) where
    abbrev id_of : String
    id_of = slack_user_id ⧺ extra

    abbrev Stored : Option UserMapping → State → Type 0
    Stored o s = Synced t id_of ("@_slack_" ⧺ slack_user_id ⧺ extra ⧺ ":" ⧺ config.domain) o s.users

    abbrev Known : Option UserMapping → State → Type 0
    Known o s = (o ≡ get_user_by_slack_id t id_of) × Same s

    created :
        (s u : State) (m : UserMapping) (k : String)
        → Same s
        → with_users config s (create_user_mapping s.users m) ≡ some u
        → matrix_id u.users k
          ≡ (if m.slack_user_id == k then some m.matrix_user_id else matrix_id t k)
    created s u m k same e =
        rw (get_user-create s.users u.users m (with_users-some s u _ e) k)
          (ground (arith, ap (λ x. matrix_id x k) same))

    store_user-Stored :
        (o : Option UserMapping) (now : ℕ)
        → Triple Same
            (store_user config
              (state_for config slack_user_id extra name avatar o).create_user
              (mapping_of config (state_for config slack_user_id extra name avatar o) now))
            (λ _. Stored o)
            Same
    store_user-Stored none now = Triple-try_write _ tt (λ s u h e k. created s u _ k h e) (λ s h. h)
    store_user-Stored (some existing) now =
        let m =
          mapping_of config (state_for config slack_user_id extra name avatar (some existing))
            now in
        Triple-write _ tt
          (λ s h. ap (λ x. update_user_mapping x m) h ∙ update_user_mapping_zero t m ids refl)
          (λ s h. h)

    abbrev Ended : Option UserMapping → State → Type 0
    Ended o s = Same s ⊎ Stored o s

    apply_state_to_profile-Stored :
        (o : Option UserMapping)
        → Triple Same
            (apply_state_to_profile config (state_for config slack_user_id extra name avatar o))
            (λ _. Stored o)
            (Ended o)
    unfolding apply_state_to_profile
    apply_state_to_profile-Stored o =
        Triple-bind {Q = λ _. Same} _ _ (Triple-with_state _ (λ now s h. h)) λ now.
          Triple-bind _ _
            (Triple-weaken _ (store_user-Stored o now) (λ s h. h) (λ _ s h. h) (λ s h. inl h))
            λ _.
              Triple-weaken _
                (profile-Keeps config
                  (Synced t id_of ("@_slack_" ⧺ slack_user_id ⧺ extra ⧺ ":" ⧺ config.domain) o)
                  (state_for config slack_user_id extra name avatar o))
                (λ s h. h) (λ _ s h. h) (λ s h. inr h)

    module _ (order : List (String × List String) → List (String × List String)) where
      after_lookup :
          (o : Option UserMapping)
          → Triple Same
              (do
                apply_state_to_profile config (state_for config slack_user_id extra name avatar o)
                update_if_named config order (state_for config slack_user_id extra name avatar o))
              (λ _. Stored o)
              (Ended o)
      after_lookup o = Triple-bind _ _ (apply_state_to_profile-Stored o) λ _.
          Triple-weaken _
            (update_if_named-Keeps config
              (Synced t id_of ("@_slack_" ⧺ slack_user_id ⧺ extra ⧺ ":" ⧺ config.domain) o) order
              (state_for config slack_user_id extra name avatar o))
            (λ s h. h) (λ _ s h. h) (λ s h. inr h)

module _ (config : Config) (order : List (String × List String) → List (String × List String))
    (user : String) (name avatar : Option String) (webhook : Bool) where
  -- the id of the row
  abbrev pub row_key : String
  row_key = user ⧺ mxid_extra_of webhook name

  abbrev pub ghost : String
  ghost = "@_slack_" ⧺ user ⧺ mxid_extra_of webhook name ⧺ ":" ⧺ config.domain

  on_user_update-Stored :
      (t : Table UserMapping)
      → HasIds t
      → Triple
          (λ s. s.users ≡ t)
          (on_user_update config order user name avatar webhook)
          (λ _ s. Synced t row_key ghost (get_user_by_slack_id t row_key) s.users)
          (λ s. (s.users ≡ t) ⊎ Synced t row_key ghost (get_user_by_slack_id t row_key) s.users)
  unfolding on_user_update get_user_update_state
  on_user_update-Stored t ids =
      let extra = mxid_extra_of webhook name in
      let state = state_for config user extra (displayname_of config user name) avatar in
      let known = get_user_by_slack_id t row_key in
      Triple-bind {Q = λ x s. (x ≡ state known) × (s.users ≡ t)} _ _
        (Triple-bind {Q = λ o s. (o ≡ known) × (s.users ≡ t)} _ _
          (Triple-query _ (λ s h. (ap (λ x. get_user_by_slack_id x row_key) h, h)) (λ s h. inl h))
          (λ o. Triple-pure (state o) λ s h. (ap state h.0, h.1)))
        λ x.
          Triple-known x (state known)
            (λ y. apply_state_to_profile config y >> update_if_named config order y)
            (after_lookup config t ids user extra (displayname_of config user name) avatar order
              known)

  -- In a user table whose ids and counter are positive: when on_user_update returns, the table is
  -- as it was if the user had a row, and else the user's Slack id, with the webhook's name if it
  -- is one, has the ghost's Matrix id and every other Slack id the one it had. When it fails, the
  -- table is as it was or that.
  pub on_user_update-Synced :
      (env : Env) (s : State)
      → HasIds s.users
      → Post
          (λ _ u. Synced s.users row_key ghost (get_user_by_slack_id s.users row_key) u.users)
          (λ u.
            (u.users ≡ s.users)
            ⊎ Synced s.users row_key ghost (get_user_by_slack_id s.users row_key) u.users)
          (on_user_update config order user name avatar webhook env s)
  on_user_update-Synced env s ids = (on_user_update-Stored s.users ids).at env s refl
