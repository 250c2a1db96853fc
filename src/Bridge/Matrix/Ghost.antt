-- ===== src/Bridge/Matrix/Ghost.antt =====
-- The ids of ghosts, and what is read from them.
use matrix_bridge_slack.Prelude.{
  ◌≡◌, ap, subst, ◌∙◌, String, true, false, some, Bool-cases, Option-cases, inl, inr, arith,
}
use mathlib.Core.Option.{some-injective}
use matrix_bridge_slack.Text.{◌⧺◌, is_blank, strip_prefix, strip_suffix, contains_char}
use matrix_bridge_slack.Text.Prefix.{
  strip_prefix-append, strip_prefix_sound, strip_suffix_sound, strip_suffix-append,
}
use matrix_bridge_slack.Bridge.{Config}
use matrix_bridge_slack.Bridge.Matrix.{
  ghost_user_id, is_namespaced_user, slack_user_id_from_mxid, accept_user_id,
}

pub ghost_user_id-is_namespaced_user :
    (u domain : String) → is_namespaced_user (ghost_user_id u domain) ≡ true
unfolding is_namespaced_user ghost_user_id
ghost_user_id-is_namespaced_user u domain = rw (strip_prefix-append "@_slack_" (u ⧺ ":" ⧺ domain))

-- The Slack user id is read back from the ghost's Matrix id that is made of it, if it is not blank
-- and has no colon.
pub slack_user_id_from_mxid-ghost_user_id :
    (config : Config) (u : String)
    → is_blank u ≡ false
    → contains_char u 58 ≡ false
    → slack_user_id_from_mxid config (ghost_user_id u config.domain) ≡ some u
unfolding slack_user_id_from_mxid ghost_user_id
slack_user_id_from_mxid-ghost_user_id config u blank colon =
    rw (strip_prefix-append "@_slack_" (u ⧺ ":" ⧺ config.domain))
      (rw (strip_suffix-append u (":" ⧺ config.domain)) (rw blank (rw colon)))

accept_user_id_sound :
    (t u : String)
    → accept_user_id t ≡ some u
    → (t ≡ u) × (is_blank u ≡ false) × (contains_char u 58 ≡ false)
accept_user_id_sound t u e = elim (Bool-cases (is_blank t)) [
  | inl blank ↦ absurd (ground (arith, rw blank at e))
  | inr solid ↦ elim (Bool-cases (contains_char t 58)) [
    | inl colon ↦ absurd (ground (arith, rw (solid, colon) at e))
    | inr plain ↦
        let same = some-injective t u (rw (solid, plain) at e) in
        (
          same,
          subst (λ x. is_blank x ≡ false) same solid,
          subst (λ x. contains_char x 58 ≡ false) same plain,
        )
  ]
]

-- A Matrix id from which a Slack user id is read is the ghost's Matrix id for it, and the Slack
-- user id is not blank and has no colon.
pub slack_user_id_from_mxid_sound :
    (config : Config) (mxid u : String)
    → slack_user_id_from_mxid config mxid ≡ some u
    → (mxid ≡ ghost_user_id u config.domain) × (is_blank u ≡ false) × (contains_char u 58 ≡ false)
unfolding slack_user_id_from_mxid ghost_user_id
slack_user_id_from_mxid_sound config mxid u e = elim (Option-cases (strip_prefix mxid "@_slack_")) [
  | inl other ↦ absurd (ground (arith, rw other at e))
  | inr (localpart, after) ↦ elim (Option-cases (strip_suffix localpart (":" ⧺ config.domain))) [
    | inl other ↦ absurd (ground (arith, rw (after, other) at e))
    | inr (t, before) ↦
        let (same, solid, plain) = accept_user_id_sound t u (rw (after, before) at e) in
        (
          strip_prefix_sound mxid "@_slack_" localpart after
              ∙ ap (λ x. "@_slack_" ⧺ x)
                  (strip_suffix_sound localpart (":" ⧺ config.domain) t before
                    ∙ ap (λ x. x ⧺ ":" ⧺ config.domain) same),
          solid,
          plain,
        )
  ]
]
