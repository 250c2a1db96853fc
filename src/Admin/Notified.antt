-- ===== src/Admin/Notified.antt =====
-- Which error of a row of errors the administrator hears of.
use matrix_bridge_slack.Prelude.{ℕ, ◌≡◌, ◌⊎◌, String, Option, List, [], ◌∷◌, ◌++◌}
use matrix_bridge_slack.Bridge.{ok, State, Env, create_dm_room, send_notice}
use matrix_bridge_slack.Admin.{AdminConfig, Counted, notify_error}

-- a room was asked for, and if there is one, a notice was sent to it
abbrev pub Asked : String → String → State → State → Type 0
Asked admin message s u =
    (u.calls ≡ s.calls ++ create_dm_room admin ∷ [])
    ⊎ ((room : String) × (u.calls
          ≡ (s.calls ++ create_dm_room admin ∷ []) ++ send_notice room message ∷ []))

module _ (config : AdminConfig) (env : Env) where
  -- one error after the other, each with the count that the one before left
  pub notify_errors : List (String × Option String) → ℕ → State → Counted
  notify_errors [] count s = ((ok tt, s), count)
  notify_errors ((error, context) ∷ errors) count s =
      let r = notify_error config error context count env s in notify_errors errors r.1 r.0.1
