-- ===== src/Command/Matrix/Authorised.antt =====
-- What a request of a Matrix user has established.
use matrix_bridge_slack.Prelude.{
  String, ◌≡◌, refl, Bool, true, false, none, some, List, [], ◌∷◌, arith, Option-cases, inl, inr,
  not, if◌then◌else◌, ◌==◌,
}
use matrix_bridge_slack.Text.{is_blank}
use matrix_bridge_slack.Text.Trim.{NoBlank}
use matrix_bridge_slack.Command.{
  ParsedCommand, parse_prefixed_command, is_command, parse_guild_and_channel,
}
use matrix_bridge_slack.Command.Laws.{is_command-parse_prefixed_command}
use matrix_bridge_slack.Command.Matrix.{
  MatrixCommandPermission, MatrixCommandOutcome, ignored, reply, bridge_requested,
  unbridge_requested, Granted, ok, MatrixCommandHandler, wanted, ensure_permission, unless_refused,
  bridge_outcome, dispatch, handle,
}

-- both ids of a parsed pair are not empty
pub parse_guild_and_channel_lem :
    (args : List String) (guild channel : String)
    → parse_guild_and_channel args ≡ some (guild, channel)
    → (is_blank guild ≡ false) × (is_blank channel ≡ false)
unfolding parse_guild_and_channel
parse_guild_and_channel_lem [] guild channel e = cc
parse_guild_and_channel_lem (word ∷ more) guild channel e = ground arith

module _ (h : MatrixCommandHandler) (bridged : Bool)
    (check : MatrixCommandPermission → Granted) where
  -- The permission was asked for, at the level of the provisioning, and granted.
  abbrev pub IsPermitted : Type 0
  IsPermitted = (h.self_service_enabled ≡ true) × (check (wanted h) ≡ ok true)

  abbrev pub IsAuthorised : MatrixCommandOutcome → Type 0
  IsAuthorised ignored = ⊥
  IsAuthorised (reply text) = Unit {0}
  IsAuthorised (bridge_requested guild channel) =
      IsPermitted × (bridged ≡ false) × (is_blank guild ≡ false) × (is_blank channel ≡ false)
  IsAuthorised unbridge_requested = IsPermitted × (bridged ≡ true)

  record Auth (o : MatrixCommandOutcome) : Type 0 where
    holds : IsAuthorised o

  branch :
      (b : Bool) (x y : MatrixCommandOutcome)
      → (b ≡ true → Auth x)
      → (b ≡ false → Auth y)
      → Auth (if b then x else y)
  branch true x y p q = p refl
  branch false x y p q = q refl

  free : (text : String) → Auth (reply text)
  free text = record { holds = tt }

  unless_refused-Auth :
      (o : MatrixCommandOutcome)
      → (IsPermitted → Auth o)
      → Auth (unless_refused (ensure_permission h check) o)
  unless_refused-Auth o p = elim (Option-cases (ensure_permission h check)) [
    | inl e ↦ rw e (p (permitted e))
    | inr (text, e) ↦ rw e (free text)
  ]
    where
      permitted : ensure_permission h check ≡ none → IsPermitted
      permitted e = unfold ensure_permission in ground arith

  bridge_outcome-Auth :
      (args : List String)
      → IsPermitted
      → bridged ≡ false
      → Auth (bridge_outcome (parse_guild_and_channel args))
  bridge_outcome-Auth args p u = elim (Option-cases (parse_guild_and_channel args)) [
    | inl e ↦ rw e (free _)
    | inr ((guild, channel), e) ↦ rw e (
        let (g, c) = parse_guild_and_channel_lem args guild channel e in
        record { holds = (p, u, g, c) })
  ]

  dispatch-Auth : (parsed : ParsedCommand) → Auth (dispatch h parsed bridged check)
  unfolding dispatch
  dispatch-Auth parsed =
      branch (parsed.command == "help") _ _ (λ _. free _)
        λ _.
          branch (parsed.command == "bridge") _ _
            (λ _.
              unless_refused-Auth _
                λ p. branch bridged _ _ (λ _. free _) (bridge_outcome-Auth parsed.args p))
            λ _.
              branch (parsed.command == "unbridge") _ _
                (λ _. unless_refused-Auth _ λ p.
                  branch (not bridged) _ _ (λ _. free _)
                    (λ e. record { holds = (p, ground arith) }))
                (λ _. free _)

  -- On a message with the handler's prefix, which has no white space, the Matrix command handler
  -- never ignores it, and it asks for a bridge or an unbridge only where self-service is enabled
  -- and the permission check for the provisioning level gave true; a bridge is of a room that is
  -- not bridged, to a team and a channel that are not blank, and an unbridge of a bridged room.
  pub handle-IsPermitted :
      (message : String)
      → NoBlank h.prefix
      → is_command h.prefix message ≡ true
      → IsAuthorised (handle h message bridged check)
  unfolding handle
  handle-IsPermitted message solid typed =
      elim (Option-cases (parse_prefixed_command h.prefix message)) [
        | inl e ↦ absurd (ground (arith, is_command-parse_prefixed_command h.prefix message solid))
        | inr (parsed, e) ↦ rw (e, handle) (dispatch-Auth parsed).holds
      ]
