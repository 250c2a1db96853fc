-- ===== src/Command/Slack/Authorised.antt =====
-- What an outcome of the Slack command handler has established, and when there is none.
use matrix_bridge_slack.Prelude.{
  String, ◌≡◌, refl, subst, ◌↔◌, Bool, true, false, some, List, [], ◌∷◌, All, arith, Option-cases,
  inl, inr, Bool-cases, not, if◌then◌else◌, ◌==◌,
}
use matrix_bridge_slack.Text.{is_blank, join, trim, whitespace_code}
use matrix_bridge_slack.Text.Trim.{NoBlank}
use matrix_bridge_slack.Text.Words.{IsWord, trim-join, is_blank-join}
use matrix_bridge_slack.Command.{ParsedCommand, parse_prefixed_command, is_command}
use matrix_bridge_slack.Command.Laws.{
  is_command-parse_prefixed_command, parse_prefixed_command-join,
}
use matrix_bridge_slack.Command.Slack.{
  ModerationAction, kick, ban, unban, SlackCommandOutcome, ignored, reply, approve_requested,
  deny_requested, moderation_requested, unbridge_requested, bridge_requested, prefix, contains,
  action_keyword, dispatch, handle, handle_moderation, handle_bridge, handle_bridge_args,
  has_all_permissions, require,
}

abbrev pub needed_permission : ModerationAction → String
needed_permission kick = "KICK_MEMBERS"
needed_permission ban = "BAN_MEMBERS"
needed_permission unban = "BAN_MEMBERS"

-- The demands of the README on each request, stated without the handler's control flow.
abbrev pub IsAuthorised : List String → Bool → SlackCommandOutcome → Type 0
IsAuthorised granted bridged ignored = ⊥
IsAuthorised granted bridged (reply text) = Unit {0}
IsAuthorised granted bridged approve_requested = contains granted "MANAGE_WEBHOOKS" ≡ true
IsAuthorised granted bridged deny_requested = contains granted "MANAGE_WEBHOOKS" ≡ true
IsAuthorised granted bridged (moderation_requested action user) =
    (contains granted (needed_permission action) ≡ true) × (is_blank user ≡ false)
IsAuthorised granted bridged unbridge_requested =
    (contains granted "MANAGE_WEBHOOKS" ≡ true)
    × (contains granted "MANAGE_CHANNELS" ≡ true)
    × (bridged ≡ true)
IsAuthorised granted bridged (bridge_requested guild channel) =
    (contains granted "MANAGE_WEBHOOKS" ≡ true)
    × (contains granted "MANAGE_CHANNELS" ≡ true)
    × (bridged ≡ false)

module _ (granted : List String) (bridged : Bool) where
  record Auth (o : SlackCommandOutcome) : Type 0 where
    holds : IsAuthorised granted bridged o

  branch :
      (b : Bool) (x y : SlackCommandOutcome)
      → (b ≡ true → Auth x)
      → (b ≡ false → Auth y)
      → Auth (if b then x else y)
  branch true x y h k = h refl
  branch false x y h k = k refl

  free : (text : String) → Auth (reply text)
  free text = record { holds = tt }

  require-Auth :
      (needed : List String) (o : SlackCommandOutcome)
      → (has_all_permissions granted needed ≡ true → Auth o)
      → Auth (require granted needed o)
  require-Auth needed o h =
      branch (not (has_all_permissions granted needed)) _ _ (λ _. free _) (λ e. h (ground arith))

  handle_bridge_args-Auth :
      (args : List String)
      → has_all_permissions granted ("MANAGE_WEBHOOKS" ∷ "MANAGE_CHANNELS" ∷ []) ≡ true
      → bridged ≡ false
      → Auth (handle_bridge_args args)
  unfolding handle_bridge_args
  handle_bridge_args-Auth (guild ∷ channel ∷ more) h e = record {
    holds = (ground arith, ground arith, e);
  }
  handle_bridge_args-Auth _ h e = free _

  handle_bridge-Auth : (args : List String) → Auth (handle_bridge args granted bridged)
  unfolding handle_bridge
  handle_bridge-Auth args =
      require-Auth ("MANAGE_WEBHOOKS" ∷ "MANAGE_CHANNELS" ∷ []) _
        (λ h. branch bridged _ _ (λ _. free _) (λ e. handle_bridge_args-Auth args h e))

  unbridge-Auth :
      has_all_permissions granted ("MANAGE_WEBHOOKS" ∷ "MANAGE_CHANNELS" ∷ []) ≡ true
      → Auth (
          if not bridged
          then reply "This channel is not bridged to a plumbed matrix room"
          else unbridge_requested)
  unbridge-Auth h =
      branch (not bridged) _ _ (λ _. free _)
        (λ e. record { holds = (ground arith, ground arith, ground arith) })

  handle_moderation-Auth :
      (args : List String) (action : ModerationAction)
      → Auth (handle_moderation args granted (needed_permission action) action)
  unfolding handle_moderation
  handle_moderation-Auth args action = require-Auth (needed_permission action ∷ []) _ (λ h.
      branch (is_blank (trim (join " " args))) _ _ (λ _. free _)
        (λ e. record { holds = (ground arith, e) }))

  dispatch-Auth : (parsed : ParsedCommand) → Auth (dispatch parsed bridged granted)
  unfolding dispatch
  dispatch-Auth parsed =
      branch (parsed.command == "help") _ _ (λ _. free _)
        λ _.
          branch (parsed.command == "approve") _ _
            (λ _.
              require-Auth ("MANAGE_WEBHOOKS" ∷ []) approve_requested
                λ h. record { holds = ground arith })
            λ _.
              branch (parsed.command == "deny") _ _
                (λ _.
                  require-Auth ("MANAGE_WEBHOOKS" ∷ []) deny_requested
                    λ h. record { holds = ground arith })
                λ _.
                  branch (parsed.command == "bridge") _ _ (λ _. handle_bridge-Auth parsed.args)
                    λ _.
                      branch (parsed.command == "unbridge") _ _
                        (λ _.
                          require-Auth ("MANAGE_WEBHOOKS" ∷ "MANAGE_CHANNELS" ∷ []) _ unbridge-Auth)
                        λ _.
                          branch (parsed.command == "kick") _ _
                            (λ _. handle_moderation-Auth parsed.args kick)
                            λ _.
                              branch (parsed.command == "ban") _ _
                                (λ _. handle_moderation-Auth parsed.args ban)
                                λ _.
                                  branch (parsed.command == "unban") _ _
                                    (λ _. handle_moderation-Auth parsed.args unban) (λ _. free _)

prefix-NoBlank : NoBlank prefix
unfolding whitespace_code
prefix-NoBlank = (refl, (refl, (refl, (refl, (refl, (refl, (refl, tt)))))))

parsed_of_command :
    (message : String)
    → is_command prefix message ≡ true
    → (parsed : ParsedCommand) × (parse_prefixed_command prefix message ≡ some parsed)
parsed_of_command message h = elim (Option-cases (parse_prefixed_command prefix message)) [
  | inl e ↦ absurd (ground (arith, is_command-parse_prefixed_command prefix message prefix-NoBlank))
  | inr found ↦ found
]

-- On a message with the prefix, the Slack command handler never ignores it, and what it asks for
-- is permitted: an approval or a denial has MANAGE_WEBHOOKS, a kick has KICK_MEMBERS, a ban and an
-- unban have BAN_MEMBERS and a user that is not blank, an unbridge has both managing permissions
-- and a bridged channel, and a bridge has both and a channel that is not bridged.
pub handle-IsAuthorised :
    (message : String) (bridged : Bool) (granted : List String)
    → is_command prefix message ≡ true
    → IsAuthorised granted bridged (handle message bridged granted)
unfolding handle
handle-IsAuthorised message bridged granted h =
    let (parsed, e) = parsed_of_command message h in
    rw (e, handle) (dispatch-Auth granted bridged parsed).holds

handle_not_command :
    (message : String) (bridged : Bool) (granted : List String)
    → is_command prefix message ≡ false
    → handle message bridged granted ≡ ignored
unfolding handle
handle_not_command message bridged granted h =
    elim (Option-cases (parse_prefixed_command prefix message)) [
      | inl e ↦ rw (e, handle)
      | inr (parsed, e) ↦
          absurd (ground (arith, is_command-parse_prefixed_command prefix message prefix-NoBlank))
    ]

-- The Slack command handler ignores a message exactly when the message does not have the prefix.
pub handle-eq-ignored_iff :
    (message : String) (bridged : Bool) (granted : List String)
    → (handle message bridged granted ≡ ignored) ↔ (is_command prefix message ≡ false)
handle-eq-ignored_iff message bridged granted = (
  λ e. elim (Bool-cases (is_command prefix message)) [
    | inl h ↦
        absurd
          (subst (IsAuthorised granted bridged) e (handle-IsAuthorised message bridged granted h))
    | inr h ↦ h
  ],
  handle_not_command message bridged granted,
)

action_keyword-IsWord : (action : ModerationAction) → IsWord (action_keyword action)
unfolding whitespace_code
action_keyword-IsWord kick = (refl, (refl, (refl, (refl, (refl, tt)))))
action_keyword-IsWord ban = (refl, (refl, (refl, (refl, tt))))
action_keyword-IsWord unban = (refl, (refl, (refl, (refl, (refl, (refl, tt))))))

handle_moderation_granted :
    (word : String) (words granted : List String) (needed : String) (action : ModerationAction)
    → IsWord word
    → All IsWord words
    → contains granted needed ≡ true
    → handle_moderation (word ∷ words) granted needed action
      ≡ moderation_requested action (join " " (word ∷ words))
unfolding handle_moderation
handle_moderation_granted word words granted needed action h hs g =
    rw g (rw (trim-join word words h hs) (rw (is_blank-join word words h)))

-- A moderation command for a user name of one or more words, joined by spaces, is a request to
-- moderate that name, for a sender who has the permission of the action.
pub handle-moderation :
    (action : ModerationAction) (word : String) (words : List String) (bridged : Bool)
    (granted : List String)
    → IsWord word
    → All IsWord words
    → contains granted (needed_permission action) ≡ true
    → handle (join " " (prefix ∷ action_keyword action ∷ word ∷ words)) bridged granted
      ≡ moderation_requested action (join " " (word ∷ words))
unfolding handle dispatch
handle-moderation action word words bridged granted h hs g = rw (typed, handle) (chosen action g)
  where
    typed :
        parse_prefixed_command prefix (join " " (prefix ∷ action_keyword action ∷ word ∷ words))
        ≡ some (record { command = action_keyword action; args = word ∷ words })
    typed =
        parse_prefixed_command-join prefix (action_keyword action) (word ∷ words)
          (refl, prefix-NoBlank) (action_keyword-IsWord action) (h, hs)

    chosen :
        (a : ModerationAction)
        → contains granted (needed_permission a) ≡ true
        → dispatch (record { command = action_keyword a; args = word ∷ words }) bridged granted
          ≡ moderation_requested a (join " " (word ∷ words))
    chosen kick k = handle_moderation_granted word words granted "KICK_MEMBERS" kick h hs k
    chosen ban k = handle_moderation_granted word words granted "BAN_MEMBERS" ban h hs k
    chosen unban k = handle_moderation_granted word words granted "BAN_MEMBERS" unban h hs k
