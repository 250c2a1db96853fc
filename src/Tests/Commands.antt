-- ===== src/Tests/Commands.antt =====
-- The command handlers on what a user types.
use matrix_bridge_slack.Prelude.{◌≡◌, refl, true, some, [], ◌∷◌}
use matrix_bridge_slack.Text.{trim_start, strip_prefix, whitespace_code, join}
use matrix_bridge_slack.Text.Trim.{NoBlank}
use matrix_bridge_slack.Text.Words.{IsWord}
use matrix_bridge_slack.Command.{parse_prefixed_command, is_command}
use matrix_bridge_slack.Command.Laws.{parse_prefixed_command-join}
use matrix_bridge_slack.Command.Slack as S
use matrix_bridge_slack.Command.Slack.Authorised.{IsAuthorised, handle-IsAuthorised}
use matrix_bridge_slack.Command.Matrix as M
use matrix_bridge_slack.Command.Matrix.Authorised as P

NoBlank-prefix : NoBlank "!slack"
unfolding whitespace_code
NoBlank-prefix = (refl, (refl, (refl, (refl, (refl, (refl, tt))))))

IsWord-prefix : IsWord "!matrix"
unfolding whitespace_code
IsWord-prefix = (refl, (refl, (refl, (refl, (refl, (refl, (refl, (refl, tt))))))))

IsWord-kick : IsWord "kick"
unfolding whitespace_code
IsWord-kick = (refl, (refl, (refl, (refl, (refl, tt)))))

IsWord-user : IsWord "@u"
unfolding whitespace_code
IsWord-user = (refl, (refl, (refl, tt)))

parse_prefixed_command-join_example :
    parse_prefixed_command "!matrix" (join " " ("!matrix" ∷ "kick" ∷ "@u" ∷ []))
    ≡ some (record { command = "kick"; args = "@u" ∷ [] })
parse_prefixed_command-join_example =
    parse_prefixed_command-join "!matrix" "kick" ("@u" ∷ []) IsWord-prefix IsWord-kick
      (IsWord-user, tt)

handle-IsAuthorised_example :
    IsAuthorised ("KICK_MEMBERS" ∷ []) true (S.handle "!matrix kick @u" true ("KICK_MEMBERS" ∷ []))
unfolding is_command trim_start strip_prefix whitespace_code
handle-IsAuthorised_example = handle-IsAuthorised "!matrix kick @u" true ("KICK_MEMBERS" ∷ []) refl

abbrev handler : M.MatrixCommandHandler
handler = record { prefix = "!slack"; self_service_enabled = true; provisioning_power_level = 50 }

handle-IsPermitted_example :
    P.IsAuthorised handler true
      (λ _. M.ok true)
      (M.handle handler "!slack unbridge" true (λ _. M.ok true))
unfolding is_command trim_start strip_prefix whitespace_code
handle-IsPermitted_example =
    P.handle-IsPermitted handler true (λ _. M.ok true) "!slack unbridge" NoBlank-prefix refl
