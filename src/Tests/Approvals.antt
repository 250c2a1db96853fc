-- ===== src/Tests/Approvals.antt =====
-- Requests for permission in two channels.
use matrix_bridge_slack.Prelude.{◌≡◌, refl, true, none, some, ◌==◌, if◌then◌else◌}
use matrix_bridge_slack.Prelude.Assoc.{string_eq, lookup, insert, without}
use matrix_bridge_slack.Bridge.{cancelled}
use matrix_bridge_slack.Provisioning.{
  ProvisioningCoordinator, new, ask, give_up, mark_approval, poll, expired,
}
use matrix_bridge_slack.Provisioning.Laws.{
  Reach, begin, next, asked, decided, poll_lem, give_up-ask,
}

abbrev waiting : ProvisioningCoordinator
waiting = (ask "C2" (ask "C1" new).0).0

abbrev waiting_Reach : Reach waiting
waiting_Reach = next (next begin (asked "C1")) (asked "C2")

pending : lookup "C1" waiting.pending ≡ some 0
unfolding ask new lookup insert without
pending = refl

poll_lem_example :
    (poll "C1" 0 waiting ≡ none)
    × (poll "C1" 0 (mark_approval "C1" true waiting).0
        ≡ (if "C1" == "C1" then some (decided true) else none))
    × (poll "C1" 0 (ask "C1" waiting).0 ≡ (if "C1" == "C1" then some (some cancelled) else none))
    × (poll "C1" 0 (give_up "C1" waiting) ≡ (if "C1" == "C1" then some (some cancelled) else none))
poll_lem_example = poll_lem waiting "C1" "C1" 0 true waiting_Reach pending

give_up-ask_example :
    (poll "C1" (ask "C1" (ask "C1" waiting).0).1 (give_up "C1" (ask "C1" (ask "C1" waiting).0).0)
      ≡ some (some cancelled))
    × ((mark_approval "C1" true (give_up "C1" (ask "C1" (ask "C1" waiting).0).0)).1 ≡ expired)
give_up-ask_example = give_up-ask waiting "C1" true waiting_Reach
