-- ===== src/Provisioning.antt =====
-- bridge/provisioning.rs: the requests that wait for the decision of a Slack channel. The oneshot
-- channel of a request is its number: what was sent on it, and whether its sender is still there.
pub mod Laws
use matrix_bridge_slack.Prelude.{
  ℕ, suc, String, Bool, true, false, Option, none, some, List, [], is_some, eqb, if◌then◌else◌,
}
use matrix_bridge_slack.Prelude.Assoc.{string_eq, lookup, without, insert}
use matrix_bridge_slack.Bridge.{ProvisioningError, timed_out, declined, delivery_failed, cancelled}

pub data ApprovalResponseStatus : Type 0 where
  applied expired : ApprovalResponseStatus

pub record ProvisioningCoordinator : Type 0 where
  -- the sender that a channel's request waits with; to drop it cancels the request
  pub pending : List (String × ℕ)
  -- what was sent
  pub decision : ℕ → Option Bool
  pub next_id : ℕ

unfoldable pub new : ProvisioningCoordinator
new = record { pending = []; decision = λ _. none; next_id = 0 }

-- `ask_bridge_permission` up to its first await: a new request, which replaces one of the channel
unfoldable pub ask : String → ProvisioningCoordinator → ProvisioningCoordinator × ℕ
ask channel_id c = (
  record c { pending = insert channel_id c.next_id c.pending; next_id = suc c.next_id },
  c.next_id,
)

-- the prompt could not be sent, and the same after a timeout
unfoldable pub give_up : String → ProvisioningCoordinator → ProvisioningCoordinator
give_up channel_id c = record c { pending = without channel_id c.pending }

abbrev pub send : ℕ → Bool → (ℕ → Option Bool) → ℕ → Option Bool
send i allow decision j = if eqb i j then some allow else decision j

abbrev pub answer_to :
    String
    → Bool
    → ProvisioningCoordinator
    → Option ℕ
    → ProvisioningCoordinator × ApprovalResponseStatus
answer_to channel_id allow c none = (c, expired)
answer_to channel_id allow c (some i) = (
  record c { pending = without channel_id c.pending; decision = send i allow c.decision },
  applied,
)

unfoldable pub mark_approval :
    String → Bool → ProvisioningCoordinator → ProvisioningCoordinator × ApprovalResponseStatus
mark_approval channel_id allow c = answer_to channel_id allow c (lookup channel_id c.pending)

unfoldable pub has_pending_request : String → ProvisioningCoordinator → Bool
has_pending_request channel_id c = is_some (lookup channel_id c.pending)

abbrev pub is_sender : ℕ → Option ℕ → Bool
is_sender i none = false
is_sender i (some j) = eqb i j

-- the end of `ask_bridge_permission`: `none` while it waits, else its result, where `some none` is `Ok(())`
abbrev pub received : Option Bool → Bool → Option (Option ProvisioningError)
received (some true) waiting = some none
received (some false) waiting = some (some declined)
received none true = none
received none false = some (some cancelled)

unfoldable pub poll : String → ℕ → ProvisioningCoordinator → Option (Option ProvisioningError)
poll channel_id i c = received (c.decision i) (is_sender i (lookup channel_id c.pending))
