-- ===== src/Blocker.antt =====
-- bridge/blocker.rs: whether the bridge is active, paused by hand, or over its user limit.
pub mod Laws
use Prim.Native.String
use matrix_bridge_slack.Prelude.{
  ℕ, ◌+◌, ◌%◌, ◌^◌, String, Bool, true, false, not, ◌&&◌, Option, none, some, ltb, leb, unwrap_or,
  if◌then◌else◌,
}
use matrix_bridge_slack.Text.{◌⧺◌}

pub data BridgeState : Type 0 where
  active paused limited : BridgeState

pub record BridgeStatus : Type 0 where
  pub state : BridgeState
  pub active_users : ℕ
  pub total_rooms : ℕ
  pub messages_sent : ℕ
  pub messages_received : ℕ
  pub last_check : ℕ
  pub pause_reason : Option String

pub record BridgeBlocker : Type 0 where
  pub status : BridgeStatus
  pub user_limit : ℕ

abbrev pub default_user_limit : ℕ
default_user_limit = 100

abbrev pub is_active : BridgeState → Bool
is_active active = true
is_active _ = false

abbrev pub is_limited : BridgeState → Bool
is_limited limited = true
is_limited _ = false

abbrev pub is_paused : BridgeState → Bool
is_paused paused = true
is_paused _ = false

-- `config.bridge.user_limit`, and `Instant::now()`
unfoldable pub new : Option ℕ → ℕ → BridgeBlocker
new configured now = record {
  status = record {
    state = active;
    active_users = 0;
    total_rooms = 0;
    messages_sent = 0;
    messages_received = 0;
    last_check = now;
    pause_reason = none;
  };
  user_limit = unwrap_or configured default_user_limit;
}

-- The counts come from the database (`none` is its error), before the lock is taken. `show` is
-- how `format!` writes a number.
module _ (show : ℕ → String) where
  abbrev pub limit_reason : ℕ → ℕ → String
  limit_reason active_users user_limit =
      "User limit exceeded: " ⧺ show active_users ⧺ " > " ⧺ show user_limit

  abbrev judge : BridgeStatus → ℕ → BridgeStatus
  judge status user_limit =
      if ltb user_limit status.active_users
      then record status {
        state = limited;
        pause_reason = some (limit_reason status.active_users user_limit);
      }
      else if is_limited status.state && leb status.active_users user_limit
      then record status { state = active; pause_reason = none }
      else status

  unfoldable pub check_and_update :
      ℕ → Option ℕ → Option ℕ → BridgeBlocker → BridgeBlocker × Option BridgeState
  check_and_update now none rooms b = (b, none)
  check_and_update now (some users) none b = (b, none)
  check_and_update now (some users) (some rooms) b =
      let counted = record b.status {
        active_users = users;
        total_rooms = rooms;
        last_check = now;
      } in
      let status' = judge counted b.user_limit in
      (record b { status = status' }, some status'.state)

unfoldable pub pause : String → BridgeBlocker → BridgeBlocker
pause reason b = record b {
  status = record b.status { state = paused; pause_reason = some reason };
}

unfoldable pub resume : BridgeBlocker → BridgeBlocker
resume b = record b { status = record b.status { state = active; pause_reason = none } }

unfoldable pub is_blocked : BridgeBlocker → Bool
is_blocked b = not (is_active b.status.state)

-- a u64 counter
abbrev pub increment : ℕ → ℕ
increment n = (n + 1) % 2 ^ 64

unfoldable pub record_message_sent : BridgeBlocker → BridgeBlocker
record_message_sent b = record b {
  status = record b.status { messages_sent = increment b.status.messages_sent };
}

unfoldable pub record_message_received : BridgeBlocker → BridgeBlocker
record_message_received b = record b {
  status = record b.status { messages_received = increment b.status.messages_received };
}

unfoldable pub should_accept_new_user : BridgeBlocker → Bool
should_accept_new_user b =
    if not (is_active b.status.state) then false else ltb b.status.active_users b.user_limit
