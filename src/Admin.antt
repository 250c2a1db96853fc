-- ===== src/Admin.antt =====
-- admin.rs: the notices that the bridge's administrator gets, and the count of the errors between two.
pub mod Notified
use matrix_bridge_slack.Prelude.{
  ℕ, suc, ◌+◌, ◌%◌, ◌^◌, String, Bool, true, false, not, Option, none, some, is_some, ltb,
  if◌then◌else◌,
}
use matrix_bridge_slack.Text.{◌⧺◌}
use matrix_bridge_slack.Text.Decimal.{show_ℕ}
use matrix_bridge_slack.Bridge.{Result, ok, err, State, Env, create_dm_room, send_notice}
use matrix_bridge_slack.Bridge.Monad.{M, pure, call, ◌>>=◌, ◌>>◌}

pub record AdminConfig : Type 0 where
  pub admin_mxid : Option String
  pub notify_on_token_invalid : Bool
  pub notify_on_errors : Bool
  pub error_threshold : ℕ

abbrev pub default : AdminConfig
default = record {
  admin_mxid = none;
  notify_on_token_invalid = true;
  notify_on_errors = true;
  error_threshold = 5;
}

-- `AdminNotifier::from_config`, of `bridge.admin_mxid`
abbrev pub from_config : Option String → AdminConfig
from_config admin_mxid = record default { admin_mxid = admin_mxid }

abbrev pub send_admin_message : String → String → M Unit
send_admin_message admin_mxid message = do
  room_id ← call (create_dm_room admin_mxid)
  call (send_notice room_id message)

-- with an administrator only
abbrev pub to_admin : Option String → String → M Unit
to_admin none message = pure tt
to_admin (some admin_mxid) message = send_admin_message admin_mxid message

abbrev pub with_context : Option String → String
with_context none = ""
with_context (some ctx) = "\nContext: " ⧺ ctx

abbrev pub error_message : String → Option String → ℕ → String
error_message error context count =
    "⚠\u{fe0f} **Bridge Error**\n\nError: "
    ⧺ error
    ⧺ with_context context
    ⧺ "\n\nThis is error #"
    ⧺ show_ℕ count
    ⧺ " since the last notification."

-- how a call ended, and the count afterwards
abbrev pub Counted : Type 0
Counted = (Result (Unit {0}) × State) × ℕ

module _ (config : AdminConfig) where
  abbrev pub notify_token_invalid : M Unit
  notify_token_invalid =
      if not config.notify_on_token_invalid
      then pure tt
      else to_admin config.admin_mxid
          "⚠\u{fe0f} **Slack Bot Token Invalid**\n\nYour Slack bot token appears to be invalid. The bridge cannot function properly.\n\nPlease update your bot token in the configuration and restart the bridge."

  -- the count after a notice: it is reset where the notice was sent
  abbrev pub reset_if_sent : ℕ → Result (Unit {0}) × State → Counted
  reset_if_sent counted (ok a, s) = ((ok a, s), 0)
  reset_if_sent counted (err e, s) = ((err e, s), counted)

  abbrev pub notify_counted : Option String → String → Option String → ℕ → ℕ → Env → State → Counted
  notify_counted none error context count counted env s = ((ok tt, s), counted)
  notify_counted (some admin_mxid) error context count counted env s =
      reset_if_sent counted
        (send_admin_message admin_mxid (error_message error context count) env s)

  -- `error_count` is a u32 beside the state: `fetch_add` wraps, and gives the count before
  unfoldable pub notify_error : String → Option String → ℕ → Env → State → Counted
  notify_error error context count env s =
      let counted = (count + 1) % 2 ^ 32 in
      if not config.notify_on_errors
      then ((ok tt, s), count)
      else if ltb count config.error_threshold
      then ((ok tt, s), counted)
      else notify_counted config.admin_mxid error context count counted env s

  abbrev pub notify_bridge_paused : String → M Unit
  notify_bridge_paused reason =
      to_admin config.admin_mxid
        ("⏸\u{fe0f} **Bridge Paused**\n\nThe bridge has been paused.\n\nReason: " ⧺ reason)

  abbrev pub notify_bridge_resumed : M Unit
  notify_bridge_resumed =
      to_admin config.admin_mxid
        "▶\u{fe0f} **Bridge Resumed**\n\nThe bridge has been resumed and is now active."

  abbrev pub notify_user_limit_reached : ℕ → ℕ → M Unit
  notify_user_limit_reached current limit = to_admin config.admin_mxid (
      "📊 **User Limit Reached**\n\nThe bridge has reached its user limit.\n\nCurrent users: "
      ⧺ show_ℕ current
      ⧺ "\nLimit: "
      ⧺ show_ℕ limit)

  abbrev pub has_admin_configured : Bool
  has_admin_configured = is_some config.admin_mxid

-- `reset_error_count`
abbrev pub reset_error_count : ℕ → ℕ
reset_error_count count = 0
