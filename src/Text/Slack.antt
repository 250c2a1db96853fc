-- ===== src/Text/Slack.antt =====
-- parsers/common.rs: Slack's entities, as they are decoded for a Matrix body.
use matrix_bridge_slack.Prelude.{String}
use matrix_bridge_slack.Text.Replace.{replace}

unfoldable pub normalize_slack_text_basic : String → String
unfolding replace
normalize_slack_text_basic text = replace (replace (replace text "&amp;" "&") "&lt;" "<") "&gt;" ">"
