-- ===== src/Tests/Backfill.antt =====
-- A backfill of a channel whose history has two pages.
use matrix_bridge_slack.Prelude.{
  ℕ, ◌≤◌, ◌≡◌, refl, ap, arith, String, true, false, Option, none, some,
}
use matrix_bridge_slack.Json.{Value, string, bool, array, object, member, end, nil, cons}
use matrix_bridge_slack.Db.{get_by_slack_message_id, find, upsert_message_mapping}
use matrix_bridge_slack.Bridge.{Request, Answer, Result, ok, err, Env, get_conversation_history}
use matrix_bridge_slack.Bridge.Monad.{◌>>=◌}
use matrix_bridge_slack.Bridge.Triple.{Post}
use matrix_bridge_slack.Bridge.Messages.{send_to_matrix_message}
use matrix_bridge_slack.Bridge.Backfill.{
  next_page, backfill_message, extract_backfill_attachments, send_page, send_pages,
  backfill_channel, reply_from,
}
use matrix_bridge_slack.Bridge.Backfill.Limit.{Paged, backfill_channel-total}
use matrix_bridge_slack.Bridge.Backfill.Bridged.{Skipped, backfill-Skipped}
use matrix_bridge_slack.Tests.World.{answers, env, linked, room}

abbrev message : String → String → Value
message ts text =
    object (member "ts" (string ts) (member "user" (string "U1") (member "text" (string text) end)))

abbrev first_page : Value
first_page = object (
    member "messages" (array (cons (message "171.3" "c") (cons (message "171.2" "b") nil))) (
      member "has_more" (bool true)
        (member "response_metadata" (object (member "next_cursor" (string "p2") end)) end)))

abbrev last_page : Value
last_page = object (member "messages" (array (cons (message "171.1" "a") nil)) end)

abbrev pages : (r : Request) → Result (Answer r)
pages (get_conversation_history _ _ none) = ok first_page
pages (get_conversation_history _ _ (some cursor)) = ok last_page
pages r = answers r

abbrev paging : Env
paging = record env { answer = λ _ r. pages r }

abbrev rank : Option String → ℕ
rank none = 1
rank (some cursor) = 0

-- the page behind an answer
abbrev behind : Result Value → Option String
behind (ok history) = next_page (room 1 "!r:example.org") history
behind (err e) = none

paged : Paged (room 1 "!r:example.org") 2 paging rank
paged clock none history next e n = omega arith
paged clock (some cursor) history next e n = absurd (ground (arith, ap behind e, n))

backfill_channel-total_example :
    Post
      (λ o _. (n : ℕ) × (o ≡ some n) × (n ≤ 2))
      (λ _. Unit)
      (backfill_channel (room 1 "!r:example.org") 2 2 paging linked)
backfill_channel-total_example =
    backfill_channel-total (room 1 "!r:example.org") 2 rank 2 paging linked paged (omega arith)

-- the message of the last page is bridged already
sent : (backfill_channel (room 1 "!r:example.org") 2 9 paging linked).0 ≡ ok (some 2)
unfolding backfill_channel send_pages send_page backfill_message ◌>>=◌ get_by_slack_message_id find
    extract_backfill_attachments send_to_matrix_message upsert_message_mapping
sent = refl

sent_up_to_limit : (backfill_channel (room 1 "!r:example.org") 2 1 paging linked).0 ≡ ok (some 1)
unfolding backfill_channel send_pages send_page backfill_message ◌>>=◌ get_by_slack_message_id find
    extract_backfill_attachments send_to_matrix_message
sent_up_to_limit = refl

backfill-Skipped_example :
    Post
      (Skipped linked)
      (Skipped linked false)
      (backfill_message (room 1 "!r:example.org") (message "171.1" "a") env linked)
    × Post
        (Skipped linked)
        (Skipped linked false)
        (reply_from (room 1 "!r:example.org") "170.9" (message "171.1" "a") (some "U1") env linked)
unfolding get_by_slack_message_id find
backfill-Skipped_example =
    backfill-Skipped (room 1 "!r:example.org") "170.9" "171.1" _ (message "171.1" "a") env linked
      refl refl
