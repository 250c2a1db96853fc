-- ===== src/Bridge/Backfill.antt =====
-- bridge/backfill.rs: the earlier messages of a channel and the replies of a thread.
pub mod Limit
pub mod Bridged
pub mod Coherent
use matrix_bridge_slack.Prelude.{
  ℕ, zero, suc, ◌+◌, ◌^◌, String, Bool, true, false, not, ◌&&◌, ◌||◌, Option, none, some, List, [],
  ◌∷◌, unwrap_or, is_some, ltb, leb, eqb, ◌==◌, if◌then◌else◌,
}
use matrix_bridge_slack.Text.{is_blank}
use matrix_bridge_slack.Text.Slack.{normalize_slack_text_basic}
use matrix_bridge_slack.Json.{
  Value, Values, nil, cons, get, get_str, as_array, as_bool, and_then, or_else,
}
use matrix_bridge_slack.Db.{RoomMapping, MessageMapping}
use matrix_bridge_slack.MessageFlow.{OutboundMatrixMessage}
use matrix_bridge_slack.Bridge.{
  Result, ok, err, get_conversation_history, get_conversation_replies, ensure_ghost_user_registered,
}
use matrix_bridge_slack.Bridge.Monad.{M, pure, call, catch, ◌>>=◌, ◌>>◌}
use matrix_bridge_slack.Bridge.Slack.{message_by_slack}
use matrix_bridge_slack.Bridge.Messages.{remember_message, send_outbound, send_to_matrix_message}

abbrev pub messages_of : Value → Values
messages_of history = unwrap_or (and_then (get "messages" history) as_array) nil

abbrev reverse_onto : Values → Values → Values
reverse_onto nil out = out
reverse_onto (cons v vs) out = reverse_onto vs (cons v out)

abbrev pub link_of : Value → Option String
link_of file = or_else (get_str "permalink_public" file) (
    or_else (get_str "permalink" file)
      (or_else (get_str "url_private_download" file) (get_str "url_private" file)))

abbrev push_link : Option String → List String → List String
push_link none output = output
push_link (some link) output = link ∷ output

abbrev links_of : Values → List String
links_of nil = []
links_of (cons file files) = push_link (link_of file) (links_of files)

unfoldable pub extract_backfill_attachments : Value → List String
extract_backfill_attachments message =
    links_of (unwrap_or (and_then (get "files" message) as_array) nil)

-- the subtypes that are no messages
abbrev pub is_notice : Option String → Bool
is_notice none = false
is_notice (some subtype) =
    subtype == "channel_join"
    || subtype == "channel_leave"
    || subtype == "channel_topic"
    || subtype == "channel_purpose"
    || subtype == "channel_name"

-- whether the message is bridged already
abbrev pub is_bridged : Option String → M Bool
is_bridged none = pure false
is_bridged (some ts) = do link ← message_by_slack ts; pure (is_some link)

-- a thread that the message does not start
abbrev pub thread_of : Option String → Option String → Option String
thread_of none ts = none
thread_of (some thread) none = none
thread_of (some thread) (some t) = if thread == t then none else some thread

abbrev pub outbound : Value → Option String → OutboundMatrixMessage
outbound msg reply_to = record {
  body = normalize_slack_text_basic (unwrap_or (get_str "text" msg) "");
  formatted_body = none;
  reply_to = reply_to;
  edit_of = none;
  attachments = extract_backfill_attachments msg;
}

-- what is stored once the message is sent: whether it counts
abbrev pub count_sent : Option String → String → Result String → M Bool
count_sent ts room (err _) = pure false
count_sent ts room (ok event_id) = do _ ← catch (remember_message ts room event_id); pure true

module _ (mapping : RoomMapping) where
  abbrev pub send_new : Value → String → Option String → Bool → M Bool
  send_new msg sender_id ts true = pure false
  send_new msg sender_id ts false = do
    ensure ← call (ensure_ghost_user_registered sender_id none)
    event ← catch (
        send_outbound mapping.matrix_room_id sender_id
          (outbound msg (thread_of (get_str "thread_ts" msg) ts)))
    count_sent ts mapping.matrix_room_id event

  abbrev pub from_sender : Value → Option String → M Bool
  from_sender msg none = pure false
  from_sender msg (some sender_id) =
      if is_blank (unwrap_or (get_str "text" msg) "") && not (is_some (get "files" msg))
      then pure false
      else (do
        bridged ← is_bridged (get_str "ts" msg)
        send_new msg sender_id (get_str "ts" msg) bridged)

  -- one round of the loop: whether a message was sent
  unfoldable pub backfill_message : Value → M Bool
  backfill_message msg =
      if is_notice (get_str "subtype" msg) then pure false else from_sender msg (get_str "user" msg)

  -- `total_sent += 1`, a u32
  abbrev pub add_sent : Bool → ℕ → ℕ
  add_sent sent total = if sent then total + 1 else total

  unfoldable pub send_page : ℕ → ℕ → Values → M ℕ
  send_page max_messages total nil = pure total
  send_page max_messages total (cons msg more) =
      if leb max_messages total
      then pure total
      else (do sent ← backfill_message msg; send_page max_messages (add_sent sent total) more)

  -- the cursor of the next page, if there is one
  abbrev pub solid : String → Option String
  solid cursor = if is_blank cursor then none else some cursor

  abbrev pub next_page : Value → Option String
  next_page history =
      if unwrap_or (and_then (get "has_more" history) as_bool) false
      then and_then (and_then (get "response_metadata" history) (get_str "next_cursor")) solid
      else none

  abbrev pub batch_size : ℕ → ℕ
  batch_size remaining = if ltb remaining 100 then remaining else 100

  -- what follows the messages of a page; `again` is the next round of the loop
  abbrev pub go_on : (Option String → ℕ → M (Option ℕ)) → ℕ → Option String → M (Option ℕ)
  go_on again total none = pure (some total)
  go_on again total (some cursor) = again (some cursor) total

  abbrev pub on_page : (Option String → ℕ → M (Option ℕ)) → ℕ → ℕ → Value → Values → M (Option ℕ)
  on_page again max_messages total history nil = pure (some total)
  on_page again max_messages total history (cons msg more) = do
    total' ← send_page max_messages total (reverse_onto (cons msg more) nil)
    if leb max_messages total' then pure (some total') else go_on again total' (next_page history)

  -- the loop over the pages; `none` is a loop that has not ended with the fuel
  unfoldable pub send_pages : ℕ → ℕ → Option String → ℕ → M (Option ℕ)
  send_pages zero max_messages cursor total = pure none
  send_pages (suc fuel) max_messages cursor total = do
    history ←
        call (get_conversation_history mapping.slack_channel_id (batch_size max_messages) cursor)
    on_page (send_pages fuel max_messages) max_messages total history (messages_of history)

  unfoldable pub backfill_channel : ℕ → ℕ → M (Option ℕ)
  backfill_channel fuel max_messages =
      if eqb max_messages 0 then pure (some 0) else send_pages fuel max_messages none 0

  module _ (thread_ts : String) where
    -- a reply, or the message that starts the thread
    abbrev pub root_of : Option String → Option String
    root_of none = some thread_ts
    root_of (some ts) = if ts == thread_ts then none else some thread_ts

    abbrev pub send_reply : Value → String → Option String → Bool → M Bool
    send_reply msg sender_id ts true = pure false
    send_reply msg sender_id ts false = do
      ensure ← call (ensure_ghost_user_registered sender_id none)
      event ←
          catch
            (send_to_matrix_message mapping.matrix_room_id sender_id (outbound msg (root_of ts)))
      count_sent ts mapping.matrix_room_id event

    abbrev pub reply_from : Value → Option String → M Bool
    reply_from msg none = pure false
    reply_from msg (some sender_id) =
        if is_blank (unwrap_or (get_str "text" msg) "") then pure false else (do
          bridged ← is_bridged (get_str "ts" msg)
          send_reply msg sender_id (get_str "ts" msg) bridged)

    unfoldable pub send_replies : ℕ → Values → M ℕ
    send_replies total nil = pure total
    send_replies total (cons msg more) = do
      sent ← reply_from msg (get_str "user" msg)
      send_replies (add_sent sent total) more

    unfoldable pub backfill_thread : ℕ → M ℕ
    backfill_thread max_messages = do
      replies ← call (get_conversation_replies mapping.slack_channel_id thread_ts max_messages)
      send_replies 0 (messages_of replies)
