-- ===== src/Bridge/Backfill/Coherent.antt =====
-- A backfill, the room table and the cache.
use matrix_bridge_slack.Prelude.{
  ℕ, zero, suc, String, Bool, true, false, not, ◌&&◌, Option, none, some, is_some, unwrap_or, leb,
  eqb,
}
use matrix_bridge_slack.Text.{is_blank}
use matrix_bridge_slack.Json.{Value, Values, nil, cons, get, get_str}
use matrix_bridge_slack.Db.{RoomMapping}
use matrix_bridge_slack.MessageFlow.{render_body}
use matrix_bridge_slack.Bridge.Messages.{send_to_matrix_message}
use matrix_bridge_slack.Bridge.{
  send_message_with_metadata, Result, ok, err, ensure_ghost_user_registered,
  get_conversation_history, get_conversation_replies,
}
use matrix_bridge_slack.Bridge.Monad.{M, pure}
use matrix_bridge_slack.Bridge.Triple.{
  Triple, Triple-pure, Triple-query, Triple-if, Triple-then, Triple-catch,
}
use matrix_bridge_slack.Bridge.Rooms.Coherent.{Coherent}
use matrix_bridge_slack.Bridge.Messages.Keeps as K
use matrix_bridge_slack.Bridge.Outgoing.Coherent.{asked, pass, remember_message-Coherent}
use matrix_bridge_slack.Bridge.Backfill.{
  messages_of, is_notice, is_bridged, thread_of, outbound, count_sent, send_new, from_sender,
  backfill_message, add_sent, send_page, next_page, batch_size, go_on, on_page, send_pages,
  backfill_channel, root_of, send_reply, reply_from, send_replies, backfill_thread,
}

abbrev Keeps : {A : Type 0} → M A → Type 0
Keeps m = Triple Coherent m (λ _. Coherent) Coherent

same : {A : Type 0} (a : A) → Keeps (pure a)
same a = Triple-pure a pass

is_bridged-Coherent : (ts : Option String) → Keeps (is_bridged ts)
is_bridged-Coherent none = same false
is_bridged-Coherent (some ts) =
    Triple-then _ _ (Triple-query {Q = λ _. Coherent} _ pass pass) λ link. same (is_some link)

count_sent-Coherent :
    (ts : Option String) (room : String) (r : Result String) → Keeps (count_sent ts room r)
count_sent-Coherent ts room (err _) = same false
count_sent-Coherent ts room (ok event) =
    Triple-then _ _ (Triple-catch _ (remember_message-Coherent ts room event)) λ _. same true

module _ (mapping : RoomMapping) where
  send_new-Coherent :
      (msg : Value) (sender : String) (ts : Option String) (b : Bool)
      → Keeps (send_new mapping msg sender ts b)
  send_new-Coherent msg sender ts true = same false
  send_new-Coherent msg sender ts false =
      Triple-then _ _ (asked (ensure_ghost_user_registered sender none)) λ _.
        Triple-then _ _
          (Triple-catch _ (
            K.send_outbound-Keeps Coherent Coherent (λ q s h. h) (λ s h. h) pass
              mapping.matrix_room_id sender
              (outbound msg (thread_of (get_str "thread_ts" msg) ts))))
          λ event. count_sent-Coherent ts mapping.matrix_room_id event

  from_sender-Coherent : (msg : Value) (o : Option String) → Keeps (from_sender mapping msg o)
  from_sender-Coherent msg none = same false
  from_sender-Coherent msg (some sender) =
      Triple-if (is_blank (unwrap_or (get_str "text" msg) "") && not (is_some (get "files" msg))) _
        _ (λ _. same false)
        (λ _.
          Triple-then _ _ (is_bridged-Coherent (get_str "ts" msg))
            (send_new-Coherent msg sender (get_str "ts" msg)))

  backfill_message-Coherent : (msg : Value) → Keeps (backfill_message mapping msg)
  unfolding backfill_message
  backfill_message-Coherent msg =
      Triple-if (is_notice (get_str "subtype" msg)) _ _ (λ _. same false)
        (λ _. from_sender-Coherent msg (get_str "user" msg))

  send_page-Coherent : (limit total : ℕ) (vs : Values) → Keeps (send_page mapping limit total vs)
  unfolding send_page
  send_page-Coherent limit total nil = same total
  send_page-Coherent limit total (cons v vs) =
      Triple-if (leb limit total) _ _ (λ _. same total)
        (λ _.
          Triple-then _ _ (backfill_message-Coherent v)
            λ sent. send_page-Coherent limit (add_sent mapping sent total) vs)

  abbrev KeepsAll : (Option String → ℕ → M (Option ℕ)) → Type 0
  KeepsAll again = (c : Option String) (n : ℕ) → Keeps (again c n)

  go_on-Coherent :
      (again : Option String → ℕ → M (Option ℕ)) (n : ℕ) (o : Option String)
      → KeepsAll again
      → Keeps (go_on mapping again n o)
  go_on-Coherent again n none k = same (some n)
  go_on-Coherent again n (some c) k = k (some c) n

  on_page-Coherent :
      (again : Option String → ℕ → M (Option ℕ)) (limit total : ℕ) (history : Value) (vs : Values)
      → KeepsAll again
      → Keeps (on_page mapping again limit total history vs)
  on_page-Coherent again limit total history nil k = same (some total)
  on_page-Coherent again limit total history (cons v vs) k =
      Triple-then _ _ (send_page-Coherent limit total _) λ n.
        Triple-if (leb limit n) _ _ (λ _. same (some n))
          (λ _. go_on-Coherent again n (next_page mapping history) k)

  send_pages-Coherent :
      (fuel limit : ℕ) (cursor : Option String) (total : ℕ)
      → Keeps (send_pages mapping fuel limit cursor total)
  unfolding send_pages
  send_pages-Coherent zero limit cursor total = same none
  send_pages-Coherent (suc fuel) limit cursor total =
      Triple-then _ _
        (asked
          (get_conversation_history mapping.slack_channel_id (batch_size mapping limit) cursor))
        λ history.
          on_page-Coherent (send_pages mapping fuel limit) limit total history (messages_of history)
            (send_pages-Coherent fuel limit)

  pub backfill_channel-Coherent : (fuel limit : ℕ) → Keeps (backfill_channel mapping fuel limit)
  unfolding backfill_channel
  backfill_channel-Coherent fuel limit =
      Triple-if (eqb limit 0) _ _ (λ _. same (some 0)) (λ _. send_pages-Coherent fuel limit none 0)

  module _ (thread : String) where
    send_reply-Coherent :
        (msg : Value) (sender : String) (ts : Option String) (b : Bool)
        → Keeps (send_reply mapping thread msg sender ts b)
    unfolding send_to_matrix_message
    send_reply-Coherent msg sender ts true = same false
    send_reply-Coherent msg sender ts false =
        let m = outbound msg (root_of mapping thread ts) in
        Triple-then _ _ (asked (ensure_ghost_user_registered sender none)) λ _.
          Triple-then _ _
            (Triple-catch _ (
              asked (
                send_message_with_metadata mapping.matrix_room_id sender (render_body m)
                  m.attachments m.reply_to m.edit_of m.formatted_body)))
            λ event. count_sent-Coherent ts mapping.matrix_room_id event

    reply_from-Coherent :
        (msg : Value) (o : Option String) → Keeps (reply_from mapping thread msg o)
    reply_from-Coherent msg none = same false
    reply_from-Coherent msg (some sender) =
        Triple-if (is_blank (unwrap_or (get_str "text" msg) "")) _ _ (λ _. same false)
          (λ _.
            Triple-then _ _ (is_bridged-Coherent (get_str "ts" msg))
              (send_reply-Coherent msg sender (get_str "ts" msg)))

    send_replies-Coherent : (total : ℕ) (vs : Values) → Keeps (send_replies mapping thread total vs)
    unfolding send_replies
    send_replies-Coherent total nil = same total
    send_replies-Coherent total (cons v vs) =
        Triple-then _ _ (reply_from-Coherent v (get_str "user" v))
          λ sent. send_replies-Coherent (add_sent mapping sent total) vs

    pub backfill_thread-Coherent : (limit : ℕ) → Keeps (backfill_thread mapping thread limit)
    unfolding backfill_thread
    backfill_thread-Coherent limit =
        Triple-then _ _ (asked (get_conversation_replies mapping.slack_channel_id thread limit))
          λ replies. send_replies-Coherent 0 (messages_of replies)
