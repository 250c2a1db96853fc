-- ===== src/Bridge/Backfill/Bridged.antt =====
-- A backfill and the messages that are bridged already.
use matrix_bridge_slack.Prelude.{
  ◌≡◌, refl, ap, sym, subst, arith, ◌∙◌, String, Bool, true, false, not, ◌&&◌, Option, none, some,
  List, is_some, unwrap_or,
}
use matrix_bridge_slack.Text.{is_blank}
use matrix_bridge_slack.Json.{Value, get, get_str}
use matrix_bridge_slack.Db.{RoomMapping, MessageMapping, Table, get_by_slack_message_id}
use matrix_bridge_slack.Bridge.{Request, State, Env}
use matrix_bridge_slack.Bridge.Monad.{M, pure, ◌>>=◌}
use matrix_bridge_slack.Bridge.Triple.{
  Post, Post-weaken, Triple, Triple-pure, Triple-query, Triple-if, Triple-bind,
}
use matrix_bridge_slack.Bridge.Backfill.{
  is_notice, is_bridged, send_new, from_sender, backfill_message, send_reply, reply_from,
}

module _ (mapping : RoomMapping) (calls : List Request) (messages : Table MessageMapping) where
  abbrev Same : State → Type 0
  Same s = (s.calls ≡ calls) × (s.messages ≡ messages)

  module _ (ts : String) (link : MessageMapping)
      (found : get_by_slack_message_id messages ts ≡ some link) where
    is_bridged-true : Triple Same (is_bridged (some ts)) (λ b s. (b ≡ true) × Same s) Same
    is_bridged-true =
        Triple-bind {Q = λ o s. (o ≡ some link) × Same s} _ _
          (Triple-query _ (λ s h. (ap (λ t. get_by_slack_message_id t ts) h.1 ∙ found, h))
            (λ s h. h))
          λ o. Triple-pure (is_some o) λ s h. (ap is_some h.0, h.1)

    send_new-none :
        (msg : Value) (sender : String) (b : Bool)
        → Triple
            (λ s. (b ≡ true) × Same s)
            (send_new mapping msg sender (some ts) b)
            (λ sent s. (sent ≡ false) × Same s)
            Same
    send_new-none msg sender true = Triple-pure false λ s h. (refl, h.1)
    send_new-none msg sender false = record { at = λ env s h. absurd (ground (arith, h.0)) }

    send_reply-none :
        (thread : String) (msg : Value) (sender : String) (b : Bool)
        → Triple
            (λ s. (b ≡ true) × Same s)
            (send_reply mapping thread msg sender (some ts) b)
            (λ sent s. (sent ≡ false) × Same s)
            Same
    send_reply-none thread msg sender true = Triple-pure false λ s h. (refl, h.1)
    send_reply-none thread msg sender false = record {
      at = λ env s h. absurd (ground (arith, h.0));
    }

    -- what a round of either loop ensures of such a message
    abbrev Skips : M Bool → Type 0
    Skips m = Triple Same m (λ sent s. (sent ≡ false) × Same s) Same

    skip : Skips (pure false)
    skip = Triple-pure false λ s h. (refl, h)

    then-Skips :
        (o : Option String) (f : Option String → Bool → M Bool)
        → o ≡ some ts
        → ((b : Bool)
            → Triple
                (λ s. (b ≡ true) × Same s)
                (f (some ts) b)
                (λ sent s. (sent ≡ false) × Same s)
                Same)
        → Skips (is_bridged o >>= f o)
    then-Skips o f e h =
        subst (λ x. Skips (is_bridged x >>= f x)) (sym e) (Triple-bind _ _ is_bridged-true h)

    module _ (msg : Value) (named : get_str "ts" msg ≡ some ts) where
      from_sender-Skips : (o : Option String) → Skips (from_sender mapping msg o)
      from_sender-Skips none = skip
      from_sender-Skips (some sender) =
          Triple-if
            (is_blank (unwrap_or (get_str "text" msg) "") && not (is_some (get "files" msg))) _ _
            (λ _. skip)
            (λ _.
              then-Skips (get_str "ts" msg) (send_new mapping msg sender) named
                (send_new-none msg sender))

      backfill_message-Skips : Skips (backfill_message mapping msg)
      unfolding backfill_message
      backfill_message-Skips =
          Triple-if (is_notice (get_str "subtype" msg)) _ _ (λ _. skip)
            (λ _. from_sender-Skips (get_str "user" msg))

      reply_from-Skips :
          (thread : String) (o : Option String) → Skips (reply_from mapping thread msg o)
      reply_from-Skips thread none = skip
      reply_from-Skips thread (some sender) =
          Triple-if (is_blank (unwrap_or (get_str "text" msg) "")) _ _ (λ _. skip)
            (λ _.
              then-Skips (get_str "ts" msg) (send_reply mapping thread msg sender) named
                (send_reply-none thread msg sender))

-- no request was made, and the message table is as it was
abbrev pub Untouched : State → State → Type 0
Untouched s t = (t.calls ≡ s.calls) × (t.messages ≡ s.messages)

abbrev pub Skipped : State → Bool → State → Type 0
Skipped s sent t = (sent ≡ false) × Untouched s t

skipped :
    (s : State) (m : M Bool) (env : Env)
    → Triple (Untouched s) m (λ sent t. (sent ≡ false) × Untouched s t) (Untouched s)
    → Post (Skipped s) (Skipped s false) (m env s)
skipped s m env h =
    let (r, t) = m env s in
    Post-weaken (Skipped s) (Skipped s false) r t (λ sent u q. q) (λ u e. (refl, e))
      (h.at env s (refl, refl))

-- A message with an id that has a mapping is not sent by either backfill, of a channel or of a
-- thread: whether the round returns or fails, it makes no request and leaves the message table as
-- it was, and where it returns the message does not count.
pub backfill-Skipped :
    (mapping : RoomMapping) (thread ts : String) (link : MessageMapping) (msg : Value) (env : Env)
    (s : State)
    → get_str "ts" msg ≡ some ts
    → get_by_slack_message_id s.messages ts ≡ some link
    → Post (Skipped s) (Skipped s false) (backfill_message mapping msg env s)
      × Post
          (Skipped s)
          (Skipped s false)
          (reply_from mapping thread msg (get_str "user" msg) env s)
backfill-Skipped mapping thread ts link msg env s named found = (
  skipped s _ env (backfill_message-Skips mapping s.calls s.messages ts link found msg named),
  skipped s _ env (
      reply_from-Skips mapping s.calls s.messages ts link found msg named thread
        (get_str "user" msg)),
)
