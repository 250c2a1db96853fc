-- ===== src/Bridge/Outgoing/Addressed.antt =====
-- Where a Matrix message that is no command is sent to.
use matrix_bridge_slack.Prelude.{
  ◌*◌, ◌≡◌, refl, sym, ap, subst, ◌∙◌, String, Bool, true, false, not, Option, none, some, List, [],
  ◌∷◌, ◌++◌, All, All-append, ltb, ◌==◌, eq_refl, arith, if◌then◌else◌,
}
use mathlib.Core.List.{append_assoc, append-nil}
use matrix_bridge_slack.Text.{◌⧺◌, is_blank, starts_with}
use matrix_bridge_slack.Command.{is_command}
use matrix_bridge_slack.Command.Matrix as C
use matrix_bridge_slack.Db.{RoomMapping, get_room_by_matrix_room}
use matrix_bridge_slack.MessageFlow.{
  MatrixInboundMessage, OutboundSlackMessage, extract_plain_text, parse_matrix_event,
  matrix_to_slack,
}
use matrix_bridge_slack.Bridge.{
  Request, Result, ok, err, State, Env, Config, Media, slack_message, delete_message,
  deny_channel_member_permissions, mark_conversation, spawn_clear_overwrite, add_reaction,
  rename_conversation, set_conversation_topic, ask_bridge_permission, get_user_profile,
  send_message_as_user, send_file_as_user, download_matrix_media,
}
use matrix_bridge_slack.Bridge.Monad.{M, call, attempt, ◌>>=◌, tick, logged}
use matrix_bridge_slack.Bridge.Triple.{
  Post, Triple, Triple-pure, Triple-query, Triple-if, Triple-then, Triple-bind, Triple-weaken,
  Triple-call, Triple-attempt,
}
use matrix_bridge_slack.Bridge.Matrix.{MatrixEvent, is_namespaced_user, for_some}
use matrix_bridge_slack.Bridge.Outgoing.{
  download_matrix_attachments, small_media, avatar_for_slack, profile_or, send_plain, after_upload,
  send_attachment, send_all, send_content, send_as, send_to_slack_with_attachments, handler,
  run_command, forward, body_of, handle_matrix_message,
}

-- whether a request that writes to a Slack channel writes to this one
abbrev pub writes_only : String → Request → Bool
writes_only channel (slack_message c _) = c == channel
writes_only channel (delete_message c _) = c == channel
writes_only channel (deny_channel_member_permissions c _) = c == channel
writes_only channel (mark_conversation c _) = c == channel
writes_only channel (spawn_clear_overwrite c _ _) = c == channel
writes_only channel (add_reaction c _ _) = c == channel
writes_only channel (rename_conversation c _) = c == channel
writes_only channel (set_conversation_topic c _) = c == channel
writes_only channel (ask_bridge_permission c _) = c == channel
writes_only channel (send_message_as_user c _ _ _ _ _) = c == channel
writes_only channel (send_file_as_user c _ _ _) = c == channel
writes_only channel _ = true

-- the log has grown by requests that write to no other channel
abbrev pub Addressed : String → List Request → State → Type 0
Addressed channel calls s =
    (more : List Request) × (s.calls ≡ calls ++ more) × All (λ r. writes_only channel r ≡ true) more

Addressed-logged :
    (channel : String) (calls : List Request) (q : Request)
    → writes_only channel q ≡ true
    → (s : State) → Addressed channel calls s
    → Addressed channel calls (logged q s)
Addressed-logged channel calls q w s (more, e, h) = (
  more ++ q ∷ [],
  ap (λ l. l ++ q ∷ []) e ∙ append_assoc calls more (q ∷ []),
  All-append (λ r. writes_only channel r ≡ true) more (q ∷ []) h (w, tt),
)

-- a property that such requests keep
module _ (channel : String) (P : State → Type 0)
    (keep : (q : Request) → writes_only channel q ≡ true → (s : State) → P s → P (logged q s)) where
  abbrev Keeps : {A : Type 0} → M A → Type 0
  Keeps m = Triple P m (λ _. P) P

  asked : (q : Request) → writes_only channel q ≡ true → Keeps (call q)
  asked q w = Triple-call q (λ a s h. keep q w s h) (λ s h. keep q w s h)

  tried : (q : Request) → writes_only channel q ≡ true → Keeps (attempt q)
  tried q w = Triple-attempt q λ a s h. keep q w s h

  pub download-Keeps : (urls : List String) → Keeps (download_matrix_attachments urls)
  unfolding download_matrix_attachments
  download-Keeps [] = Triple-pure [] λ s h. h
  download-Keeps (url ∷ urls) =
      Triple-if (starts_with url "mxc://") _ _
        (λ _. Triple-then _ _ (tried (download_matrix_media url) refl) λ media.
          Triple-then _ _ (download-Keeps urls)
            λ rest. Triple-pure ((url, small_media media) ∷ rest) λ s h. h)
        (λ _.
          Triple-then _ _ (download-Keeps urls) λ rest. Triple-pure ((url, none) ∷ rest) λ s h. h)

  module _ (username : String) (avatar : Option String) where
    send_plain-Keeps : (content : String) → Keeps (send_plain channel username avatar content)
    send_plain-Keeps content =
        asked (send_message_as_user channel content none none username avatar) (eq_refl channel)

    after_upload-Keeps :
        (url : String) (media : Media) (o : Result (Unit {0}))
        → Keeps (after_upload channel username avatar url media o)
    after_upload-Keeps url media (ok _) = Triple-pure tt λ s h. h
    after_upload-Keeps url media (err _) = send_plain-Keeps (media.filename ⧺ ": " ⧺ url)

    send_attachment-Keeps :
        (url : String) (o : Option Media) → Keeps (send_attachment channel username avatar url o)
    send_attachment-Keeps url none = send_plain-Keeps ("Attachment: " ⧺ url)
    send_attachment-Keeps url (some media) =
        Triple-if (ltb (8 * 1024 * 1024) media.size) _ _
          (λ _. send_plain-Keeps (media.filename ⧺ ": " ⧺ url))
          (λ _.
            Triple-then _ _
              (tried (send_file_as_user channel media username avatar) (eq_refl channel))
              (after_upload-Keeps url media))

    send_all-Keeps :
        (xs : List (String × Option Media)) → Keeps (send_all channel username avatar xs)
    unfolding send_all
    send_all-Keeps [] = Triple-pure tt λ s h. h
    send_all-Keeps ((url, media) ∷ xs) =
        Triple-then _ _ (send_attachment-Keeps url media) λ _. send_all-Keeps xs

    send_content-Keeps : (m : OutboundSlackMessage) → Keeps (send_content channel username avatar m)
    send_content-Keeps m =
        Triple-if (not (is_blank m.content)) _ _
          (λ _.
            asked (send_message_as_user channel m.content m.reply_to m.edit_of username avatar)
              (eq_refl channel))
          (λ _. Triple-pure tt λ s h. h)

  send_as-Keeps :
      (config : Config) (m : OutboundSlackMessage) (xs : List (String × Option Media))
      (profile : String × Option String)
      → Keeps (send_as config channel m xs profile)
  send_as-Keeps config m xs (username, avatar_url) =
      Triple-then _ _ (send_all-Keeps username (avatar_for_slack config avatar_url) xs)
        λ _. send_content-Keeps username (avatar_for_slack config avatar_url) m

  pub send_to_slack-Keeps :
      (config : Config) (m : OutboundSlackMessage) (sender : String)
      (xs : List (String × Option Media))
      → Keeps (send_to_slack_with_attachments config channel m sender xs)
  unfolding send_to_slack_with_attachments
  send_to_slack-Keeps config m sender xs =
      Triple-then _ _ (tried (get_user_profile sender) refl)
        λ profile. send_as-Keeps config m xs (profile_or sender profile)

-- nothing is requested for a room that has no channel; else only the channel is written to
abbrev pub Sent : List Request → Option RoomMapping → State → Type 0
Sent calls none s = s.calls ≡ calls
Sent calls (some mapping) s = Addressed mapping.slack_channel_id calls s

module _ (config : Config) (strip format : String → String) (event : MatrixEvent) where
  unsent :
      (calls : List Request) (o : Option RoomMapping) (s : State) → s.calls ≡ calls → Sent calls o s
  unsent calls none s e = e
  unsent calls (some mapping) s e = ([], e ∙ sym (append-nil calls), tt)

  for_message :
      (calls : List Request) (mapping : RoomMapping) (o : Option MatrixInboundMessage)
      → Triple
          (λ s. s.calls ≡ calls)
          (for_some o λ message.
            download_matrix_attachments (matrix_to_slack format message).attachments
            >>= λ attachments.
                send_to_slack_with_attachments config mapping.slack_channel_id
                  (matrix_to_slack format message)
                  event.sender
                  attachments)
          (λ _. Addressed mapping.slack_channel_id calls)
          (Addressed mapping.slack_channel_id calls)
  for_message calls mapping none = Triple-pure tt λ s e. ([], e ∙ sym (append-nil calls), tt)
  for_message calls mapping (some message) =
      Triple-weaken _
        (Triple-then _ _
          (download-Keeps mapping.slack_channel_id (Addressed mapping.slack_channel_id calls)
            (Addressed-logged mapping.slack_channel_id calls)
            (matrix_to_slack format message).attachments)
          λ attachments.
            send_to_slack-Keeps mapping.slack_channel_id (Addressed mapping.slack_channel_id calls)
              (Addressed-logged mapping.slack_channel_id calls) config
              (matrix_to_slack format message) event.sender attachments)
        (λ s e. ([], e ∙ sym (append-nil calls), tt)) (λ a s q. q) (λ s e. e)

  forward_lem :
      (calls : List Request) (o : Option RoomMapping)
      → Triple
          (λ s. s.calls ≡ calls)
          (forward config strip format event o)
          (λ _. Sent calls o)
          (Sent calls o)
  forward_lem calls none = Triple-pure tt λ s e. e
  forward_lem calls (some mapping) =
      for_message calls mapping (parse_matrix_event (extract_plain_text strip) event)

  module _ (s : State)
      (plain : is_command "!slack" (body_of config strip format event) ≡ false) where
    abbrev found : Option RoomMapping
    found = get_room_by_matrix_room s.rooms event.room_id

    abbrev Start : State → Type 0
    Start u = (u.calls ≡ s.calls) × (u.rooms ≡ s.rooms)

    forwarded :
        (o : Option RoomMapping)
        → Triple
            (λ u. (u.calls ≡ s.calls) × (o ≡ found))
            (forward config strip format event o)
            (λ _. Sent s.calls found)
            (Sent s.calls found)
    forwarded o = record {
      at = λ env u (h, e).
          subst
            (λ x.
              Post (λ _. Sent s.calls x) (Sent s.calls x)
                (forward config strip format event o env u))
            e ((forward_lem s.calls o).at env u h);
    }

    branch :
        (o : Option RoomMapping)
        → Triple
            (λ u. (u.calls ≡ s.calls) × (o ≡ found))
            (if is_command (handler config strip format).prefix (body_of config strip format event)
              then run_command config strip format event (body_of config strip format event) o
              else forward config strip format event o)
            (λ _. Sent s.calls found)
            (Sent s.calls found)
    unfolding C.new
    branch o =
        Triple-if (is_command "!slack" (body_of config strip format event)) _ _
          (λ command. absurd (ground (arith, command, plain))) (λ _. forwarded o)

    message_lem :
        Triple Start
          (handle_matrix_message config strip format event)
          (λ _. Sent s.calls found)
          (Sent s.calls found)
    unfolding handle_matrix_message
    message_lem =
        Triple-if (is_namespaced_user event.sender) _ _
          (λ _. Triple-pure tt λ u h. unsent s.calls found u h.0)
          λ _.
            Triple-bind _ _
              (Triple-query _ (λ u h. (h.0, ap (λ x. get_room_by_matrix_room x event.room_id) h.1))
                (λ u h. unsent s.calls found (tick u) h.0))
              branch

  -- For a Matrix message that is no command, whether handle_matrix_message returns or fails: if
  -- the room has no channel, it makes no request at all, and else every request that it makes and
  -- that writes to a Slack channel writes to the room's channel.
  pub handle_matrix_message-Sent :
      (env : Env) (s : State)
      → is_command "!slack" (body_of config strip format event) ≡ false
      → Post
          (λ _ u. Sent s.calls (get_room_by_matrix_room s.rooms event.room_id) u)
          (λ u. Sent s.calls (get_room_by_matrix_room s.rooms event.room_id) u)
          (handle_matrix_message config strip format event env s)
  handle_matrix_message-Sent env s plain = (message_lem s plain).at env s (refl, refl)
