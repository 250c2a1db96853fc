-- ===== src/Bridge/Messages/Keeps.antt =====
-- What a message's requests and queries leave alone.
use matrix_bridge_slack.Prelude.{String, not, Option, none, some, List, [], ◌∷◌, is_empty, ltb, ◌*◌}
use matrix_bridge_slack.Text.{◌⧺◌, is_blank}
use matrix_bridge_slack.Formatting.{apply_pattern_string}
use matrix_bridge_slack.MessageFlow.{OutboundMatrixMessage, render_body}
use matrix_bridge_slack.Bridge.{
  Request, Result, ok, err, State, Config, SlackUser, Media, ensure_ghost_user_registered,
  send_message_with_metadata, upload_media, send_media_message, download_from_url,
}
use matrix_bridge_slack.Bridge.Monad.{M, call, attempt, tick, logged}
use matrix_bridge_slack.Bridge.Triple.{
  Triple, Triple-pure, Triple-raise, Triple-query, Triple-if, Triple-then, Triple-call,
  Triple-attempt,
}
use matrix_bridge_slack.Bridge.Messages.{
  send_to_matrix_message, send_uploaded, send_downloaded, send_attachments, send_body,
  or_nothing_sent, send_to_matrix_with_attachments, send_outbound, media_type, lookup_relation,
  register,
}

-- `P` is a property that no request and no tick breaks, and `E` follows from it
module _ (P E : State → Type 0) (keep : (q : Request) (s : State) → P s → P (logged q s))
    (ticked : (s : State) → P s → P (tick s)) (fail : (s : State) → P s → E s) where
  abbrev pub Keeps : {A : Type 0} → M A → Type 0
  Keeps m = Triple P m (λ _. P) E

  pub asked : (q : Request) → Keeps (call q)
  asked q = Triple-call q (λ a s h. keep q s h) (λ s h. fail (logged q s) (keep q s h))

  pub tried : (q : Request) → Keeps (attempt q)
  tried q = Triple-attempt q λ a s h. keep q s h

  module _ (room sender : String) where
    send_uploaded-Keeps :
        (reply_to : Option String) (url : String) (media : Media) (o : Result String)
        → Keeps (send_uploaded room sender reply_to url media o)
    send_uploaded-Keeps reply_to url media (ok mxc) =
        asked (
          send_media_message room sender (media_type media.content_type) media.filename mxc
            reply_to)
    send_uploaded-Keeps reply_to url media (err _) =
        asked (
          send_message_with_metadata room sender (media.filename ⧺ ": " ⧺ url) [] reply_to none
            none)

    send_downloaded-Keeps :
        (reply_to : Option String) (url : String) (o : Result Media)
        → Keeps (send_downloaded room sender reply_to url o)
    send_downloaded-Keeps reply_to url (err _) =
        asked (send_message_with_metadata room sender ("Attachment: " ⧺ url) [] reply_to none none)
    send_downloaded-Keeps reply_to url (ok media) =
        Triple-if (ltb (50 * 1024 * 1024) media.size) _ _
          (λ _. asked (
            send_message_with_metadata room sender (media.filename ⧺ ": " ⧺ url) [] reply_to none
              none))
          (λ _.
            Triple-then _ _ (tried (upload_media media)) (send_uploaded-Keeps reply_to url media))

    send_attachments-Keeps :
        (reply_to : Option String) (urls : List String) (last : Option String)
        → Keeps (send_attachments room sender reply_to urls last)
    unfolding send_attachments
    send_attachments-Keeps reply_to [] last = Triple-pure last λ s h. h
    send_attachments-Keeps reply_to (url ∷ urls) last =
        Triple-then _ _ (tried (download_from_url url)) λ media.
          Triple-then _ _ (send_downloaded-Keeps reply_to url media)
            λ event. send_attachments-Keeps reply_to urls (some event)

    send_body-Keeps :
        (m : OutboundMatrixMessage) (last : Option String) → Keeps (send_body room sender m last)
    send_body-Keeps m last =
        Triple-if (not (is_blank m.body)) _ _
          (λ _.
            Triple-then _ _
              (asked (
                send_message_with_metadata room sender m.body [] m.reply_to m.edit_of
                  m.formatted_body))
              λ event. Triple-pure (some event) λ s h. h)
          (λ _. Triple-pure last λ s h. h)

    or_nothing_sent-Keeps : (o : Option String) → Keeps (or_nothing_sent room sender o)
    or_nothing_sent-Keeps none = Triple-raise _ λ s h. fail s h
    or_nothing_sent-Keeps (some event) = Triple-pure event λ s h. h

    pub send_outbound-Keeps : (m : OutboundMatrixMessage) → Keeps (send_outbound room sender m)
    unfolding send_to_matrix_with_attachments send_to_matrix_message
    send_outbound-Keeps m =
        Triple-if (not (is_empty m.attachments)) _ _
          (λ _.
            Triple-then _ _ (send_attachments-Keeps m.reply_to m.attachments none)
              λ last. Triple-then _ _ (send_body-Keeps m last) or_nothing_sent-Keeps)
          (λ _. asked (
            send_message_with_metadata room sender (render_body m) m.attachments m.reply_to
              m.edit_of m.formatted_body))

  pub lookup_relation-Keeps : (o : Option String) → Keeps (lookup_relation o)
  lookup_relation-Keeps none = Triple-pure none λ s h. h
  lookup_relation-Keeps (some id) =
      Triple-query {Q = λ _. P} _ (λ s h. ticked s h) (λ s h. fail (tick s) (ticked s h))

  pub register-Keeps :
      (config : Config) (sender : String) (o : Option SlackUser) → Keeps (register config sender o)
  register-Keeps config sender none = asked (ensure_ghost_user_registered sender none)
  register-Keeps config sender (some user) = asked (
      ensure_ghost_user_registered sender (
        some (
          apply_pattern_string config.username_pattern
            (("id", user.id) ∷ ("tag", user.discriminator) ∷ ("username", user.username) ∷ []))))
