-- ===== src/Bridge/Messages/Given.antt =====
-- The requests of a run that sends a Slack message to Matrix, and which answer the last event is.
use mathlib.Core.List.{append_assoc}
use matrix_bridge_slack.Prelude.{
  ℕ, ◌≤◌, ◌<◌, ◌≡◌, refl, ap, ◌∙◌, String, Bool, true, false, not, Option, none, some, List, [],
  ◌∷◌, ◌++◌, is_empty, ltb, ◌*◌, arith, if◌then◌else◌,
}
use matrix_bridge_slack.Text.{◌⧺◌, is_blank}
use matrix_bridge_slack.MessageFlow.{OutboundMatrixMessage, render_body}
use matrix_bridge_slack.Bridge.{
  Request, Result, ok, err, State, Env, Media, send_message_with_metadata, upload_media,
  send_media_message, download_from_url,
}
use matrix_bridge_slack.Bridge.Monad.{M, pure, call, attempt, continue, tick, logged, ◌>>=◌}
use matrix_bridge_slack.Bridge.Triple.{Post, Triple, Triple-pure, Triple-raise}
use matrix_bridge_slack.Bridge.Messages.Keeps as K
use matrix_bridge_slack.Bridge.Messages.{
  send_to_matrix_message, send_uploaded, send_downloaded, send_attachments, send_body,
  or_nothing_sent, send_to_matrix_with_attachments, send_outbound, media_type,
}

-- a request for the room, of a message or of a file, to which Matrix answers with the event
pub data Gave (env : Env) (room event : String) (clock : ℕ) : Request → Type 0 where
  message :
      (sender body : String) (attachments : List String)
      (reply_to edit_of formatted_body : Option String)
      → env.answer clock
          (send_message_with_metadata room sender body attachments reply_to edit_of formatted_body)
        ≡ ok event
      → Gave env room event clock
          (send_message_with_metadata room sender body attachments reply_to edit_of formatted_body)
  media :
      (sender kind filename url : String) (reply_to : Option String)
      → env.answer clock (send_media_message room sender kind filename url reply_to) ≡ ok event
      → Gave env room event clock (send_media_message room sender kind filename url reply_to)

-- a run of the environment that begins in the state `start`
module _ (env : Env) (start : State) where
  -- the run makes a request to which Matrix answers with the event
  abbrev pub Given : String → String → State → Type 0
  Given room event u =
      (before : List Request) × ((q : Request) × ((after : List Request) × ((clock : ℕ) × ((u.calls
                ≡ (start.calls ++ before) ++ q ∷ after)
              × (Gave env room event clock q × ((start.clock ≤ clock) × (clock < u.clock)))))))

  abbrev pub Unchanged : State → Type 0
  Unchanged u = u.messages ≡ start.messages

  -- requests were made, and the tables are as they were
  abbrev pub Before : State → Type 0
  Before u =
      (u.messages ≡ start.messages)
      × ((u.rooms ≡ start.rooms)
          × ((start.clock ≤ u.clock) × ((made : List Request) × (u.calls ≡ start.calls ++ made))))

  pub keep : (q : Request) (u : State) → Before u → Before (logged q u)
  keep q u (m, (r, (c, (made, e)))) = (
    m,
    (
      r,
      (
        omega (arith, c),
        (made ++ q ∷ [], ap (λ x. x ++ q ∷ []) e ∙ append_assoc start.calls made (q ∷ [])),
      ),
    ),
  )

  pub ticked : (u : State) → Before u → Before (tick u)
  ticked u (m, (r, (c, made))) = (m, (r, (omega (arith, c), made)))

  pub fail : (u : State) → Before u → Unchanged u
  fail u h = h.0

  -- what `m` ensures in this environment
  pub record Runs {A : Type 0} (P : State → Type 0) (m : M A) (Q : A → State → Type 0)
      : Type 0 where
    pub run : (u : State) → P u → Post Q Unchanged (m env u)

  pub Triple-Runs :
      {A : Type 0} {P : State → Type 0} {Q : A → State → Type 0} (m : M A)
      → Triple P m Q Unchanged
      → Runs P m Q
  Triple-Runs m h = record { run = h.at env }

  continue-Runs :
      {A B : Type 0} (Q : A → State → Type 0) (R : B → State → Type 0) (r : Result A × State)
      (f : A → M B)
      → Post Q Unchanged r
      → ((a : A) → Runs (Q a) (f a) R)
      → Post R Unchanged (continue r.0 f env r.1)
  continue-Runs Q R (ok a, u) f q h = (h a).run u q
  continue-Runs Q R (err e, u) f q h = q

  module _ {A : Type 0} {P : State → Type 0} {Q : A → State → Type 0} where
    pub Runs-then :
        {B : Type 0} {R : B → State → Type 0} (m : M A) (f : A → M B)
        → Runs P m Q
        → ((a : A) → Runs (Q a) (f a) R)
        → Runs P (m >>= f) R
    unfolding ◌>>=◌
    Runs-then {B} {R} m f h k = record { run = λ u p. continue-Runs Q R (m env u) f (h.run u p) k }

    pub Runs-if : (b : Bool) (m n : M A) → Runs P m Q → Runs P n Q → Runs P (if b then m else n) Q
    Runs-if true m n hm hn = hm
    Runs-if false m n hm hn = hn

    pub Runs-pure : (a : A) → ((u : State) → P u → Q a u) → Runs P (pure a) Q
    Runs-pure a h = Triple-Runs (pure a) (Triple-pure a h)

  pub tried : (q : Request) → Runs Before (attempt q) (λ _. Before)
  tried q = Triple-Runs _ (K.tried Before Unchanged keep ticked fail q)

  module _ (room : String) where
    -- the event is an answer, and the tables are as they were
    abbrev pub Sent : String → State → Type 0
    Sent event u = Before u × Given room event u

    answered_Sent :
        (q : Request) (r : Result String) (u : State)
        → Before u
        → ((event : String) → r ≡ ok event → Gave env room event u.clock q)
        → Post Sent Unchanged (r, logged q u)
    answered_Sent q (err e) u b g = b.0
    answered_Sent q (ok event) u b g = (
      keep q u b,
      (
        b.1.1.1.0,
        (
          q,
          (
            [],
            (u.clock, (ap (λ x. x ++ q ∷ []) b.1.1.1.1, (g event refl, (b.1.1.0, omega arith)))),
          ),
        ),
      ),
    )

    module _ (sender : String) where
      message_Sent :
          (body : String) (attachments : List String)
          (reply_to edit_of formatted_body : Option String)
          → Runs Before
              (call (
                send_message_with_metadata room sender body attachments reply_to edit_of
                  formatted_body))
              Sent
      unfolding call
      message_Sent body attachments reply_to edit_of formatted_body = record {
        run = λ u b.
            answered_Sent _ _ u b
              λ event h. message sender body attachments reply_to edit_of formatted_body h;
      }

      media_Sent :
          (kind filename url : String) (reply_to : Option String)
          → Runs Before (call (send_media_message room sender kind filename url reply_to)) Sent
      unfolding call
      media_Sent kind filename url reply_to = record {
        run = λ u b. answered_Sent _ _ u b λ event h. media sender kind filename url reply_to h;
      }

      uploaded_Sent :
          (reply_to : Option String) (url : String) (m : Media) (o : Result String)
          → Runs Before (send_uploaded room sender reply_to url m o) Sent
      uploaded_Sent reply_to url m (ok mxc) =
          media_Sent (media_type m.content_type) m.filename mxc reply_to
      uploaded_Sent reply_to url m (err _) =
          message_Sent (m.filename ⧺ ": " ⧺ url) [] reply_to none none

      downloaded_Sent :
          (reply_to : Option String) (url : String) (o : Result Media)
          → Runs Before (send_downloaded room sender reply_to url o) Sent
      downloaded_Sent reply_to url (err _) =
          message_Sent ("Attachment: " ⧺ url) [] reply_to none none
      downloaded_Sent reply_to url (ok m) =
          Runs-if (ltb (50 * 1024 * 1024) m.size) _ _
            (message_Sent (m.filename ⧺ ": " ⧺ url) [] reply_to none none)
            (Runs-then _ _ (tried (upload_media m)) (uploaded_Sent reply_to url m))

      -- the last event, if there is one
      abbrev SentLast : Option String → State → Type 0
      SentLast none u = Before u
      SentLast (some event) u = Sent event u

      SentLast-Before : (o : Option String) (u : State) → SentLast o u → Before u
      SentLast-Before none u h = h
      SentLast-Before (some event) u h = h.0

      from_last :
          {A : Type 0} {Q : A → State → Type 0} (o : Option String) (m : M A)
          → Runs Before m Q
          → Runs (SentLast o) m Q
      from_last o m h = record { run = λ u p. h.run u (SentLast-Before o u p) }

      attachments_Sent :
          (reply_to : Option String) (urls : List String) (last : Option String)
          → Runs (SentLast last) (send_attachments room sender reply_to urls last) SentLast
      unfolding send_attachments
      attachments_Sent reply_to [] last = Runs-pure last λ u h. h
      attachments_Sent reply_to (url ∷ urls) last =
          Runs-then _ _ (from_last last _ (tried (download_from_url url))) λ m.
            Runs-then _ _ (downloaded_Sent reply_to url m)
              λ event. attachments_Sent reply_to urls (some event)

      body_Sent :
          (m : OutboundMatrixMessage) (last : Option String)
          → Runs (SentLast last) (send_body room sender m last) SentLast
      body_Sent m last =
          Runs-if (not (is_blank m.body)) _ _
            (Runs-then _ _
              (from_last last _ (message_Sent m.body [] m.reply_to m.edit_of m.formatted_body))
              λ event. Runs-pure (some event) λ u h. h)
            (Runs-pure last λ u h. h)

      or_nothing_Sent : (o : Option String) → Runs (SentLast o) (or_nothing_sent room sender o) Sent
      or_nothing_Sent none = Triple-Runs _ (Triple-raise _ λ u h. h.0)
      or_nothing_Sent (some event) = Runs-pure event λ u h. h

      pub outbound_Sent :
          (m : OutboundMatrixMessage) → Runs Before (send_outbound room sender m) Sent
      unfolding send_to_matrix_with_attachments send_to_matrix_message
      outbound_Sent m =
          Runs-if (not (is_empty m.attachments)) _ _
            (Runs-then _ _ (attachments_Sent m.reply_to m.attachments none)
              λ last. Runs-then _ _ (body_Sent m last) or_nothing_Sent)
            (message_Sent (render_body m) m.attachments m.reply_to m.edit_of m.formatted_body)
