-- ===== src/Bridge/Messages.antt =====
-- bridge.rs: a Slack message with its context, as a command or as a message for the bridged room, and
-- the outcome of a command.
pub mod Keeps
pub mod Given
pub mod Stored
pub mod Formatted
use Prim.Native.String
use matrix_bridge_slack.Prelude.{
  ℕ, suc, ◌*◌, String, Bool, true, false, not, ◌&&◌, ◌||◌, Option, none, some, List, [], ◌∷◌,
  is_some, is_empty, unwrap_or, ltb, ◌==◌, if◌then◌else◌,
}
use matrix_bridge_slack.Text.{◌⧺◌, is_blank, starts_with}
use matrix_bridge_slack.Formatting.{apply_pattern_string}
use matrix_bridge_slack.Json.{Value, Values, array, or_else}
use matrix_bridge_slack.Command.{is_command}
use matrix_bridge_slack.Command.Slack as S
use matrix_bridge_slack.Db.{RoomMapping, MessageMapping, upsert_message_mapping}
use matrix_bridge_slack.MessageFlow.{
  OutboundMatrixMessage, slack_to_matrix, render_body, apply_message_relation_mappings,
}
use matrix_bridge_slack.Blocks.{render_blocks}
use matrix_bridge_slack.Blocks.Plain.{render_blocks_plain}
use matrix_bridge_slack.Blocks.Attachment.{render_attachments}
use matrix_bridge_slack.Bridge.{
  Request, Answer, Result, ok, err, State, Config, SlackUser, Media, slack_message, mark_approval,
  get_user, ensure_ghost_user_registered, send_message_with_metadata, upload_media,
  send_media_message, download_from_url,
}
use matrix_bridge_slack.Bridge.Monad.{M, pure, raise, query, write, call, attempt, ◌>>=◌, ◌>>◌}
use matrix_bridge_slack.Bridge.Rooms.{find_by_channel, request_bridge_slack_channel, utc_now}
use matrix_bridge_slack.Bridge.Slack.{message_by_slack, moderate, unbridge_channel}

pub record SlackMessageContext : Type 0 where
  pub channel_id : String
  pub source_message_id : Option String
  pub sender_id : String
  pub content : String
  pub attachments : List String
  pub reply_to : Option String
  pub edit_of : Option String
  pub permissions : List String
  pub thread_ts : Option String
  pub blocks : Option Value
  pub slack_attachments : Option Values

-- the converter of parsers/slack_parser.rs, which the handler calls
pub record Parsers : Type 0 where
  pub format_for_matrix : String → String

abbrev pub approval_reply : Bool → Bool → String
approval_reply allow true =
    if allow
    then "Thanks for your response! The matrix bridge has been approved."
    else "Thanks for your response! The matrix bridge has been declined."
approval_reply allow false =
    "Thanks for your response, however it has arrived after the deadline - sorry!"

abbrev pub answer_approval : String → Bool → M Unit
answer_approval channel_id allow = do
  applied ← call (mark_approval channel_id allow)
  call (slack_message channel_id (approval_reply allow applied))

unfoldable pub handle_slack_command_outcome :
    (ℕ → String) → SlackMessageContext → Option RoomMapping → S.SlackCommandOutcome → M Unit
handle_slack_command_outcome show ctx room_mapping S.ignored = pure tt
handle_slack_command_outcome show ctx room_mapping (S.reply text) =
    call (slack_message ctx.channel_id text)
handle_slack_command_outcome show ctx room_mapping S.approve_requested =
    answer_approval ctx.channel_id true
handle_slack_command_outcome show ctx room_mapping S.deny_requested =
    answer_approval ctx.channel_id false
handle_slack_command_outcome show ctx room_mapping (S.moderation_requested action user) =
    moderate action user ctx.channel_id ctx.sender_id show room_mapping
handle_slack_command_outcome show ctx room_mapping S.unbridge_requested =
    unbridge_channel ctx.channel_id room_mapping
handle_slack_command_outcome show ctx room_mapping (S.bridge_requested guild channel) = do
  text ← request_bridge_slack_channel guild channel
  call (slack_message ctx.channel_id text)

abbrev pub media_type : String → String
media_type content_type =
    if starts_with content_type "image/"
    then "m.image"
    else if starts_with content_type "video/"
    then "m.video"
    else if starts_with content_type "audio/"
    then "m.audio"
    else "m.file"

-- `send_to_matrix_message` and `send_to_matrix_with_attachments`, for a room and a sender
module _ (room sender : String) where
  unfoldable pub send_to_matrix_message : OutboundMatrixMessage → M String
  send_to_matrix_message m = call (
      send_message_with_metadata room sender (render_body m) m.attachments m.reply_to m.edit_of
        m.formatted_body)

  abbrev pub send_text : Option String → String → M String
  send_text reply_to body = call (send_message_with_metadata room sender body [] reply_to none none)

  abbrev pub send_uploaded : Option String → String → Media → Result String → M String
  send_uploaded reply_to url media (ok mxc) =
      call
        (send_media_message room sender (media_type media.content_type) media.filename mxc reply_to)
  send_uploaded reply_to url media (err e) = send_text reply_to (media.filename ⧺ ": " ⧺ url)

  abbrev pub send_downloaded : Option String → String → Result Media → M String
  send_downloaded reply_to url (err e) = send_text reply_to ("Attachment: " ⧺ url)
  send_downloaded reply_to url (ok media) =
      if ltb (50 * 1024 * 1024) media.size
      then send_text reply_to (media.filename ⧺ ": " ⧺ url)
      else (do uploaded ← attempt (upload_media media); send_uploaded reply_to url media uploaded)

  -- the loop, which gives the last event
  unfoldable pub send_attachments : Option String → List String → Option String → M (Option String)
  send_attachments reply_to [] last = pure last
  send_attachments reply_to (url ∷ urls) last = do
    media ← attempt (download_from_url url)
    event ← send_downloaded reply_to url media
    send_attachments reply_to urls (some event)

  abbrev pub send_body : OutboundMatrixMessage → Option String → M (Option String)
  send_body m last =
      if not (is_blank m.body)
      then (do
        event ←
            call (
              send_message_with_metadata room sender m.body [] m.reply_to m.edit_of
                m.formatted_body)
        pure (some event))
      else pure last

  abbrev pub or_nothing_sent : Option String → M String
  or_nothing_sent none = raise "no message was sent"
  or_nothing_sent (some event) = pure event

  unfoldable pub send_to_matrix_with_attachments : OutboundMatrixMessage → M String
  send_to_matrix_with_attachments m = do
    last ← send_attachments m.reply_to m.attachments none
    last' ← send_body m last
    or_nothing_sent last'

  abbrev pub send_outbound : OutboundMatrixMessage → M String
  send_outbound m =
      if not (is_empty m.attachments)
      then send_to_matrix_with_attachments m
      else send_to_matrix_message m

abbrev pub lookup_relation : Option String → M (Option MessageMapping)
lookup_relation none = pure none
lookup_relation (some slack_message_id) = message_by_slack slack_message_id

-- a message in a thread is a reply to the thread's root, if it is not the root
abbrev pub thread_root : Option String → Option String → Option String
thread_root none source = none
thread_root (some ts) source = if unwrap_or source "" == ts && is_some source then none else some ts

abbrev pub blocks_of : Option Value → Option Values
blocks_of (some (array blocks)) = some blocks
blocks_of _ = none

abbrev pub both_html : Option String → Option String → Option String
both_html (some blocks) (some attachments) = some (blocks ⧺ "\n" ⧺ attachments)
both_html (some blocks) none = some blocks
both_html none attachments = attachments

abbrev pub try {ℓ} : {A B : Type ℓ} → (A → Option B) → Option A → Option B
try f none = none
try f (some a) = f a

module _ (parsers : Parsers) where
  -- the message before its relations are looked up
  unfoldable pub prepare : SlackMessageContext → OutboundMatrixMessage
  prepare ctx =
      let blocks = blocks_of ctx.blocks in
      let html =
        both_html (try render_blocks blocks) (try render_attachments ctx.slack_attachments) in
      let outbound = slack_to_matrix parsers.format_for_matrix (record {
        channel_id = ctx.channel_id;
        sender_id = ctx.sender_id;
        content = unwrap_or (try render_blocks_plain blocks) ctx.content;
        attachments = ctx.attachments;
        reply_to = or_else ctx.reply_to (thread_root ctx.thread_ts ctx.source_message_id);
        edit_of = ctx.edit_of;
      }) in
      record outbound { formatted_body = or_else html outbound.formatted_body }

abbrev pub register : Config → String → Option SlackUser → M Unit
register config sender none = call (ensure_ghost_user_registered sender none)
register config sender (some user) = call (
    ensure_ghost_user_registered sender (
      some (
        apply_pattern_string config.username_pattern
          (("id", user.id) ∷ ("tag", user.discriminator) ∷ ("username", user.username) ∷ []))))

-- the mapping of the message, if it has an id
abbrev pub remember_message : Option String → String → String → M Unit
remember_message none room event = pure tt
remember_message (some source_message_id) room event = do
  now ← utc_now
  write
      (λ s. record s {
        messages = upsert_message_mapping s.messages (record {
          id = 0;
          slack_message_id = source_message_id;
          matrix_room_id = room;
          matrix_event_id = event;
          created_at = now;
          updated_at = now;
        });
      })
      tt

module _ (config : Config) (parsers : Parsers) (show : ℕ → String) where
  abbrev pub forward : SlackMessageContext → Option RoomMapping → M Unit
  forward ctx none = pure tt
  forward ctx (some mapping) = do
    user ← call (get_user ctx.sender_id)
    register config ctx.sender_id user
    reply_mapping ← lookup_relation (prepare parsers ctx).reply_to
    edit_mapping ← lookup_relation (prepare parsers ctx).edit_of
    event ←
        send_outbound mapping.matrix_room_id ctx.sender_id
          (apply_message_relation_mappings (prepare parsers ctx) reply_mapping edit_mapping)
    remember_message ctx.source_message_id mapping.matrix_room_id event

  unfoldable pub handle_slack_message_with_context : SlackMessageContext → M Unit
  handle_slack_message_with_context ctx = do
    room_mapping ← find_by_channel ctx.channel_id
    if is_command S.prefix ctx.content
        then handle_slack_command_outcome show ctx room_mapping
            (S.handle ctx.content (is_some room_mapping) ctx.permissions)
        else forward ctx room_mapping
