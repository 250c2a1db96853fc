-- ===== src/Bridge/Outgoing.antt =====
-- bridge.rs: a Matrix message, as a command or as a message for the bridged channel; matrix.rs: the
-- check of a power level.
pub mod Addressed
pub mod Coherent
pub mod Delivered
use Prim.Native.String.{[], ◌∷◌}
use matrix_bridge_slack.Prelude.{
  ℕ, zero, suc, ◌*◌, String, Bool, true, false, not, code, Option, none, some, List, [], ◌∷◌,
  is_some, unwrap_or, ltb, leb, eqb, if◌then◌else◌,
}
use matrix_bridge_slack.Text.{◌⧺◌, is_blank, starts_with}
use matrix_bridge_slack.Text.Replace.{chars_after_first}
use matrix_bridge_slack.Json.{Value, Integer, pos, negsuc, get, as_i64, and_then, or_else}
use matrix_bridge_slack.Command.{is_command}
use matrix_bridge_slack.Command.Matrix as C
use matrix_bridge_slack.Db.{RoomMapping, get_room_by_matrix_room}
use matrix_bridge_slack.MessageFlow.{
  MatrixInboundMessage, OutboundSlackMessage, extract_plain_text, parse_matrix_event,
  matrix_to_slack,
}
use matrix_bridge_slack.Bridge.{
  Request, Answer, Result, ok, err, State, Config, Media, send_notice, power_levels,
  get_user_profile, send_message_as_user, send_file_as_user, download_matrix_media,
}
use matrix_bridge_slack.Bridge.Monad.{M, pure, query, call, attempt, ◌>>=◌, ◌>>◌}
use matrix_bridge_slack.Bridge.Rooms.{request_bridge_matrix_room, unbridge_matrix_room}
use matrix_bridge_slack.Bridge.Matrix.{MatrixEvent, is_namespaced_user, unless_ghost, for_some}

abbrev pub at_least : ℕ → Integer → Bool
at_least level (pos n) = leb level n
at_least level (negsuc n) = false

-- `power_levels` of the user, or the room's default, or 0
abbrev pub level_of : String → Value → Integer
level_of user pl =
    unwrap_or
      (or_else (and_then (and_then (get "users" pl) (get user)) as_i64)
        (and_then (get "users_default" pl) as_i64))
      (pos 0)

abbrev pub level_granted : ℕ → String → Result Value → Bool
level_granted required user (ok pl) = at_least required (level_of user pl)
level_granted required user (err e) = false

unfoldable pub check_permission : String → String → ℕ → M Bool
check_permission user room required = do
  pl ← attempt (power_levels room)
  pure (level_granted required user pl)

unfoldable pub handle_matrix_command_outcome :
    Config → C.MatrixCommandOutcome → MatrixEvent → M Unit
handle_matrix_command_outcome config C.ignored event = pure tt
handle_matrix_command_outcome config (C.reply text) event = call (send_notice event.room_id text)
handle_matrix_command_outcome config (C.bridge_requested guild channel) event = do
  text ← request_bridge_matrix_room config event.room_id event.sender guild channel
  call (send_notice event.room_id text)
handle_matrix_command_outcome config C.unbridge_requested event = do
  text ← unbridge_matrix_room config event.room_id
  call (send_notice event.room_id text)

-- an attachment that Slack can take
abbrev pub small_media : Result Media → Option Media
small_media (ok media) = if ltb (8 * 1024 * 1024) media.size then none else some media
small_media (err e) = none

unfoldable pub download_matrix_attachments : List String → M (List (String × Option Media))
download_matrix_attachments [] = pure []
download_matrix_attachments (url ∷ urls) =
    if starts_with url "mxc://"
    then (do
      media ← attempt (download_matrix_media url)
      rest ← download_matrix_attachments urls
      pure ((url, small_media media) ∷ rest))
    else (do rest ← download_matrix_attachments urls; pure ((url, none) ∷ rest))

-- `trim_start_matches(needle)`; `skip` characters belong to the last match
abbrev trim_from : String → ℕ → String → String
trim_from needle skip [] = []
trim_from needle (suc skip) (c ∷ s) = trim_from needle skip s
trim_from needle zero (c ∷ s) =
    let rest = trim_from needle (chars_after_first needle) s in
    if starts_with (c ∷ s) needle then rest else c ∷ s

-- `trim_end_matches('/')`
abbrev trim_end_slashes : String → String
trim_end_slashes [] = []
trim_end_slashes (c ∷ s) =
    let rest = trim_end_slashes s in
    if is_blank rest then (if eqb (code c) 47 then [] else c ∷ rest) else c ∷ rest

abbrev pub avatar_for_slack : Config → Option String → Option String
avatar_for_slack config none = none
avatar_for_slack config (some url) =
    if starts_with url "mxc://"
    then some (
        trim_end_slashes config.homeserver_url
        ⧺ "/_matrix/media/r0/download/"
        ⧺ trim_from "mxc://" 0 url)
    else some url

abbrev pub profile_or : String → Result (Option (String × Option String)) → String × Option String
profile_or user (ok (some profile)) = profile
profile_or user (ok none) = (user, none)
profile_or user (err e) = (user, none)

module _ (channel username : String) (avatar : Option String) where
  abbrev pub send_plain : String → M Unit
  send_plain content = call (send_message_as_user channel content none none username avatar)

  abbrev pub after_upload : String → Media → Result (Unit {0}) → M Unit
  after_upload url media (ok _) = pure tt
  after_upload url media (err e) = send_plain (media.filename ⧺ ": " ⧺ url)

  abbrev pub send_attachment : String → Option Media → M Unit
  send_attachment url none = send_plain ("Attachment: " ⧺ url)
  send_attachment url (some media) =
      if ltb (8 * 1024 * 1024) media.size then send_plain (media.filename ⧺ ": " ⧺ url) else (do
        uploaded ← attempt (send_file_as_user channel media username avatar)
        after_upload url media uploaded)

  unfoldable pub send_all : List (String × Option Media) → M Unit
  send_all [] = pure tt
  send_all ((url, media) ∷ more) = do send_attachment url media; send_all more

  abbrev pub send_content : OutboundSlackMessage → M Unit
  send_content outbound =
      if not (is_blank outbound.content)
      then call (
          send_message_as_user channel outbound.content outbound.reply_to outbound.edit_of username
            avatar)
      else pure tt

abbrev pub send_as :
    Config
    → String
    → OutboundSlackMessage
    → List (String × Option Media)
    → String × Option String
    → M Unit
send_as config channel outbound attachments (username, avatar_url) = do
  send_all channel username (avatar_for_slack config avatar_url) attachments
  send_content channel username (avatar_for_slack config avatar_url) outbound

unfoldable pub send_to_slack_with_attachments :
    Config → String → OutboundSlackMessage → String → List (String × Option Media) → M Unit
send_to_slack_with_attachments config channel outbound matrix_sender attachments = do
  profile ← attempt (get_user_profile matrix_sender)
  send_as config channel outbound attachments (profile_or matrix_sender profile)

-- `strip_html_tags` and `format_for_slack` are of parsers/
module _ (config : Config) (strip_html_tags format_for_slack : String → String) where
  abbrev pub handler : C.MatrixCommandHandler
  handler = C.new config.enable_self_service_bridging none

  abbrev pub run_command : MatrixEvent → String → Option RoomMapping → M Unit
  run_command event body room_mapping = do
    has_permissions ← check_permission event.sender event.room_id 50
    handle_matrix_command_outcome config
        (C.handle handler body (is_some room_mapping) (λ _. C.ok has_permissions)) event

  abbrev pub forward : MatrixEvent → Option RoomMapping → M Unit
  forward event room_mapping = for_some room_mapping λ mapping.
      for_some (parse_matrix_event (extract_plain_text strip_html_tags) event) λ message. do
        attachments ←
            download_matrix_attachments (matrix_to_slack format_for_slack message).attachments
        send_to_slack_with_attachments config mapping.slack_channel_id
            (matrix_to_slack format_for_slack message) event.sender attachments

  abbrev pub body_of : MatrixEvent → String
  body_of event =
      unwrap_or (and_then event.content (λ v. some (extract_plain_text strip_html_tags v))) ""

  unfoldable pub handle_matrix_message : MatrixEvent → M Unit
  handle_matrix_message event = unless_ghost event (do
    room_mapping ← query (λ s. get_room_by_matrix_room s.rooms event.room_id)
    if is_command handler.prefix (body_of event)
        then run_command event (body_of event) room_mapping
        else forward event room_mapping)
