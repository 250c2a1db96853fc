-- ===== src/Emoji.antt =====
-- emoji.rs: Slack's custom emojis, downloaded once, uploaded to Matrix and kept in the emoji store.
pub mod Stored
pub mod Renamed
use Prim.Native.String.{[], ◌∷◌}
use matrix_bridge_slack.Prelude.{
  ℕ, String, code, Bool, true, false, not, ◌&&◌, Option, none, some, leb, ◌==◌, if◌then◌else◌,
}
use mathlib.Core.Option.{map as map_option}
use matrix_bridge_slack.Text.{◌⧺◌, starts_with}
use matrix_bridge_slack.Text.Replace.{trim_end_char}
use matrix_bridge_slack.Json.{Value, get_str}
use matrix_bridge_slack.Db.{Table}
use matrix_bridge_slack.Db.Emojis.{
  EmojiMapping, new, get_emoji_by_slack_id, get_emoji_by_name, create_emoji, upsert_emoji_mapping,
}
use matrix_bridge_slack.Db.Emojis as Store
use matrix_bridge_slack.Bridge.{
  Request, State, Media, Upload, refused, unreadable, replied, download_from_url, post_upload,
}
use matrix_bridge_slack.Bridge.Monad.{M, pure, raise, query, write, try_write, call, ◌>>=◌, ◌>>◌}
use matrix_bridge_slack.Bridge.Rooms.{utc_now}

-- `emoji_id.chars().all(|c| c.is_ascii_digit())`
unfoldable pub is_numerical : String → Bool
is_numerical [] = true
is_numerical (c ∷ s) = let rest = is_numerical s in leb 48 (code c) && leb (code c) 57 && rest

-- the table that a statement leaves, if its constraint accepts it
abbrev pub with_emojis : State → Option (Table EmojiMapping) → Option State
with_emojis s none = none
with_emojis s (some emojis) = some (record s { emojis = emojis })

-- the address in a response, or the error where it has none
abbrev pub address_of : String → Option String → M String
address_of missing none = raise missing
address_of missing (some uri) = pure uri

abbrev pub uploaded_as : String → Upload → M String
uploaded_as missing (refused body) = raise ("Failed to upload emoji: " ⧺ body)
uploaded_as missing (unreadable e) = raise e
uploaded_as missing (replied json) = address_of missing (get_str "content_uri" json)

abbrev pub url_for : String → Bool → String
url_for emoji_id animated =
    "https://cdn.slackapp.com/emojis/" ⧺ emoji_id ⧺ "." ⧺ (if animated then "gif" else "png")

abbrev pub emoji_type : Bool → String
emoji_type animated = if animated then "image/gif" else "image/png"

-- the server, and the encoding of file names in an address
module _ (homeserver_url : String) (encode : String → String) where
  abbrev pub upload_request : String → String → Request
  upload_request content_type filename =
      post_upload
        (trim_end_char 47 homeserver_url ⧺ "/_matrix/media/v3/upload?filename=" ⧺ encode filename)
        content_type

  abbrev pub post : String → String → String → M String
  post missing content_type filename = do
    response ← call (upload_request content_type filename)
    uploaded_as missing response

  unfoldable pub upload_to_matrix : String → String → M String
  upload_to_matrix content_type filename = post "No content_uri in response" content_type filename

  unfoldable pub upload_emoji_to_matrix : Media → M String
  upload_emoji_to_matrix media =
      post "upload response missing content_uri" media.content_type media.filename

  abbrev pub or_upload : String → String → Bool → Option EmojiMapping → M String
  or_upload emoji_id emoji_name animated (some cached) = pure cached.mxc_url
  or_upload emoji_id emoji_name animated none = do
    media ← call (download_from_url (url_for emoji_id animated))
    mxc_url ← upload_to_matrix (emoji_type animated) media.filename
    now ← utc_now
    try_write
        (λ s. with_emojis s (create_emoji s.emojis (new emoji_id emoji_name animated mxc_url now)))
        tt
    pure mxc_url

  unfoldable pub get_or_upload_emoji : String → String → Bool → M String
  get_or_upload_emoji emoji_id emoji_name animated =
      if not (is_numerical emoji_id) then raise ("Non-numerical emoji ID: " ⧺ emoji_id) else (do
        cached ← query (λ s. get_emoji_by_slack_id s.emojis emoji_id)
        or_upload emoji_id emoji_name animated cached)

  abbrev pub get_emoji_mxc : String → M (Option String)
  get_emoji_mxc emoji_id =
      query (λ s. map_option (λ e. e.mxc_url) (get_emoji_by_slack_id s.emojis emoji_id))

  unfoldable pub delete_emoji : String → M Unit
  delete_emoji emoji_id = write (λ s. record s { emojis = Store.delete_emoji s.emojis emoji_id }) tt

  unfoldable pub download_and_cache_emoji : String → String → M Unit
  download_and_cache_emoji name url = do
    media ← call (download_from_url url)
    mxc_url ← upload_emoji_to_matrix media
    now ← utc_now
    try_write (λ s. with_emojis s (upsert_emoji_mapping s.emojis name mxc_url now)) tt

  abbrev pub delete_existing : Option EmojiMapping → M Unit
  delete_existing none = pure tt
  delete_existing (some existing) = delete_emoji existing.slack_emoji_id

  unfoldable pub delete_emoji_by_name : String → M Unit
  delete_emoji_by_name name = do
    existing ← query (λ s. get_emoji_by_name s.emojis name)
    delete_existing existing

  unfoldable pub rename_emoji : String → String → M Unit
  rename_emoji old_name new_name = do
    now ← utc_now
    write (λ s. record s { emojis = Store.rename_emoji s.emojis old_name new_name now }) tt

  abbrev pub on_add : String → Option String → M Unit
  on_add name none = pure tt
  on_add name (some url) =
      if starts_with url "alias:" then pure tt else download_and_cache_emoji name url

  abbrev pub on_rename : String → Option String → M Unit
  on_rename name none = pure tt
  on_rename name (some new_name) = rename_emoji name new_name

  unfoldable pub handle_emoji_change : String → String → Option String → M Unit
  handle_emoji_change subtype name value =
      if subtype == "add"
      then on_add name value
      else if subtype == "remove"
      then delete_emoji_by_name name
      else if subtype == "rename"
      then on_rename name value
      else pure tt

abbrev pub emoji_to_matrix_html : String → String → String
emoji_to_matrix_html mxc_url emoji_name =
    "<img data-mx-emoticon src=\"" ⧺ mxc_url ⧺ "\" alt=\":" ⧺ emoji_name ⧺ ":\" title=\":"
    ⧺ emoji_name ⧺ ":\" height=\"32\" width=\"32\" />"

abbrev pub emoji_to_matrix_plain : String → String
emoji_to_matrix_plain emoji_name = ":" ⧺ emoji_name ⧺ ":"
