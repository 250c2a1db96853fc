-- ===== src/Embed.antt =====
-- slack/embed.rs: a message with its author, and with the start of the message it replies to. A slice
-- that does not end between two characters panics, which is `none` here.
pub mod Preview
use Prim.Native.String.{[], ◌∷◌}
use matrix_bridge_slack.Prelude.{
  ℕ, zero, suc, ◌+◌, ◌-◌, ◌^◌, String, Char, code, Bool, true, false, Option, none, some, List, [],
  ◌∷◌, ◌++◌, ltb, leb, if◌then◌else◌,
}
use mathlib.Core.Option.{map as map_option}
use matrix_bridge_slack.Text.{◌⧺◌}
use matrix_bridge_slack.Json.{
  Value, Values, Members, pos, string, bool, number, array, object, member, end, nil, cons,
  and_then,
}

-- how many bytes UTF-8 takes for a character, and for a text: `str::len`
abbrev pub byte_count : ℕ → ℕ
byte_count c = if ltb c 128 then 1 else if ltb c 2048 then 2 else if ltb c 65536 then 3 else 4

unfoldable pub byte_len : String → ℕ
byte_len [] = 0
byte_len (c ∷ s) = byte_count (code c) + byte_len s

-- `&s[..n]`
unfoldable pub byte_prefix : String → ℕ → Option String
byte_prefix [] n = if ltb 0 n then none else some []
byte_prefix (c ∷ s) n =
    let rest = byte_prefix s (n - byte_count (code c)) in
    if ltb 0 n
    then (if ltb n (byte_count (code c)) then none else map_option (λ p. c ∷ p) rest)
    else some []

pub record EmbedAuthor : Type 0 where
  pub name : String
  pub icon_url : Option String
  pub url : Option String

pub record EmbedField : Type 0 where
  pub name : String
  pub value : String
  pub inline : Bool

pub record EmbedFooter : Type 0 where
  pub text : String
  pub icon_url : Option String

pub record SlackEmbed : Type 0 where
  pub title : Option String
  pub description : Option String
  pub url : Option String
  pub timestamp : Option String
  pub color : Option ℕ
  pub footer : Option EmbedFooter
  pub author : Option EmbedAuthor
  pub fields : List EmbedField
  pub image_url : Option String
  pub thumbnail_url : Option String

abbrev pub new : SlackEmbed
new = record {
  title = none;
  description = none;
  url = none;
  timestamp = none;
  color = none;
  footer = none;
  author = none;
  fields = [];
  image_url = none;
  thumbnail_url = none;
}

-- the method `field`
abbrev pub add_field : String → String → Bool → SlackEmbed → SlackEmbed
add_field name value inline embed = record embed {
  fields = embed.fields ++ record { name = name; value = value; inline = inline } ∷ [];
}

-- `map.insert(key, …)` of a value that may be missing; the keys of a map differ
abbrev pub put : String → Option Value → Members → Members
put key none ms = ms
put key (some v) ms = member key v ms

abbrev pub text_value : Option String → Option Value
text_value none = none
text_value (some s) = some (string s)

abbrev pub author_json : EmbedAuthor → Value
author_json author = object (
    member "name" (string author.name)
      (put "icon_url" (text_value author.icon_url) (put "url" (text_value author.url) end)))

abbrev pub footer_json : EmbedFooter → Value
footer_json footer =
    object (member "text" (string footer.text) (put "icon_url" (text_value footer.icon_url) end))

abbrev pub field_json : EmbedField → Value
field_json f = object (
    member "name" (string f.name)
      (member "value" (string f.value) (member "inline" (bool f.inline) end)))

abbrev pub fields_json : List EmbedField → Values
fields_json [] = nil
fields_json (f ∷ fs) = cons (field_json f) (fields_json fs)

abbrev pub fields_value : List EmbedField → Option Value
fields_value [] = none
fields_value (f ∷ fs) = some (array (fields_json (f ∷ fs)))

abbrev pub url_json : Option String → Option Value
url_json none = none
url_json (some url) = some (object (member "url" (string url) end))

unfoldable pub to_json : SlackEmbed → Value
to_json embed = object (
    put "title" (text_value embed.title) (
      put "description" (text_value embed.description) (
        put "url" (text_value embed.url) (
          put "timestamp" (text_value embed.timestamp) (
            put "color" (map_option (λ c. number (pos c)) embed.color) (
              put "author" (map_option author_json embed.author) (
                put "footer" (map_option footer_json embed.footer) (
                  put "fields" (fields_value embed.fields) (
                    put "image" (url_json embed.image_url)
                      (put "thumbnail" (url_json embed.thumbnail_url) end))))))))))

-- the first hundred bytes of a longer text
unfoldable pub preview : String → Option String
preview body =
    if ltb 100 (byte_len body)
    then map_option (λ p. p ⧺ "...") (byte_prefix body 100)
    else some body

abbrev pub authored : String → Option String → String → SlackEmbed
authored sender_displayname sender_avatar_url body = record new {
  description = some body;
  author = some (record { name = sender_displayname; icon_url = sender_avatar_url; url = none });
}

unfoldable pub build_matrix_message_embed :
    String → Option String → String → Option (String × String) → Option SlackEmbed
build_matrix_message_embed sender_displayname sender_avatar_url body none =
    some (authored sender_displayname sender_avatar_url body)
build_matrix_message_embed sender_displayname sender_avatar_url body
      (some (reply_sender, reply_body)) =
    map_option
      (λ p.
        add_field ("Replying to " ⧺ reply_sender) p false
          (authored sender_displayname sender_avatar_url body))
      (preview reply_body)

abbrev pub with_footer : String → Option String → SlackEmbed → SlackEmbed
with_footer original_sender none embed = embed
with_footer original_sender (some event_id) embed = record embed {
  footer = some (record { text = "Reply to " ⧺ original_sender; icon_url = none });
}

unfoldable pub build_reply_embed : String → String → Option String → Option SlackEmbed
build_reply_embed original_sender original_body original_event_id =
    map_option
      (λ p.
        record (with_footer original_sender original_event_id
          (record new { description = some p })) { color = some 2960685 })
      (preview original_body)
