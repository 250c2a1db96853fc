-- ===== src/Blocks/Attachment.antt =====
-- parsers/blocks.rs: Slack's message attachments as the HTML of a Matrix message.
use matrix_bridge_slack.Prelude.{
  String, false, ◌&&◌, Option, none, some, List, [], ◌∷◌, ◌++◌, unwrap_or, if◌then◌else◌,
}
use matrix_bridge_slack.Text.{◌⧺◌, is_blank}
use matrix_bridge_slack.Json.{Value, Values, get, get_str, as_array, as_bool, and_then}
use matrix_bridge_slack.Blocks.Element.{str_or, of_elements, joined, escape_html}

-- a bold name, with a link if there is one
abbrev pub bold_name : Option String → Option String → List String
bold_name none link = []
bold_name (some name) none = ("<strong>" ⧺ escape_html name ⧺ "</strong>") ∷ []
bold_name (some name) (some url) =
    ("<strong>"
      ⧺ ("<a href=\"" ⧺ escape_html url ⧺ "\">" ⧺ escape_html name ⧺ "</a>")
      ⧺ "</strong>")
    ∷ []

-- an escaped text, if it is there and not empty
abbrev pub escaped : Option String → List String
escaped none = []
escaped (some text) = if is_blank text then [] else escape_html text ∷ []

abbrev pub text_or_fallback : Option String → Option String → List String
text_or_fallback none fallback = escaped fallback
text_or_fallback (some text) fallback = escaped (some text)

abbrev pub field_html : String → String → Option String
field_html title value =
    if is_blank title && is_blank value
    then none
    else some (("<strong>" ⧺ escape_html title ⧺ "</strong>") ⧺ ": " ⧺ escape_html value)

abbrev pub render_fields : Option Values → List String
render_fields none = []
render_fields (some fields) =
    of_elements (λ field. field_html (str_or "title" "" field) (str_or "value" "" field)) fields

abbrev pub image_html : Option String → List String
image_html none = []
image_html (some image_url) =
    ("<img src=\"" ⧺ escape_html image_url ⧺ "\" alt=\"attachment\" />") ∷ []

abbrev pub footer_html : Option String → List String
footer_html none = []
footer_html (some footer) =
    if is_blank footer then [] else ("<em>" ⧺ escape_html footer ⧺ "</em>") ∷ []

abbrev pub attachment_parts : Value → List String
attachment_parts attachment =
    bold_name (get_str "author_name" attachment) (get_str "author_link" attachment)
    ++ (bold_name (get_str "title" attachment) (get_str "title_link" attachment)
        ++ (escaped (get_str "pretext" attachment)
            ++ (text_or_fallback (get_str "text" attachment) (get_str "fallback" attachment)
                ++ (render_fields (and_then (get "fields" attachment) as_array)
                    ++ (image_html (get_str "image_url" attachment)
                        ++ footer_html (get_str "footer" attachment))))))

abbrev pub in_quote : Option String → Option String
in_quote none = none
in_quote (some html) = some ("<blockquote>" ⧺ html ⧺ "</blockquote>")

abbrev pub render_single_attachment : Value → Option String
render_single_attachment attachment =
    if unwrap_or (and_then (get "is_msg_unfurl" attachment) as_bool) false
    then none
    else in_quote (joined "<br/>" (attachment_parts attachment))

unfoldable pub render_attachments : Values → Option String
render_attachments attachments = joined "\n" (of_elements render_single_attachment attachments)
