-- ===== src/Blocks/Safe/Attached.antt =====
-- The attachments of a message, against the grammar of HTML.
use matrix_bridge_slack.Prelude.{
  refl, unwrap_or, String, Bool, true, false, ◌&&◌, Option, none, some, [], ◌∷◌, All, All-append,
  if◌then◌else◌,
}
use matrix_bridge_slack.Text.{is_blank, contains_char}
use matrix_bridge_slack.Json.{Value, Values, get, get_str, as_array, as_bool, and_then}
use matrix_bridge_slack.Blocks.Element.{str_or, escape_html}
use matrix_bridge_slack.Blocks.Attachment.{
  bold_name, escaped, text_or_fallback, field_html, render_fields, image_html, footer_html,
  attachment_parts, in_quote, render_single_attachment, render_attachments,
}
use matrix_bridge_slack.Blocks.Html.{
  Tag, Attribute, Html, IsHtml, escape_html-IsQuotable, escape_html-Html,
}
use matrix_bridge_slack.Blocks.Safe.{pick_option, literal}
use matrix_bridge_slack.Blocks.Safe.Parts.{joined-IsHtml, of_any}

bold_name-All : (name url : Option String) → All Html (bold_name name url)
bold_name-All none url = tt
bold_name-All (some name) none =
    (Html.element "<strong>" (escape_html name) "</strong>" Tag.strong (escape_html-Html name), tt)
bold_name-All (some name) (some url) = (
  Html.element "<strong>" _ "</strong>" Tag.strong (
      Html.with_value "<a href=\"" (escape_html url) "\">" (escape_html name) "</a>" Attribute.link
        (escape_html-IsQuotable url) (escape_html-Html name)),
  tt,
)

-- a list of one element, unless a test leaves it out
one_unless : (b : Bool) (s : String) → Html s → All Html (if b then [] else s ∷ [])
one_unless true s h = tt
one_unless false s h = (h, tt)

escaped-All : (o : Option String) → All Html (escaped o)
escaped-All none = tt
escaped-All (some text) = one_unless (is_blank text) (escape_html text) (escape_html-Html text)

text_or_fallback-All : (text fallback : Option String) → All Html (text_or_fallback text fallback)
text_or_fallback-All none fallback = escaped-All fallback
text_or_fallback-All (some text) fallback = escaped-All (some text)

field_html-IsHtml : (title value : String) → IsHtml (field_html title value)
unfolding contains_char
field_html-IsHtml title value = pick_option (is_blank title && is_blank value) none _ tt (
    Html.append _ _
      (Html.element "<strong>" (escape_html title) "</strong>" Tag.strong (escape_html-Html title))
      (Html.append ": " _ (literal ": " refl refl) (escape_html-Html value)))

render_fields-All : (o : Option Values) → All Html (render_fields o)
render_fields-All none = tt
render_fields-All (some vs) =
    of_any _ (λ v. field_html-IsHtml (str_or "title" "" v) (str_or "value" "" v)) vs

image_html-All : (o : Option String) → All Html (image_html o)
image_html-All none = tt
image_html-All (some url) = (Html.attached (escape_html url) (escape_html-IsQuotable url), tt)

footer_html-All : (o : Option String) → All Html (footer_html o)
footer_html-All none = tt
footer_html-All (some text) =
    one_unless (is_blank text) _
      (Html.element "<em>" (escape_html text) "</em>" Tag.em (escape_html-Html text))

attachment_parts-All : (v : Value) → All Html (attachment_parts v)
attachment_parts-All v =
    let name = bold_name-All (get_str "author_name" v) (get_str "author_link" v) in
    let title = bold_name-All (get_str "title" v) (get_str "title_link" v) in
    let text = text_or_fallback-All (get_str "text" v) (get_str "fallback" v) in
    let fields = render_fields-All (and_then (get "fields" v) as_array) in
    let image = image_html-All (get_str "image_url" v) in
    let pictured = All-append Html _ _ image (footer_html-All (get_str "footer" v)) in
    let listed = All-append Html _ _ fields pictured in
    let told = All-append Html _ _ text listed in
    let introduced = All-append Html _ _ (escaped-All (get_str "pretext" v)) told in
    All-append Html _ _ name (All-append Html _ _ title introduced)

in_quote-IsHtml : (o : Option String) → IsHtml o → IsHtml (in_quote o)
in_quote-IsHtml none h = tt
in_quote-IsHtml (some s) h = Html.element "<blockquote>" s "</blockquote>" Tag.blockquote h

single-IsHtml : (v : Value) → IsHtml (render_single_attachment v)
single-IsHtml v =
    pick_option (unwrap_or (and_then (get "is_msg_unfurl" v) as_bool) false) none _ tt
      (in_quote-IsHtml _ (joined-IsHtml "<br/>" _ Html.break (attachment_parts-All v)))

pub render_attachments-IsHtml : (attachments : Values) → IsHtml (render_attachments attachments)
unfolding render_attachments contains_char
render_attachments-IsHtml attachments =
    joined-IsHtml "\n" _ (literal "\n" refl refl)
      (of_any render_single_attachment single-IsHtml attachments)
