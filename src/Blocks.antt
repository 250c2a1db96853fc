-- ===== src/Blocks.antt =====
-- parsers/blocks.rs: Slack's blocks and attachments as the HTML of a Matrix message.
pub mod Element
pub mod Html
pub mod Safe
pub mod Plain
pub mod Attachment
use Prim.Native.String.{[]}
use matrix_bridge_slack.Prelude.{
  ℕ, ◌+◌, ◌%◌, ◌^◌, String, Bool, true, false, ◌&&◌, not, Option, none, some, List, [], ◌∷◌, ◌++◌,
  unwrap_or, ltb, ◌==◌, is_empty, if◌then◌else◌,
}
use matrix_bridge_slack.Text.{◌⧺◌, is_blank, join}
use matrix_bridge_slack.Text.Decimal.{show_ℕ}
use matrix_bridge_slack.Json.{
  Value, Values, Integer, pos, negsuc, nil, cons, get, get_str, as_str, as_array, as_u64, and_then,
}
use matrix_bridge_slack.Blocks.Element.{
  str_or, joined, opt_list, escape_html, render_rich_text_element, of_elements, elements_of,
  unless_blank_html,
}

-- the rendered elements of a section
unfoldable pub elements_html : Values → String
elements_html nil = []
elements_html (cons elem more) = render_rich_text_element elem ⧺ elements_html more

abbrev pub render_rich_text_section : Value → Option String
render_rich_text_section element =
    and_then (elements_of element) λ inner. unless_blank_html (elements_html inner)

unfoldable pub code_html : Values → String
code_html nil = []
code_html (cons elem more) =
    let rest = code_html more in
    if str_or "type" "" elem == "text" then escape_html (str_or "text" "" elem) ⧺ rest else rest

abbrev pub preformatted : String → Option String
preformatted code =
    if is_blank code then none else some ("<pre>" ⧺ ("<code>" ⧺ code ⧺ "</code>") ⧺ "</pre>")

abbrev pub render_rich_text_preformatted : Value → Option String
render_rich_text_preformatted element =
    and_then (elements_of element) λ inner. preformatted (code_html inner)

abbrev pub quoted : String → Option String
quoted content =
    if is_blank content then none else some ("<blockquote>" ⧺ content ⧺ "</blockquote>")

abbrev pub render_rich_text_quote : Value → Option String
render_rich_text_quote element =
    and_then (elements_of element) λ inner. quoted (elements_html inner)

abbrev pub list_item : Option String → String
list_item none = []
list_item (some section_html) = "<li>" ⧺ section_html ⧺ "</li>"

unfoldable pub list_items : Values → String
list_items nil = []
list_items (cons item more) = list_item (render_rich_text_section item) ⧺ list_items more

abbrev pub offset_of : Value → ℕ
offset_of element = unwrap_or (and_then (get "offset" element) as_u64) 0

abbrev pub list_html : Bool → ℕ → Values → String
list_html ordered offset items =
    if ordered
    then (if ltb 0 offset
        then "<ol start=\"" ⧺ show_ℕ ((offset + 1) % 2 ^ 64) ⧺ "\">" ⧺ list_items items ⧺ "</ol>"
        else "<ol>" ⧺ list_items items ⧺ "</ol>")
    else "<ul>" ⧺ list_items items ⧺ "</ul>"

abbrev pub render_rich_text_list : Value → Option String
render_rich_text_list element = and_then (elements_of element) λ items.
    some (list_html (str_or "style" "bullet" element == "ordered") (offset_of element) items)

abbrev pub render_rich_part : Value → Option String
render_rich_part element =
    let kind = str_or "type" "" element in
    if kind == "rich_text_section"
    then render_rich_text_section element
    else if kind == "rich_text_preformatted"
    then render_rich_text_preformatted element
    else if kind == "rich_text_quote"
    then render_rich_text_quote element
    else if kind == "rich_text_list"
    then render_rich_text_list element
    else none

abbrev pub render_rich_text_block : Value → Option String
render_rich_text_block block =
    and_then (elements_of block) λ elements. joined "" (of_elements render_rich_part elements)

-- the cells of a table; `odd` says that a row has one cell already
unfoldable pub table_rows : Bool → Values → String
table_rows odd nil = if odd then "</tr>" else []
table_rows odd (cons field more) =
    let cell = "<td>" ⧺ escape_html (str_or "text" "" field) ⧺ "</td>" in
    let rest = table_rows (not odd) more in
    if odd then cell ⧺ "</tr>" ⧺ rest else "<tr>" ⧺ cell ⧺ rest

abbrev pub section_text : Option Value → Option String
section_text none = none
section_text (some text_obj) =
    let text = str_or "text" "" text_obj in if is_blank text then none else some (escape_html text)

abbrev pub section_table : Option Values → Option String
section_table none = none
section_table (some fields) = some ("<table>" ⧺ table_rows false fields ⧺ "</table>")

abbrev pub render_section_block : Value → Option String
render_section_block block = joined "\n" (
    opt_list (section_text (get "text" block))
    ++ opt_list (section_table (and_then (get "fields" block) as_array)))

abbrev pub context_text : String → Option String
context_text text = if is_blank text then none else some ("<em>" ⧺ escape_html text ⧺ "</em>")

abbrev pub context_image : String → String → Option String
context_image url alt =
    if is_blank url
    then none
    else some (
        "<img src=\""
        ⧺ escape_html url
        ⧺ "\" alt=\""
        ⧺ escape_html alt
        ⧺ "\" height=\"16\" width=\"16\" />")

abbrev pub context_part : Value → Option String
context_part elem =
    let kind = str_or "type" "" elem in
    if kind == "mrkdwn"
    then context_text (str_or "text" "" elem)
    else if kind == "plain_text"
    then context_text (str_or "text" "" elem)
    else if kind == "image"
    then context_image (str_or "image_url" "" elem) (str_or "alt_text" "" elem)
    else none

abbrev pub paragraph : Option String → Option String
paragraph none = none
paragraph (some text) = some ("<p>" ⧺ text ⧺ "</p>")

abbrev pub render_context_block : Value → Option String
render_context_block block =
    and_then (elements_of block)
      λ elements. paragraph (joined " | " (of_elements context_part elements))

abbrev pub captioned : String → Option String → String
captioned html none = html
captioned html (some title) =
    "<figure>" ⧺ (html ⧺ ("<figcaption>" ⧺ escape_html title ⧺ "</figcaption>")) ⧺ "</figure>"

abbrev pub render_image_block : Value → Option String
render_image_block block = and_then (get_str "image_url" block) λ url. some (
    captioned
      ("<img src=\""
        ⧺ escape_html url
        ⧺ "\" alt=\""
        ⧺ escape_html (str_or "alt_text" "image" block)
        ⧺ "\" />")
      (and_then (get "title" block) (get_str "text")))

abbrev pub header : Option String → Option String
header none = none
header (some text) = some ("<h3>" ⧺ escape_html text ⧺ "</h3>")

abbrev pub render_block : Value → Option String
render_block block =
    let kind = str_or "type" "" block in
    if kind == "rich_text"
    then render_rich_text_block block
    else if kind == "header"
    then header (and_then (get "text" block) (get_str "text"))
    else if kind == "divider"
    then some "<hr/>"
    else if kind == "section"
    then render_section_block block
    else if kind == "context"
    then render_context_block block
    else if kind == "image"
    then render_image_block block
    else none

unfoldable pub render_blocks : Values → Option String
render_blocks blocks = joined "\n" (of_elements render_block blocks)
