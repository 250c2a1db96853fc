-- ===== src/Blocks/Plain.antt =====
-- parsers/blocks.rs: Slack's blocks as plain text, for the body of a Matrix message.
use Prim.Native.String.{[]}
use matrix_bridge_slack.Prelude.{
  ℕ, ◌+◌, ◌%◌, ◌^◌, String, Bool, Option, none, some, List, [], ◌++◌, ◌==◌, if◌then◌else◌,
}
use matrix_bridge_slack.Text.{◌⧺◌, is_blank, join}
use matrix_bridge_slack.Text.Decimal.{show_ℕ}
use matrix_bridge_slack.Text.Replace.{lines, map_text}
use matrix_bridge_slack.Json.{Value, Values, nil, cons, get, get_str, as_array, and_then}
use matrix_bridge_slack.Blocks.{offset_of}
use matrix_bridge_slack.Blocks.Element.{
  str_or, elements_of, opt_list, with_part, of_elements, joined, unless_blank_html, emoji,
}

abbrev labelled_url : String → Option String → String
labelled_url url none = url
labelled_url url (some text) = text ⧺ " (" ⧺ url ⧺ ")"

unfoldable pub render_rich_text_element_plain : Value → String
render_rich_text_element_plain elem =
    let kind = str_or "type" "" elem in
    if kind == "text"
    then str_or "text" "" elem
    else if kind == "user"
    then "@" ⧺ str_or "user_id" "" elem
    else if kind == "channel"
    then "#" ⧺ str_or "channel_id" "" elem
    else if kind == "link"
    then labelled_url (str_or "url" "" elem) (get_str "text" elem)
    else if kind == "emoji"
    then emoji (str_or "name" "" elem) (get_str "unicode" elem)
    else if kind == "broadcast"
    then "@" ⧺ str_or "range" "everyone" elem
    else []

unfoldable pub elements_plain : Values → String
elements_plain nil = []
elements_plain (cons elem more) = render_rich_text_element_plain elem ⧺ elements_plain more

abbrev pub render_rich_text_section_plain : Value → Option String
render_rich_text_section_plain element =
    and_then (elements_of element) λ inner. unless_blank_html (elements_plain inner)

-- the texts of the elements that have one
abbrev pub texts_of : Values → String
texts_of inner = join "" (of_elements (get_str "text") inner)

abbrev pub fenced : String → Option String
fenced text = if is_blank text then none else some ("```\n" ⧺ text ⧺ "\n```")

abbrev pub quoted_lines : String → Option String
quoted_lines text =
    if is_blank text then none else some (join "\n" (map_text (λ line. "> " ⧺ line) (lines text)))

-- `i` counts all the items, and the offset is a u64
abbrev pub list_line : Bool → ℕ → Option String → Option String
list_line ordered number none = none
list_line ordered number (some text) =
    if ordered then some (show_ℕ number ⧺ ". " ⧺ text) else some ("• " ⧺ text)

abbrev pub list_lines : Bool → ℕ → ℕ → Values → List String
list_lines ordered offset i nil = []
list_lines ordered offset i (cons item more) =
    with_part (list_line ordered ((offset + i + 1) % 2 ^ 64) (render_rich_text_section_plain item))
      (list_lines ordered offset (i + 1) more)

abbrev pub render_rich_text_list_plain : Value → Option String
render_rich_text_list_plain element = and_then (elements_of element) λ items.
    joined "\n"
      (list_lines (str_or "style" "bullet" element == "ordered") (offset_of element) 0 items)

abbrev pub render_rich_part_plain : Value → Option String
render_rich_part_plain element =
    let kind = str_or "type" "" element in
    if kind == "rich_text_section"
    then render_rich_text_section_plain element
    else if kind == "rich_text_preformatted"
    then and_then (elements_of element) (λ inner. fenced (texts_of inner))
    else if kind == "rich_text_quote"
    then and_then (elements_of element) (λ inner. quoted_lines (texts_of inner))
    else if kind == "rich_text_list"
    then render_rich_text_list_plain element
    else none

abbrev pub render_rich_text_block_plain : Value → Option String
render_rich_text_block_plain block =
    and_then (elements_of block)
      λ elements. joined "\n" (of_elements render_rich_part_plain elements)

-- the text of a value, if it is not empty
abbrev pub solid_text : Value → Option String
solid_text v = unless_blank_html (str_or "text" "" v)

abbrev text_object : Option Value → List String
text_object none = []
text_object (some text_obj) = opt_list (solid_text text_obj)

abbrev field_texts : Option Values → List String
field_texts none = []
field_texts (some fields) = of_elements solid_text fields

abbrev pub render_section_block_plain : Value → Option String
render_section_block_plain block =
    joined "\n"
      (text_object (get "text" block) ++ field_texts (and_then (get "fields" block) as_array))

abbrev pub render_context_block_plain : Value → Option String
render_context_block_plain block =
    and_then (elements_of block) λ elements. joined " | " (of_elements solid_text elements)

abbrev pub render_block_plain : Value → Option String
render_block_plain block =
    let kind = str_or "type" "" block in
    if kind == "rich_text"
    then render_rich_text_block_plain block
    else if kind == "header"
    then and_then (get "text" block) (get_str "text")
    else if kind == "divider"
    then some "---"
    else if kind == "section"
    then render_section_block_plain block
    else if kind == "context"
    then render_context_block_plain block
    else if kind == "image"
    then some ("[" ⧺ str_or "alt_text" "image" block ⧺ "](" ⧺ str_or "image_url" "" block ⧺ ")")
    else none

unfoldable pub render_blocks_plain : Values → Option String
render_blocks_plain blocks = joined "\n" (of_elements render_block_plain blocks)
