-- ===== src/Blocks/Safe/Rendered.antt =====
-- The blocks of a message, against the grammar of HTML.
use text.Mathlib.TextLemmas.{append_assoc}
use matrix_bridge_slack.Prelude.{
  ◌≡◌, refl, ◌∙◌, subst, ap, String, true, false, Option, none, some, All-append, ◌==◌,
}
use matrix_bridge_slack.Text.{◌⧺◌, is_blank, contains_char}
use matrix_bridge_slack.Json.{Value, Values, nil, cons, get, get_str, as_array, and_then}
use matrix_bridge_slack.Blocks.Element.{str_or, elements_of, escape_html}
use matrix_bridge_slack.Blocks.{
  render_rich_text_block, table_rows, section_text, section_table, render_section_block,
  context_text, context_image, context_part, paragraph, render_context_block, captioned,
  render_image_block, header, render_block, render_blocks,
}
use matrix_bridge_slack.Blocks.Html.{
  Tag, Image, Html, IsHtml, IsText-nil, escape_html-IsQuotable, escape_html-Html,
}
use matrix_bridge_slack.Blocks.Safe.{EachValue, Each, PlainBlock, pick_option, literal}
use matrix_bridge_slack.Blocks.Safe.Parts.{
  joined-IsHtml, of_elements-All, of_any, any, opt_list-All, Each-elements, rich_text_block-IsHtml,
}

-- rows that are complete, or that wait for their second cell after the first
table_rows-Html :
    (vs : Values)
    → Html (table_rows false vs) × ((s : String) → Html s → Html ("<tr>" ⧺ s ⧺ table_rows true vs))
unfolding table_rows
table_rows-Html nil = (Html.text "" IsText-nil, λ s h. Html.element "<tr>" s "</tr>" Tag.row h)
table_rows-Html (cons v vs) =
    let text = str_or "text" "" v in
    let cell = "<td>" ⧺ escape_html text ⧺ "</td>" in
    let cell_Html =
      Html.element "<td>" (escape_html text) "</td>" Tag.cell (escape_html-Html text) in
    let (complete, waiting) = table_rows-Html vs in
    (
      waiting cell cell_Html,
      λ s h. subst Html (regroup s cell (table_rows false vs)) (
          Html.append _ _
            (Html.element "<tr>" (s ⧺ cell) "</tr>" Tag.row (Html.append s cell h cell_Html))
            complete),
    )
  where
    regroup : (s c r : String) → ("<tr>" ⧺ (s ⧺ c) ⧺ "</tr>") ⧺ r ≡ "<tr>" ⧺ s ⧺ c ⧺ "</tr>" ⧺ r
    regroup s c r =
        append_assoc "<tr>" ((s ⧺ c) ⧺ "</tr>") r
        ∙ ap (λ x. "<tr>" ⧺ x) (append_assoc (s ⧺ c) "</tr>" r ∙ append_assoc s c ("</tr>" ⧺ r))

section_text-IsHtml : (o : Option Value) → IsHtml (section_text o)
section_text-IsHtml none = tt
section_text-IsHtml (some v) =
    pick_option (is_blank (str_or "text" "" v)) none (some (escape_html (str_or "text" "" v))) tt
      (escape_html-Html (str_or "text" "" v))

section_table-IsHtml : (o : Option Values) → IsHtml (section_table o)
section_table-IsHtml none = tt
section_table-IsHtml (some vs) =
    Html.element "<table>" (table_rows false vs) "</table>" Tag.table (table_rows-Html vs).0

line_break : Html "\n"
unfolding contains_char
line_break = literal "\n" refl refl

section_block-IsHtml : (block : Value) → IsHtml (render_section_block block)
section_block-IsHtml block = joined-IsHtml "\n" _ line_break (
    All-append Html _ _ (opt_list-All _ (section_text-IsHtml (get "text" block)))
      (opt_list-All _ (section_table-IsHtml (and_then (get "fields" block) as_array))))

context_text-IsHtml : (text : String) → IsHtml (context_text text)
context_text-IsHtml text =
    pick_option (is_blank text) none (some ("<em>" ⧺ escape_html text ⧺ "</em>")) tt
      (Html.element "<em>" (escape_html text) "</em>" Tag.em (escape_html-Html text))

context_image-IsHtml : (url alt : String) → IsHtml (context_image url alt)
context_image-IsHtml url alt = pick_option (is_blank url) none _ tt (
    Html.image (escape_html url) (escape_html alt) _ Image.small (escape_html-IsQuotable url)
      (escape_html-IsQuotable alt))

context_part-IsHtml : (elem : Value) → IsHtml (context_part elem)
context_part-IsHtml elem =
    let kind = str_or "type" "" elem in
    let text = context_text-IsHtml (str_or "text" "" elem) in
    let pictured =
      pick_option (kind == "image")
        (context_image (str_or "image_url" "" elem) (str_or "alt_text" "" elem)) none
        (context_image-IsHtml _ (str_or "alt_text" "" elem)) tt in
    pick_option (kind == "mrkdwn") (context_text (str_or "text" "" elem)) _ text
      (pick_option (kind == "plain_text") (context_text (str_or "text" "" elem)) _ text pictured)

paragraph-IsHtml : (o : Option String) → IsHtml o → IsHtml (paragraph o)
paragraph-IsHtml none h = tt
paragraph-IsHtml (some s) h = Html.element "<p>" s "</p>" Tag.paragraph h

context_block-IsHtml : (block : Value) → IsHtml (render_context_block block)
unfolding contains_char
context_block-IsHtml block =
    Each-elements (λ _. Unit) _
      (λ vs _. paragraph-IsHtml _ (
        joined-IsHtml " | " _ (literal " | " refl refl)
          (of_any context_part context_part-IsHtml vs)))
      (elements_of block) (any_option (elements_of block))
  where
    any_option : (o : Option Values) → Each (λ _. Unit) o
    any_option none = tt
    any_option (some vs) = any vs

captioned-Html : (s : String) (o : Option String) → Html s → Html (captioned s o)
captioned-Html s none h = h
captioned-Html s (some title) h = Html.element "<figure>" _ "</figure>" Tag.figure (
    Html.append s _ h (
      Html.element "<figcaption>" (escape_html title) "</figcaption>" Tag.figcaption
        (escape_html-Html title)))

image_block-IsHtml :
    (block : Value) (o : Option String)
    → IsHtml (
        and_then o λ url. some (
          captioned
            ("<img src=\""
              ⧺ escape_html url
              ⧺ "\" alt=\""
              ⧺ escape_html (str_or "alt_text" "image" block)
              ⧺ "\" />")
            (and_then (get "title" block) (get_str "text"))))
image_block-IsHtml block none = tt
image_block-IsHtml block (some url) =
    captioned-Html _ (and_then (get "title" block) (get_str "text")) (
      Html.image (escape_html url) (escape_html (str_or "alt_text" "image" block)) _ Image.full
        (escape_html-IsQuotable url) (escape_html-IsQuotable (str_or "alt_text" "image" block)))

header-IsHtml : (o : Option String) → IsHtml (header o)
header-IsHtml none = tt
header-IsHtml (some s) =
    Html.element "<h3>" (escape_html s) "</h3>" Tag.heading (escape_html-Html s)

render_block-IsHtml : (block : Value) → PlainBlock block → IsHtml (render_block block)
render_block-IsHtml block h =
    let kind = str_or "type" "" block in
    let image =
      pick_option (kind == "image") (render_image_block block) none
        (image_block-IsHtml block (get_str "image_url" block)) tt in
    let context =
      pick_option (kind == "context") (render_context_block block) _ (context_block-IsHtml block)
        image in
    let section =
      pick_option (kind == "section") (render_section_block block) _ (section_block-IsHtml block)
        context in
    let divided = pick_option (kind == "divider") (some "<hr/>") _ Html.rule section in
    let headed =
      pick_option (kind == "header") (header (and_then (get "text" block) (get_str "text"))) _
        (header-IsHtml (and_then (get "text" block) (get_str "text"))) divided in
    pick_option (kind == "rich_text") (render_rich_text_block block) _
      (rich_text_block-IsHtml block h) headed

pub render_blocks-IsHtml :
    (blocks : Values) → EachValue PlainBlock blocks → IsHtml (render_blocks blocks)
unfolding render_blocks
render_blocks-IsHtml blocks h =
    joined-IsHtml "\n" _ line_break
      (of_elements-All PlainBlock render_block render_block-IsHtml blocks h)
