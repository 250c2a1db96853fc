-- ===== src/Blocks/Safe/Parts.antt =====
-- The parts of a rich text, against the grammar of HTML.
use matrix_bridge_slack.Prelude.{
  ℕ, ◌+◌, ◌%◌, ◌^◌, String, Bool, Option, none, some, List, [], ◌∷◌, All, ltb, ◌==◌,
}
use matrix_bridge_slack.Text.{◌⧺◌, is_blank}
use matrix_bridge_slack.Text.Decimal.{show_ℕ}
use matrix_bridge_slack.Json.{Value, Values, nil, cons, and_then}
use matrix_bridge_slack.Blocks.Element.{
  str_or, elements_of, opt_list, with_part, of_elements, joined, unless_blank_html,
}
use matrix_bridge_slack.Blocks.{
  render_rich_text_section, code_html, preformatted, render_rich_text_preformatted, quoted,
  render_rich_text_quote, list_item, list_items, offset_of, list_html, render_rich_text_list,
  render_rich_part, render_rich_text_block,
}
use matrix_bridge_slack.Blocks.Html.{
  Tag, Attribute, Html, IsHtml, IsText-nil, escape_html-Html, join-Html,
}
use matrix_bridge_slack.Blocks.Safe.{
  EachValue, Each, HasPlainValues, PlainSection, PlainPart, PlainBlock, pick, pick_option,
  show_ℕ-IsQuotable, elements_html-Html,
}

pub joined-IsHtml :
    (sep : String) (parts : List String) → Html sep → All Html parts → IsHtml (joined sep parts)
joined-IsHtml sep [] hs h = tt
joined-IsHtml sep (part ∷ parts) hs h = join-Html sep (part ∷ parts) hs h

pub with_part-All :
    (o : Option String) (parts : List String)
    → IsHtml o
    → All Html parts
    → All Html (with_part o parts)
with_part-All none parts ho h = h
with_part-All (some part) parts ho h = (ho, h)

pub of_elements-All :
    (P : Value → Type 0) (f : Value → Option String)
    → ((v : Value) → P v → IsHtml (f v))
    → (vs : Values) → EachValue P vs
    → All Html (of_elements f vs)
of_elements-All P f hf nil h = tt
of_elements-All P f hf (cons v vs) h =
    with_part-All (f v) _ (hf v h.0) (of_elements-All P f hf vs h.1)

-- with no condition on the values
pub any : (vs : Values) → EachValue (λ _. Unit) vs
any nil = tt
any (cons v vs) = (tt, any vs)

pub of_any :
    (f : Value → Option String)
    → ((v : Value) → IsHtml (f v))
    → (vs : Values) → All Html (of_elements f vs)
of_any f hf vs = of_elements-All (λ _. Unit) f (λ v _. hf v) vs (any vs)

pub opt_list-All : (o : Option String) → IsHtml o → All Html (opt_list o)
opt_list-All none h = tt
opt_list-All (some s) h = (h, tt)

unless_blank-IsHtml : (s : String) → Html s → IsHtml (unless_blank_html s)
unless_blank-IsHtml s h = pick_option (is_blank s) none (some s) tt h

pub Each-elements :
    (P : Value → Type 0) (f : Values → Option String)
    → ((vs : Values) → EachValue P vs → IsHtml (f vs))
    → (o : Option Values) → Each P o
    → IsHtml (and_then o f)
Each-elements P f hf none h = tt
Each-elements P f hf (some vs) h = hf vs h

section-IsHtml : (part : Value) → PlainSection part → IsHtml (render_rich_text_section part)
section-IsHtml part h =
    Each-elements HasPlainValues _ (λ vs hs. unless_blank-IsHtml _ (elements_html-Html vs hs))
      (elements_of part) h

code_html-Html : (vs : Values) → Html (code_html vs)
unfolding code_html
code_html-Html nil = Html.text "" IsText-nil
code_html-Html (cons v vs) =
    pick (str_or "type" "" v == "text") _ _
      (Html.append _ _ (escape_html-Html (str_or "text" "" v)) (code_html-Html vs))
      (code_html-Html vs)

preformatted-IsHtml : (code : String) → Html code → IsHtml (preformatted code)
preformatted-IsHtml code h =
    pick_option (is_blank code) none (some ("<pre>" ⧺ ("<code>" ⧺ code ⧺ "</code>") ⧺ "</pre>")) tt
      (Html.element "<pre>" _ "</pre>" Tag.pre
        (Html.element "<code>" code "</code>" Tag.inline_code h))

quoted-IsHtml : (content : String) → Html content → IsHtml (quoted content)
quoted-IsHtml content h =
    pick_option (is_blank content) none (some ("<blockquote>" ⧺ content ⧺ "</blockquote>")) tt
      (Html.element "<blockquote>" content "</blockquote>" Tag.blockquote h)

list_item-Html : (o : Option String) → IsHtml o → Html (list_item o)
list_item-Html none h = Html.text "" IsText-nil
list_item-Html (some s) h = Html.element "<li>" s "</li>" Tag.item h

list_items-Html : (vs : Values) → EachValue PlainSection vs → Html (list_items vs)
unfolding list_items
list_items-Html nil h = Html.text "" IsText-nil
list_items-Html (cons v vs) h =
    Html.append _ _ (list_item-Html _ (section-IsHtml v h.0)) (list_items-Html vs h.1)

list_html-Html :
    (o : Bool) (offset : ℕ) (vs : Values) → EachValue PlainSection vs → Html (list_html o offset vs)
list_html-Html o offset vs h =
    let items = list_items-Html vs h in
    let n = (offset + 1) % 2 ^ 64 in
    pick o _ _
      (pick (ltb 0 offset) _ _
        (Html.with_value "<ol start=\"" (show_ℕ n) "\">" (list_items vs) "</ol>" Attribute.numbered
          (show_ℕ-IsQuotable n) items)
        (Html.element "<ol>" (list_items vs) "</ol>" Tag.ordered items))
      (Html.element "<ul>" (list_items vs) "</ul>" Tag.unordered items)

render_rich_part-IsHtml : (part : Value) → PlainPart part → IsHtml (render_rich_part part)
render_rich_part-IsHtml part h =
    let kind = str_or "type" "" part in
    let listed =
      pick_option (kind == "rich_text_list") (render_rich_text_list part) none
        (Each-elements PlainSection _ (λ vs hs. list_html-Html _ (offset_of part) vs hs)
          (elements_of part) h.1)
        tt in
    let cited =
      pick_option (kind == "rich_text_quote") (render_rich_text_quote part) _
        (Each-elements HasPlainValues _ (λ vs hs. quoted-IsHtml _ (elements_html-Html vs hs))
          (elements_of part) h.0)
        listed in
    let coded =
      pick_option (kind == "rich_text_preformatted") (render_rich_text_preformatted part) _
        (Each-elements HasPlainValues _ (λ vs hs. preformatted-IsHtml _ (code_html-Html vs))
          (elements_of part) h.0)
        cited in
    pick_option (kind == "rich_text_section") _ _ (section-IsHtml part h.0) coded

pub rich_text_block-IsHtml :
    (block : Value) → PlainBlock block → IsHtml (render_rich_text_block block)
rich_text_block-IsHtml block h =
    Each-elements PlainPart _
      (λ vs hs.
        joined-IsHtml "" _ (Html.text "" IsText-nil)
          (of_elements-All PlainPart render_rich_part render_rich_part-IsHtml vs hs))
      (elements_of block) h
