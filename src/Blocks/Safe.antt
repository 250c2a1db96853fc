-- ===== src/Blocks/Safe.antt =====
-- One element of a rich text, against the grammar of HTML, and what is asked of the values that the
-- renderers do not escape.
pub mod Parts
pub mod Rendered
pub mod Attached
use Prim.Native.String.{[]}
use text.Mathlib.TextLemmas.{append_assoc}
use matrix_bridge_slack.Prelude.{
  ℕ, suc, inl, inr, ◌+◌, ◌%◌, ◌^◌, ◌≡◌, refl, sym, subst, String, Bool, true, false, not, ◌&&◌,
  Option, none, some, List, [], ◌∷◌, ◌++◌, All, All-append, ltb, ◌==◌, if◌then◌else◌, arith,
}
use matrix_bridge_slack.Text.{◌⧺◌, is_blank, join, contains_char}
use matrix_bridge_slack.Text.Decimal.{show_ℕ, show_i64}
use matrix_bridge_slack.Text.Decimal.Digits.{show_ℕ-lacks}
use matrix_bridge_slack.Json.{
  Value, Values, Integer, pos, negsuc, nil, cons, get, get_str, as_array, as_bool, as_i64, and_then,
}
use matrix_bridge_slack.Blocks.Element.{
  str_or, elements_of, opt_list, with_part, of_elements, joined, unless_blank_html, escape_html,
  wrap_if, has_style, apply_text_styles, link, user_link, channel_link, emoji, colour, date,
  render_rich_text_element,
}
use matrix_bridge_slack.Blocks
use matrix_bridge_slack.Blocks.{elements_html, code_html, list_items, table_rows, render_blocks}
use matrix_bridge_slack.Blocks.Attachment as A
use matrix_bridge_slack.Blocks.Html.{
  IsText, IsQuotable, Tag, Attribute, Html, IsHtml, IsText-nil, IsText-append,
  escape_html-IsQuotable, escape_html-Html, join-Html,
}

-- a property of every value of an array, if there is one
abbrev pub EachValue : (Value → Type 0) → Values → Type 0
EachValue P nil = Unit
EachValue P (cons v vs) = P v × EachValue P vs

abbrev pub Each : (Value → Type 0) → Option Values → Type 0
Each P none = Unit
Each P (some vs) = EachValue P vs

-- What is written without an escape has no markup of its own: the ids of a user, a channel and a user
-- group, the colour, the range of a broadcast, and an emoji's name or the text that its code decodes to.
pub record HasPlainValues (elem : Value) : Type 0 where
  pub user : IsQuotable (str_or "user_id" "" elem)
  pub channel : IsQuotable (str_or "channel_id" "" elem)
  pub value : IsQuotable (str_or "value" "#000000" elem)
  pub emoji_text : IsText (emoji (str_or "name" "" elem) (get_str "unicode" elem))
  pub range : IsText (str_or "range" "everyone" elem)
  pub usergroup : IsText (str_or "usergroup_id" "" elem)

-- the same of every element of a part of a rich text, and of the items of a list
abbrev pub PlainSection : Value → Type 0
PlainSection part = Each HasPlainValues (elements_of part)

abbrev pub PlainPart : Value → Type 0
PlainPart part = PlainSection part × Each PlainSection (elements_of part)

abbrev pub PlainBlock : Value → Type 0
PlainBlock block = Each PlainPart (elements_of block)

pub pick : (b : Bool) (s t : String) → Html s → Html t → Html (if b then s else t)
pick true s t hs ht = hs
pick false s t hs ht = ht

pub pick_option :
    (b : Bool) (o p : Option String) → IsHtml o → IsHtml p → IsHtml (if b then o else p)
pick_option true o p ho hp = ho
pick_option false o p ho hp = hp

wrap_if-Html : (b : Bool) (o c s : String) → Tag o c → Html s → Html (wrap_if b o c s)
wrap_if-Html b o c s t h = pick b _ s (Html.element o s c t h) h

apply_text_styles-Html : (elem : Value) (s : String) → Html s → Html (apply_text_styles elem s)
unfolding apply_text_styles
apply_text_styles-Html elem s h =
    let style = get "style" elem in
    let a = wrap_if (has_style "code" style) "<code>" "</code>" s in
    let b = wrap_if (has_style "bold" style) "<strong>" "</strong>" a in
    let c = wrap_if (has_style "italic" style) "<em>" "</em>" b in
    wrap_if-Html (has_style "strike" style) "<del>" "</del>" c Tag.del (
      wrap_if-Html (has_style "italic" style) "<em>" "</em>" b Tag.em (
        wrap_if-Html (has_style "bold" style) "<strong>" "</strong>" a Tag.strong
          (wrap_if-Html (has_style "code" style) "<code>" "</code>" s Tag.inline_code h)))

pub show_ℕ-IsQuotable : (n : ℕ) → IsQuotable (show_ℕ n)
show_ℕ-IsQuotable n = record {
  is_text = record {
    no_lt = show_ℕ-lacks 60 (inr (omega arith)) n;
    no_gt = show_ℕ-lacks 62 (inr (omega arith)) n;
  };
  no_quote = show_ℕ-lacks 34 (inl (omega arith)) n;
}

show_i64-IsQuotable : (n : Integer) → IsQuotable (show_i64 n)
unfolding show_i64 contains_char
show_i64-IsQuotable (pos n) = show_ℕ-IsQuotable n
show_i64-IsQuotable (negsuc n) =
    let shown = show_ℕ-IsQuotable (suc n) in
    record {
      is_text = record { no_lt = shown.is_text.no_lt; no_gt = shown.is_text.no_gt };
      no_quote = shown.no_quote;
    }

-- a literal with neither bracket
pub literal : (s : String) → contains_char s 60 ≡ false → contains_char s 62 ≡ false → Html s
literal s lt gt = Html.text s (record { no_lt = lt; no_gt = gt })

with_prefix :
    (p s : String)
    → contains_char p 60 ≡ false
    → contains_char p 62 ≡ false
    → IsText s
    → Html (p ⧺ s)
with_prefix p s lt gt h = Html.text _ (IsText-append p s (record { no_lt = lt; no_gt = gt }) h)

date-Html : (timestamp : Integer) (fallback : String) → Html (date timestamp fallback)
date-Html timestamp fallback =
    let shown = show_i64-IsQuotable timestamp in
    pick (is_blank fallback) _ _
      (Html.with_value "<time datetime=\"" (show_i64 timestamp) "\">" (show_i64 timestamp) "</time>"
        Attribute.time shown (Html.text _ shown.is_text))
      (escape_html-Html fallback)

link-Html : (elem : Value) (url display : String) → Html (link elem url display)
link-Html elem url display =
    Html.with_value "<a href=\"" (escape_html url) "\">"
      (apply_text_styles elem (escape_html display)) "</a>" Attribute.link
      (escape_html-IsQuotable url) (apply_text_styles-Html elem _ (escape_html-Html display))

module _ (elem : Value) (h : HasPlainValues elem) where
  user_link-Html : Html (user_link (str_or "user_id" "" elem))
  unfolding contains_char
  user_link-Html =
      Html.with_value "<a href=\"https://matrix.to/#/@_slack_" (str_or "user_id" "" elem) ":\">"
        ("@" ⧺ str_or "user_id" "" elem) "</a>" Attribute.user h.user
        (with_prefix "@" _ refl refl h.user.is_text)

  channel_link-Html : Html (channel_link (str_or "channel_id" "" elem))
  unfolding contains_char
  channel_link-Html =
      Html.with_value "<a href=\"https://matrix.to/#/#_slack_" (str_or "channel_id" "" elem) ":\">"
        "#channel" "</a>" Attribute.channel h.channel (literal "#channel" refl refl)

  colour-Html : Html (colour (str_or "value" "#000000" elem))
  unfolding contains_char
  colour-Html =
      Html.append _ _
        (Html.with_value "<font color=\"" (str_or "value" "#000000" elem) "\">" "■" "</font>"
          Attribute.font h.value (literal "■" refl refl))
        (with_prefix " " _ refl refl h.value.is_text)

  render_rich_text_element-Html : Html (render_rich_text_element elem)
  unfolding render_rich_text_element contains_char
  render_rich_text_element-Html =
      let kind = str_or "type" "" elem in
      let styled =
        apply_text_styles-Html elem (escape_html (str_or "text" "" elem))
          (escape_html-Html (str_or "text" "" elem)) in
      let at = with_prefix "@" (str_or "range" "everyone" elem) refl refl h.range in
      let group =
        pick (kind == "usergroup") _ _ (with_prefix "@group_" _ refl refl h.usergroup)
          (Html.text "" IsText-nil) in
      let dated = pick (kind == "date") _ _ (date-Html _ (str_or "fallback" "" elem)) group in
      let coloured = pick (kind == "color") _ _ colour-Html dated in
      let told =
        pick (kind == "broadcast") _ _
          (Html.element "<font color=\"#FF0000\">" _ "</font>" Tag.broadcast at) coloured in
      let faced = pick (kind == "emoji") _ _ (Html.text _ h.emoji_text) told in
      let linked = pick (kind == "link") _ _ (link-Html elem (str_or "url" "" elem) _) faced in
      let roomed = pick (kind == "channel") _ _ channel_link-Html linked in
      pick (kind == "text") _ _ styled (pick (kind == "user") _ _ user_link-Html roomed)

pub elements_html-Html : (vs : Values) → EachValue HasPlainValues vs → Html (elements_html vs)
unfolding elements_html
elements_html-Html nil h = Html.text "" IsText-nil
elements_html-Html (cons v vs) h =
    Html.append _ _ (render_rich_text_element-Html v h.0) (elements_html-Html vs h.1)
