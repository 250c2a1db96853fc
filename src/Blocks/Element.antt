-- ===== src/Blocks/Element.antt =====
-- parsers/blocks.rs: one element of a rich text, and what the renderers share.
use Prim.Native.Char.{Char, char, IsLt}
use Prim.Native.Nat.{compare, Ordering}
use Prim.Native.String.{[], ◌∷◌}
use matrix_bridge_slack.Prelude.{
  ℕ, ◌+◌, ◌-◌, ◌*◌, ◌^◌, code, String, Bool, false, ◌&&◌, Option, none, some, List, [], ◌∷◌,
  unwrap_or, ltb, leb, eqb, ◌==◌, if◌then◌else◌,
}
use matrix_bridge_slack.Text.{◌⧺◌, is_blank, join}
use matrix_bridge_slack.Text.Decimal.{show_i64}
use matrix_bridge_slack.Text.Replace.{replace_char, split_char}
use matrix_bridge_slack.Json.{
  Value, Values, Integer, pos, nil, cons, get, get_str, as_array, as_bool, as_i64, and_then,
}

-- `v.get(key).and_then(Value::as_str).unwrap_or(d)`
abbrev pub str_or : String → String → Value → String
str_or key d v = unwrap_or (get_str key v) d

abbrev pub elements_of : Value → Option Values
elements_of v = and_then (get "elements" v) as_array

abbrev pub opt_list {ℓ} : {A : Type ℓ} → Option A → List A
opt_list none = []
opt_list (some a) = a ∷ []

abbrev pub with_part : Option String → List String → List String
with_part none parts = parts
with_part (some part) parts = part ∷ parts

-- what a loop over the elements pushes
abbrev pub of_elements : (Value → Option String) → Values → List String
of_elements f nil = []
of_elements f (cons v vs) = with_part (f v) (of_elements f vs)

-- `if parts.is_empty() { None } else { Some(parts.join(sep)) }`
abbrev pub joined : String → List String → Option String
joined sep [] = none
joined sep (part ∷ parts) = some (join sep (part ∷ parts))

abbrev pub unless_blank_html : String → Option String
unless_blank_html html = if is_blank html then none else some html

unfoldable pub escape_html : String → String
unfolding replace_char
escape_html text =
    replace_char 34 "&quot;"
      (replace_char 62 "&gt;" (replace_char 60 "&lt;" (replace_char 38 "&amp;" text)))

-- whether a number is a Unicode scalar value, with the proof that `char` takes
abbrev Both : Ordering → Ordering → Type 0
Both Ordering.lt o = IsLt o
Both Ordering.eq _ = ⊥
Both Ordering.gt _ = ⊥

abbrev Scalar : Ordering → Ordering → Ordering → Type 0
Scalar Ordering.lt _ _ = Unit
Scalar Ordering.eq o p = Both o p
Scalar Ordering.gt o p = Both o p

abbrev decide_both : (o p : Ordering) → Option (Both o p)
decide_both Ordering.lt Ordering.lt = some tt
decide_both Ordering.lt Ordering.eq = none
decide_both Ordering.lt Ordering.gt = none
decide_both Ordering.eq p = none
decide_both Ordering.gt p = none

abbrev decide_scalar : (o p q : Ordering) → Option (Scalar o p q)
decide_scalar Ordering.lt p q = some tt
decide_scalar Ordering.eq p q = decide_both p q
decide_scalar Ordering.gt p q = decide_both p q

-- `char::from_u32`
abbrev pub char_of : ℕ → Option Char
char_of n =
    and_then (decide_scalar (compare n 55296) (compare 57343 n) (compare n 1114112))
      λ p. some (char n p)

abbrev hex_digit : ℕ → Option ℕ
hex_digit c =
    if leb 48 c && leb c 57
    then some (c - 48)
    else if leb 97 c && leb c 102
    then some (c - 87)
    else if leb 65 c && leb c 70
    then some (c - 55)
    else none

abbrev hex_step : Option ℕ → ℕ → Option ℕ
hex_step none n = none
hex_step (some d) n = if ltb (n * 16 + d) (2 ^ 32) then some (n * 16 + d) else none

abbrev hex_digits : String → Option ℕ → Option ℕ
hex_digits [] n = n
hex_digits (c ∷ s) n = hex_digits s (and_then n (hex_step (hex_digit (code c))))

abbrev hex_number : String → Option ℕ
hex_number [] = none
hex_number (c ∷ s) = hex_digits (c ∷ s) (some 0)

-- `u32::from_str_radix(code, 16).ok()`
unfoldable pub parse_hex : String → Option ℕ
parse_hex [] = none
parse_hex (c ∷ s) = if eqb (code c) 43 then hex_number s else hex_number (c ∷ s)

abbrev push_char : Option Char → String → String
push_char none s = s
push_char (some c) s = c ∷ s

abbrev chars_of : List String → String
chars_of [] = []
chars_of (w ∷ ws) = push_char (and_then (parse_hex w) char_of) (chars_of ws)

unfoldable pub decode_unicode_emoji : String → String
unfolding parse_hex split_char
decode_unicode_emoji unicode_str = chars_of (split_char 45 unicode_str)

-- `style.get(key).and_then(Value::as_bool).unwrap_or(false)`, of an object
abbrev pub has_style : String → Option Value → Bool
has_style key style = unwrap_or (and_then (and_then style (get key)) as_bool) false

abbrev pub wrap_if : Bool → String → String → String → String
wrap_if on open_tag close_tag text = if on then open_tag ⧺ text ⧺ close_tag else text

unfoldable pub apply_text_styles : Value → String → String
apply_text_styles elem text =
    let style = get "style" elem in
    wrap_if (has_style "strike" style) "<del>" "</del>" (
      wrap_if (has_style "italic" style) "<em>" "</em>" (
        wrap_if (has_style "bold" style) "<strong>" "</strong>"
          (wrap_if (has_style "code" style) "<code>" "</code>" text)))

abbrev pub user_link : String → String
user_link user_id =
    "<a href=\"https://matrix.to/#/@_slack_" ⧺ user_id ⧺ ":\">" ⧺ ("@" ⧺ user_id) ⧺ "</a>"

abbrev pub channel_link : String → String
channel_link channel_id =
    "<a href=\"https://matrix.to/#/#_slack_" ⧺ channel_id ⧺ ":\">" ⧺ "#channel" ⧺ "</a>"

abbrev pub link : Value → String → String → String
link elem url display =
    "<a href=\"" ⧺ escape_html url ⧺ "\">" ⧺ apply_text_styles elem (escape_html display) ⧺ "</a>"

abbrev pub emoji : String → Option String → String
emoji name none = ":" ⧺ name ⧺ ":"
emoji name (some unicode) = decode_unicode_emoji unicode

abbrev pub colour : String → String
colour value = ("<font color=\"" ⧺ value ⧺ "\">" ⧺ "■" ⧺ "</font>") ⧺ (" " ⧺ value)

abbrev pub date : Integer → String → String
date timestamp fallback =
    if is_blank fallback
    then "<time datetime=\"" ⧺ show_i64 timestamp ⧺ "\">" ⧺ show_i64 timestamp ⧺ "</time>"
    else escape_html fallback

unfoldable pub render_rich_text_element : Value → String
render_rich_text_element elem =
    let kind = str_or "type" "" elem in
    if kind == "text"
    then apply_text_styles elem (escape_html (str_or "text" "" elem))
    else if kind == "user"
    then user_link (str_or "user_id" "" elem)
    else if kind == "channel"
    then channel_link (str_or "channel_id" "" elem)
    else if kind == "link"
    then link elem (str_or "url" "" elem) (str_or "text" (str_or "url" "" elem) elem)
    else if kind == "emoji"
    then emoji (str_or "name" "" elem) (get_str "unicode" elem)
    else if kind == "broadcast"
    then "<font color=\"#FF0000\">" ⧺ ("@" ⧺ str_or "range" "everyone" elem) ⧺ "</font>"
    else if kind == "color"
    then colour (str_or "value" "#000000" elem)
    else if kind == "date"
    then date (unwrap_or (and_then (get "timestamp" elem) as_i64) (pos 0))
        (str_or "fallback" "" elem)
    else if kind == "usergroup"
    then "@group_" ⧺ str_or "usergroup_id" "" elem
    else []
