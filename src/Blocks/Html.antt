-- ===== src/Blocks/Html.antt =====
-- The HTML that the renderers may give: texts without angle brackets, and elements that are closed
-- in the order in which they were opened, with attributes that a quote cannot leave.
use matrix_bridge_slack.Prelude.{String, ◌≡◌, refl, false, List, All, Option, none, some}
use matrix_bridge_slack.Text.{◌⧺◌, contains_char, join}
use matrix_bridge_slack.Text.Replace.{replace_char}
use matrix_bridge_slack.Text.Replace.Laws.{
  contains_char-append, contains_char-replaced, contains_char-replace, join-All,
}
use matrix_bridge_slack.Blocks.Element.{escape_html}

-- a text with no angle bracket
pub record IsText (s : String) : Type 0 where
  pub no_lt : contains_char s 60 ≡ false
  pub no_gt : contains_char s 62 ≡ false

-- a text that may stand in an attribute
pub record IsQuotable (s : String) : Type 0 where
  pub is_text : IsText s
  pub no_quote : contains_char s 34 ≡ false

pub data Tag : String → String → Type 0 where
  strong : Tag "<strong>" "</strong>"
  em : Tag "<em>" "</em>"
  del : Tag "<del>" "</del>"
  inline_code : Tag "<code>" "</code>"
  pre : Tag "<pre>" "</pre>"
  blockquote : Tag "<blockquote>" "</blockquote>"
  heading : Tag "<h3>" "</h3>"
  paragraph : Tag "<p>" "</p>"
  ordered : Tag "<ol>" "</ol>"
  unordered : Tag "<ul>" "</ul>"
  item : Tag "<li>" "</li>"
  table : Tag "<table>" "</table>"
  row : Tag "<tr>" "</tr>"
  cell : Tag "<td>" "</td>"
  figure : Tag "<figure>" "</figure>"
  figcaption : Tag "<figcaption>" "</figcaption>"
  broadcast : Tag "<font color=\"#FF0000\">" "</font>"

-- a tag with an attribute: what stands before and after its value
pub data Attribute : String → String → String → Type 0 where
  link : Attribute "<a href=\"" "\">" "</a>"
  user : Attribute "<a href=\"https://matrix.to/#/@_slack_" ":\">" "</a>"
  channel : Attribute "<a href=\"https://matrix.to/#/#_slack_" ":\">" "</a>"
  font : Attribute "<font color=\"" "\">" "</font>"
  time : Attribute "<time datetime=\"" "\">" "</time>"
  numbered : Attribute "<ol start=\"" "\">" "</ol>"

-- what closes an image
pub data Image : String → Type 0 where
  full : Image "\" />"
  small : Image "\" height=\"16\" width=\"16\" />"

pub data Html : String → Type 0 where
  text : (s : String) → IsText s → Html s
  rule : Html "<hr/>"
  break : Html "<br/>"
  image :
      (url alt close : String)
      → Image close
      → IsQuotable url
      → IsQuotable alt
      → Html ("<img src=\"" ⧺ url ⧺ "\" alt=\"" ⧺ alt ⧺ close)
  attached :
      (url : String) → IsQuotable url → Html ("<img src=\"" ⧺ url ⧺ "\" alt=\"attachment\" />")
  element : (o s c : String) → Tag o c → Html s → Html (o ⧺ s ⧺ c)
  with_value :
      (o v m s c : String) → Attribute o m c → IsQuotable v → Html s → Html (o ⧺ v ⧺ m ⧺ s ⧺ c)
  append : (s t : String) → Html s → Html t → Html (s ⧺ t)

abbrev pub IsHtml : Option String → Type 0
IsHtml none = Unit
IsHtml (some html) = Html html

pub IsText-nil : IsText ""
unfolding contains_char
IsText-nil = record { no_lt = refl; no_gt = refl }

pub IsText-append : (s t : String) → IsText s → IsText t → IsText (s ⧺ t)
IsText-append s t hs ht = record {
  no_lt = contains_char-append s t 60 hs.no_lt ht.no_lt;
  no_gt = contains_char-append s t 62 hs.no_gt ht.no_gt;
}

pub escape_html-IsQuotable : (s : String) → IsQuotable (escape_html s)
unfolding escape_html contains_char
escape_html-IsQuotable s =
    let a = replace_char 38 "&amp;" s in
    let b = replace_char 60 "&lt;" a in
    let c = replace_char 62 "&gt;" b in
    record {
      is_text = record {
        no_lt =
            contains_char-replace 34 60 "&quot;" c refl
              (contains_char-replace 62 60 "&gt;" b refl (contains_char-replaced 60 "&lt;" a refl));
        no_gt =
            contains_char-replace 34 62 "&quot;" c refl (contains_char-replaced 62 "&gt;" b refl);
      };
      no_quote = contains_char-replaced 34 "&quot;" c refl;
    }

pub escape_html-Html : (s : String) → Html (escape_html s)
escape_html-Html s = text _ (escape_html-IsQuotable s).is_text

pub join-Html :
    (sep : String) (parts : List String) → Html sep → All Html parts → Html (join sep parts)
join-Html sep parts hs h = join-All Html sep append hs (text "" IsText-nil) parts h
