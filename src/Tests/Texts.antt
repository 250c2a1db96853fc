-- ===== src/Tests/Texts.antt =====
-- A list in a Slack message, an edit and a reply, a reply's preview, and a row of errors.
use Prim.Native.String.{[], ◌∷◌}
use matrix_bridge_slack.Prelude.{
  ℕ, zero, suc, ◌≡◌, refl, subst, String, Bool-cases, false, Option, none, some, List, [], ◌∷◌, All,
  ◌==◌, ◌&&◌, eqb, Char, code, if◌then◌else◌, inl, inr, arith,
}
use mathlib.Core.Option.{some-injective}
use matrix_bridge_slack.Text.{contains_char}
use matrix_bridge_slack.Text.Replace.{lines}
use matrix_bridge_slack.Blocks.Html.{IsText, Html}
use matrix_bridge_slack.SlackParser.{Captures, group, Regex, unordered_list_regex}
use matrix_bridge_slack.SlackParser.Lists.{lists_from, convert_lists_to_html}
use matrix_bridge_slack.SlackParser.Lists.Closed.{convert_lists_to_html-Html}
use matrix_bridge_slack.SlackParser.Contents.{
  create_edit_content, create_reply_content, plain_reply, read_as, parse_matrix_event-created,
}
use matrix_bridge_slack.MessageFlow.{reply, replace, parse_matrix_event, extract_plain_text}
use matrix_bridge_slack.Embed.{
  SlackEmbed, build_matrix_message_embed, preview, byte_len, byte_prefix,
}
use matrix_bridge_slack.Embed.Preview.{is_ascii, Previewed, build_matrix_message_embed-fields}
use matrix_bridge_slack.Bridge.Matrix.{MatrixEvent}
use matrix_bridge_slack.Admin.{AdminConfig, from_config}
use matrix_bridge_slack.Tests.World.{event, same}

-- the line, and what stands after the first two characters
groups : String → String → Captures
groups line rest zero = some line
groups line rest (suc i) = some rest

bullet : String → Option Captures
bullet [] = none
bullet (c ∷ []) = none
bullet (c ∷ d ∷ rest) =
    if eqb (code c) 8226 && eqb (code d) 32 then some (groups (c ∷ d ∷ rest) rest) else none

-- a library that knows one pattern, of the items of a list
abbrev regex : Regex
regex = record {
  replace_all = λ _ _ text. text;
  captures_iter = λ _ _. [];
  captures = λ pattern line. if pattern == unordered_list_regex then bullet line else none;
  is_match = λ _ _. false;
}

groups-IsText :
    (line rest : String) (i : ℕ) → IsText line → IsText rest → IsText (group (groups line rest) i)
unfolding groups
groups-IsText line rest zero h k = h
groups-IsText line rest (suc i) h k = k

rest_IsText : (c d : Char) (rest : String) → IsText (c ∷ d ∷ rest) → IsText rest
unfolding contains_char
rest_IsText c d rest h = record { no_lt = ground (arith, h.no_lt); no_gt = ground (arith, h.no_gt) }

bullet-IsText :
    (line : String) (caps : Captures) (i : ℕ)
    → bullet line ≡ some caps
    → IsText line
    → IsText (group caps i)
unfolding bullet
bullet-IsText [] caps i e h = absurd (ground (arith, e))
bullet-IsText (c ∷ []) caps i e h = absurd (ground (arith, e))
bullet-IsText (c ∷ d ∷ rest) caps i e h = elim (Bool-cases (eqb (code c) 8226 && eqb (code d) 32)) [
  | inl hit ↦
      subst (λ g. IsText (group g i)) (some-injective _ caps (rw hit at e))
        (groups-IsText (c ∷ d ∷ rest) rest i h (rest_IsText c d rest h))
  | inr miss ↦ absurd (ground (arith, rw miss at e))
]

captured :
    (pattern line : String) (caps : Captures) (i : ℕ)
    → regex.captures pattern line ≡ some caps
    → IsText line
    → IsText (group caps i)
captured pattern line caps i e h = elim (Bool-cases (pattern == unordered_list_regex)) [
  | inl hit ↦ bullet-IsText line caps i (rw hit at e) h
  | inr miss ↦ absurd (ground (arith, rw miss at e))
]

abbrev listed : String
listed = "• a\n• b\nc"

listed-lines : All IsText (lines listed)
unfolding lines contains_char
listed-lines = (
  record { no_lt = refl; no_gt = refl },
  (record { no_lt = refl; no_gt = refl }, (record { no_lt = refl; no_gt = refl }, tt)),
)

listed_html : convert_lists_to_html regex listed ≡ "<ul><li>a</li><li>b</li></ul>c\n"
unfolding convert_lists_to_html lists_from lines bullet groups
listed_html = refl

convert_lists_to_html-Html_example : Html (convert_lists_to_html regex listed)
convert_lists_to_html-Html_example = convert_lists_to_html-Html regex captured listed listed-lines

abbrev received : MatrixEvent
received = record (event "@u:example.org") { event_type = "m.room.message" }

parse_matrix_event-created_example :
    (parse_matrix_event
        (extract_plain_text same)
        (record received { content = some (create_edit_content "hi" "$1" (some "<b>hi</b>")) })
      ≡ read_as same received "hi" (replace "$1"))
    × (parse_matrix_event (extract_plain_text same) (record received {
      content = some (create_reply_content "hi" "$1" "hello" "@u:example.org");
    })
        ≡ read_as same received (plain_reply "hi" "hello" "@u:example.org") (reply "$1"))
parse_matrix_event-created_example =
    parse_matrix_event-created same received "hi" "$1" "hello" "@u:example.org" (some "<b>hi</b>")
      refl refl

shown : preview "hello" ≡ some "hello"
unfolding preview byte_len byte_prefix
shown = refl

build_matrix_message_embed-fields_example :
    (embed : SlackEmbed) × ((build_matrix_message_embed "Ann" none "hi" (some ("Bo", "hello"))
        ≡ some embed)
      × ((p : String) × (Previewed "hello" p
            × (embed.fields ≡ record { name = "Replying to Bo"; value = p; inline = false } ∷ []))))
unfolding is_ascii
build_matrix_message_embed-fields_example =
    build_matrix_message_embed-fields "Ann" none "hi" "Bo" "hello" refl

abbrev admin_config : AdminConfig
admin_config = record (from_config (some "@admin:example.org")) { error_threshold = 2 }

abbrev two_errors : List (String × Option String)
two_errors = ("first", none) ∷ ("second", some "sync") ∷ []
