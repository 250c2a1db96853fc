-- ===== src/SlackParser.antt =====
-- parsers/slack_parser.rs: Slack's text as the text and the HTML of a Matrix message. The regular
-- expressions are the regex library's, which is a parameter.
pub mod Lists
pub mod Contents
pub mod Emojis
use Prim.Native.String.{[]}
use matrix_bridge_slack.Prelude.{
  ℕ, String, Bool, true, false, Option, none, some, List, [], ◌∷◌, unwrap_or, ◌==◌, if◌then◌else◌,
}
use matrix_bridge_slack.Text.{◌⧺◌, is_blank}
use matrix_bridge_slack.Text.Replace.{replace_char}

-- the groups of a match; the ones that are indexed take part in every match
abbrev pub Captures : Type 0
Captures = ℕ → Option String

abbrev pub group : Captures → ℕ → String
group caps i = unwrap_or (caps i) ""

-- of a pattern: `replace_all` with a closure, `captures_iter`, `captures` and `is_match`
pub record Regex : Type 0 where
  pub replace_all : String → (Captures → String) → String → String
  pub captures_iter : String → String → List Captures
  pub captures : String → String → Option Captures
  pub is_match : String → String → Bool

abbrev mention_regex : String
mention_regex = "(?:<|&lt;)@([A-Z0-9]+)(?:\\|[^>&]+)?(?:>|&gt;)"

abbrev channel_regex : String
channel_regex = "(?:<|&lt;)#([A-Z0-9]+)(?:\\|[^>&]+)?(?:>|&gt;)"

abbrev role_regex : String
role_regex = "(?:<|&lt;)@&(\\d+)(?:>|&gt;)"

abbrev emoji_regex : String
emoji_regex = ":([a-zA-Z0-9_+-]+):"

abbrev pub animated_emoji_regex : String
animated_emoji_regex = "(?:<|&lt;)a:([a-zA-Z0-9_]+):(\\d+)(?:>|&gt;)"

abbrev pub custom_emoji_regex : String
custom_emoji_regex = "(?:<|&lt;):([a-zA-Z0-9_+-]+):(\\d+)(?:>|&gt;)"

abbrev everyone_regex : String
everyone_regex = "<!everyone>"

abbrev here_regex : String
here_regex = "<!here>|<!channel>"

abbrev code_block_regex : String
code_block_regex = "```(?:([a-z]*)\\n)?([\\s\\S]*?)```"

abbrev inline_code_regex : String
inline_code_regex = "`([^`]+)`"

abbrev bold_regex : String
bold_regex = "\\*([^*]+)\\*"

abbrev italic_regex : String
italic_regex = "_([^_]+)_"

abbrev underline_regex : String
underline_regex = "_([^_]+)_"

abbrev strikethrough_regex : String
strikethrough_regex = "~([^~]+)~"

abbrev spoiler_regex : String
spoiler_regex = "\\|\\|([^|]+)\\|\\|"

abbrev quote_regex : String
quote_regex = "^> (.+)$"

abbrev link_regex : String
link_regex = "(?:<|&lt;)(https?://.*?)(?:\\|([^>&]+))?(?:>|&gt;)"

abbrev pub unordered_list_regex : String
unordered_list_regex = "^• (.+)$"

abbrev pub ordered_list_regex : String
ordered_list_regex = "^(\\d+)\\. (.+)$"

unfoldable pub escape_html : String → String
unfolding replace_char
escape_html text = replace_char 62 "&gt;" (replace_char 60 "&lt;" (replace_char 38 "&amp;" text))

unfoldable pub convert_newlines_to_html : String → String
unfolding replace_char
convert_newlines_to_html text = replace_char 10 "<br/>" text

-- the HTML of a block of code with a language
abbrev pub code_block : String → String → String
code_block lang code =
    if is_blank lang
    then "<pre><code>" ⧺ code ⧺ "</code></pre>"
    else "<pre><code class=\"language-" ⧺ lang ⧺ "\">" ⧺ code ⧺ "</code></pre>"

abbrev pub user_html : String → String → String
user_html domain user_id =
    "<a href=\"https://matrix.to/#/@_slack_" ⧺ user_id ⧺ ":" ⧺ domain ⧺ "\">@_slack_" ⧺ user_id
    ⧺ "</a>"

abbrev pub channel_html : String → String → String
channel_html domain channel_id =
    "<a href=\"https://matrix.to/#/#_slack_" ⧺ channel_id ⧺ ":" ⧺ domain ⧺ "\">#_slack_"
    ⧺ channel_id ⧺ "</a>"

abbrev pub link_text : String → Option String → String
link_text url none = url
link_text url (some label) = "[" ⧺ label ⧺ "](" ⧺ url ⧺ ")"

abbrev pub link_html : String → Option String → String
link_html url none = "<a href=\"" ⧺ url ⧺ "\">" ⧺ url ⧺ "</a>"
link_html url (some label) = "<a href=\"" ⧺ url ⧺ "\">" ⧺ label ⧺ "</a>"

abbrev pub emoji_image : String → String → String → String
emoji_image emoji_id ext emoji_name =
    "<img data-mx-emoticon src=\"https://cdn.slackapp.com/emojis/" ⧺ emoji_id ⧺ "." ⧺ ext
    ⧺ "\" alt=\":" ⧺ emoji_name ⧺ ":\" title=\":" ⧺ emoji_name ⧺ ":\" height=\"32\" width=\"32\" />"

-- the converter's domain, and the library
module _ (domain : String) (regex : Regex) where
  abbrev pub surround : String → String → String → String → String
  surround pattern before after text =
      regex.replace_all pattern (λ caps. before ⧺ group caps 1 ⧺ after) text

  abbrev pub if_domain : (String → String) → String → String
  if_domain convert text = if is_blank domain then text else convert text

  unfoldable pub convert_code_blocks_to_html : String → String
  convert_code_blocks_to_html text =
      regex.replace_all code_block_regex (λ caps. code_block (unwrap_or (caps 1) "") (group caps 2))
        text

  unfoldable pub convert_inline_code_to_html : String → String
  convert_inline_code_to_html text = surround inline_code_regex "<code>" "</code>" text

  unfoldable pub convert_slack_formatting_to_html : String → String
  convert_slack_formatting_to_html text =
      surround spoiler_regex "<span data-mx-spoiler>" "</span>" (
        surround strikethrough_regex "<del>" "</del>" (
          surround underline_regex "<u>" "</u>" (
            surround italic_regex "<em>" "</em>"
              (surround bold_regex "<strong>" "</strong>" text))))

  unfoldable pub convert_mentions_to_html : String → String
  convert_mentions_to_html text =
      if_domain (regex.replace_all mention_regex (λ caps. user_html domain (group caps 1))) text

  unfoldable pub convert_channels_to_html : String → String
  convert_channels_to_html text =
      if_domain (regex.replace_all channel_regex (λ caps. channel_html domain (group caps 1))) text

  unfoldable pub convert_roles_to_matrix : String → String
  convert_roles_to_matrix text = if_domain (surround role_regex "@role_" "") text

  unfoldable pub convert_roles_to_html : String → String
  convert_roles_to_html text =
      if_domain (surround role_regex "<font color=\"#99AAB5\">@role_" "</font>") text

  unfoldable pub convert_emojis_to_matrix : String → String
  convert_emojis_to_matrix text =
      surround emoji_regex ":" ":"
        (surround custom_emoji_regex ":" ":" (surround animated_emoji_regex ":" ":" text))

  unfoldable pub convert_emojis_to_html : String → String
  convert_emojis_to_html text =
      regex.replace_all custom_emoji_regex (λ caps. emoji_image (group caps 2) "png" (group caps 1))
        (regex.replace_all animated_emoji_regex
          (λ caps. emoji_image (group caps 2) "gif" (group caps 1)) text)

  unfoldable pub convert_everyone_here : String → String
  convert_everyone_here text =
      regex.replace_all here_regex (λ _. "@here")
        (regex.replace_all everyone_regex (λ _. "@everyone") text)

  unfoldable pub convert_everyone_here_to_html : String → String
  convert_everyone_here_to_html text =
      regex.replace_all here_regex (λ _. "<font color=\"#FF0000\">@here</font>")
        (regex.replace_all everyone_regex (λ _. "<font color=\"#FF0000\">@everyone</font>") text)

  unfoldable pub convert_links_to_matrix : String → String
  convert_links_to_matrix text =
      regex.replace_all link_regex (λ caps. link_text (group caps 1) (caps 2)) text

  unfoldable pub convert_links_to_html : String → String
  convert_links_to_html text =
      regex.replace_all link_regex (λ caps. link_html (group caps 1) (caps 2)) text

  unfoldable pub convert_quotes_to_html : String → String
  convert_quotes_to_html text = surround quote_regex "<blockquote>" "</blockquote>" text

  abbrev pub is_spoiler : String → Bool
  is_spoiler content = regex.is_match spoiler_regex content

  abbrev pub has_code_block : String → Bool
  has_code_block content = regex.is_match code_block_regex content

  -- what is the same in the text and in the HTML is written twice in the source
  abbrev pub convert_code_blocks_to_matrix : String → String
  convert_code_blocks_to_matrix text = convert_code_blocks_to_html text

  abbrev pub convert_inline_code_to_matrix : String → String
  convert_inline_code_to_matrix text = convert_inline_code_to_html text

  abbrev pub convert_mentions_to_matrix : String → String
  convert_mentions_to_matrix text = convert_mentions_to_html text

  abbrev pub convert_channels_to_matrix : String → String
  convert_channels_to_matrix text = convert_channels_to_html text

  unfoldable pub format_for_matrix : String → String
  format_for_matrix message = convert_everyone_here (
      convert_emojis_to_matrix (
        convert_roles_to_matrix (
          convert_channels_to_matrix (
            convert_mentions_to_matrix (
              convert_links_to_matrix
                (convert_inline_code_to_matrix (convert_code_blocks_to_matrix message)))))))
