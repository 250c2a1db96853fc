-- ===== src/Tests/Emojis.antt =====
-- An emoji that is uploaded once, and one that is renamed.
use matrix_bridge_slack.Prelude.{
  ◌≡◌, ◌⊎◌, refl, String, false, some, ◌∷◌, [], ◌==◌, if◌then◌else◌, ℕ,
}
use matrix_bridge_slack.Text.{strip_prefix}
use matrix_bridge_slack.Text.Replace.{trim_end_char}
use matrix_bridge_slack.Db.{find}
use matrix_bridge_slack.Db.Emojis.{
  EmojiMapping, uploaded, get_emoji_by_slack_id, get_emoji_by_name, create_emoji,
  upsert_emoji_mapping,
}
use matrix_bridge_slack.Db.Emojis as Store
use matrix_bridge_slack.Bridge.{State, ok, err}
use matrix_bridge_slack.Bridge.Monad.{◌>>=◌, ◌>>◌}
use matrix_bridge_slack.Bridge.Triple.{Post}
use matrix_bridge_slack.Bridge.History.{start}
use matrix_bridge_slack.Emoji.{
  is_numerical, upload_to_matrix, upload_emoji_to_matrix, get_or_upload_emoji, handle_emoji_change,
  rename_emoji, download_and_cache_emoji,
}
use matrix_bridge_slack.Emoji.Stored.{
  Untouched, get_or_upload_emoji-Uploaded, get_or_upload_emoji-cached,
}
use matrix_bridge_slack.Emoji.Renamed.{handle_emoji_change_lost}
use matrix_bridge_slack.Tests.World.{env, empty}

abbrev server : String
server = "https://example.org/"

abbrev same : String → String
same text = text

get_or_upload_emoji-Uploaded_example :
    Post
      (λ url u.
        (k : String)
        → uploaded u.emojis k ≡ (if "42" == k then some url else uploaded empty.emojis k))
      (λ u. u.emojis ≡ empty.emojis)
      (get_or_upload_emoji server same "42" "smile" false env empty)
get_or_upload_emoji-Uploaded_example =
    get_or_upload_emoji-Uploaded server same "42" "smile" false env empty

abbrev smile : String → String → EmojiMapping
smile id url = record {
  id = 1;
  slack_emoji_id = id;
  emoji_name = id;
  animated = false;
  mxc_url = url;
  created_at = 0;
  updated_at = 0;
}

abbrev known : String → State
known id = record empty {
  emojis = record { rows = smile id "mxc://example.org/9" ∷ []; next_id = 2 };
}

fresh : (get_or_upload_emoji server same "42" "smile" false env empty).0 ≡ ok "mxc://example.org/2"
unfolding get_or_upload_emoji is_numerical get_emoji_by_slack_id find start upload_to_matrix
    trim_end_char create_emoji ◌>>=◌
fresh = refl

no_number :
    get_or_upload_emoji server same "smile" "smile" false env empty
    ≡ (err "Non-numerical emoji ID: smile", empty)
unfolding get_or_upload_emoji is_numerical ◌>>=◌
no_number = refl

get_or_upload_emoji-cached_example :
    Post
      (λ url u. (url ≡ "mxc://example.org/9") × Untouched (known "42") u)
      (Untouched (known "42"))
      (get_or_upload_emoji server same "42" "smile" false env (known "42"))
unfolding get_emoji_by_slack_id find
get_or_upload_emoji-cached_example =
    get_or_upload_emoji-cached server same "42" "smile" false (known "42") "mxc://example.org/9" env
      refl

handle_emoji_change_lost_example :
    Post
      (λ _ _. ⊥)
      (λ u.
        (u.emojis ≡ (known "party").emojis)
        ⊎ ((now : ℕ) × (u.emojis ≡ Store.rename_emoji (known "party").emojis "party" "feast" now)))
      ((handle_emoji_change server same "rename" "party" (some "feast")
          >> handle_emoji_change server same "add" "party" (some "https://example.org/p.png"))
        env
        (known "party"))
unfolding get_emoji_by_slack_id find strip_prefix
handle_emoji_change_lost_example =
    handle_emoji_change_lost server same "party" "feast" "https://example.org/p.png"
      (smile "party" "mxc://example.org/9") env (known "party") refl refl refl

-- the second addition meets the row of the first
refused :
    ((handle_emoji_change server same "rename" "party" (some "feast")
        >> handle_emoji_change server same "add" "party" (some "https://example.org/p.png"))
      env
      (known "party")).0
    ≡ err "UNIQUE constraint failed"
unfolding handle_emoji_change rename_emoji Store.rename_emoji upsert_emoji_mapping get_emoji_by_name
    create_emoji find strip_prefix download_and_cache_emoji upload_emoji_to_matrix ◌>>=◌
refused = refl
