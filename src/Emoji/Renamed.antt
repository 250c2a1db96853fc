-- ===== src/Emoji/Renamed.antt =====
-- An emoji that is renamed, and one that is added under the old name.
use matrix_bridge_slack.Prelude.{
  ◌≡◌, ◌⊎◌, inl, inr, refl, ap, ◌∙◌, ℕ, String, true, false, none, some, List, [], ◌∷◌, map, ◌==◌,
  if◌then◌else◌, arith,
}
use matrix_bridge_slack.Text.{starts_with}
use matrix_bridge_slack.Db.{Table, find, any}
use matrix_bridge_slack.Db.Emojis.{
  EmojiMapping, new, get_emoji_by_slack_id, get_emoji_by_name, create_emoji, upsert_emoji_mapping,
}
use matrix_bridge_slack.Db.Emojis as Store
use matrix_bridge_slack.Bridge.{State, Env, download_from_url}
use matrix_bridge_slack.Bridge.Monad.{◌>>◌}
use matrix_bridge_slack.Bridge.Triple.{
  Post, Triple, Triple-write, Triple-try_write, Triple-with_state, Triple-bind, Triple-call,
  Triple-weaken,
}
use matrix_bridge_slack.Emoji.{
  with_emojis, download_and_cache_emoji, rename_emoji, handle_emoji_change,
}
use matrix_bridge_slack.Emoji.Stored.{upload_emoji_to_matrix-Same}

-- one row after the rename
abbrev renamed : String → String → ℕ → EmojiMapping → EmojiMapping
renamed a b now r = if r.emoji_name == a then record r { emoji_name = b; updated_at = now } else r

find-renamed :
    (a b : String) (now : ℕ) (rows : List EmojiMapping)
    → (b == a) ≡ false
    → find (λ (r : EmojiMapping). r.emoji_name == a) (map (renamed a b now) rows) ≡ none
unfolding find
find-renamed a b now [] h = refl
find-renamed a b now (r ∷ rows) h = ground (arith, find-renamed a b now rows h, h)

any-renamed :
    (a b k : String) (now : ℕ) (rows : List EmojiMapping) (found : EmojiMapping)
    → find (λ (r : EmojiMapping). r.slack_emoji_id == k) rows ≡ some found
    → any (λ (r : EmojiMapping). r.slack_emoji_id == k) (map (renamed a b now) rows) ≡ true
unfolding find
any-renamed a b k now [] found e = cc
any-renamed a b k now (r ∷ rows) found e = ground (arith, any-renamed a b k now rows found, e)

-- the name is free, and its Slack id is taken
upsert-rename :
    (t : Table EmojiMapping) (a b url : String) (now later : ℕ) (found : EmojiMapping)
    → (b == a) ≡ false
    → get_emoji_by_slack_id t a ≡ some found
    → upsert_emoji_mapping (Store.rename_emoji t a b now) a url later ≡ none
unfolding upsert_emoji_mapping Store.rename_emoji get_emoji_by_slack_id get_emoji_by_name
    create_emoji
upsert-rename t a b url now later found h e =
    ground (arith, find-renamed a b now t.rows h, any-renamed a b a now t.rows found e)

module _ (homeserver_url : String) (encode : String → String) (a b url : String)
    (rename_apart : (b == a) ≡ false) (t : Table EmojiMapping) (found : EmojiMapping)
    (e : get_emoji_by_slack_id t a ≡ some found) where
  -- the table after the rename, at some time
  abbrev Renamed : State → Type 0
  Renamed s = (now : ℕ) × (s.emojis ≡ Store.rename_emoji t a b now)

  abbrev Kept : State → Type 0
  Kept s = (s.emojis ≡ t) ⊎ Renamed s

  rename-Renamed :
      Triple (λ s. s.emojis ≡ t) (rename_emoji homeserver_url encode a b) (λ _. Renamed) Kept
  unfolding rename_emoji
  rename-Renamed =
      Triple-bind {Q = λ _ s. s.emojis ≡ t} _ _ (Triple-with_state _ (λ now s h. h)) λ now.
        Triple-write _ tt (λ s h. (now, ap (λ x. Store.rename_emoji x a b now) h)) (λ s h. inl h)

  -- the INSERT fails at any time, for any address
  abbrev Full : Table EmojiMapping → Type 0
  Full x = (mxc : String) (later : ℕ) → upsert_emoji_mapping x a mxc later ≡ none

  refused :
      (s u : State) (x : Table EmojiMapping) (mxc : String) (later : ℕ)
      → Full x
      → s.emojis ≡ x
      → with_emojis s (upsert_emoji_mapping s.emojis a mxc later) ≡ some u
      → ⊥
  refused s u x mxc later full h f =
      let none_left = ap (λ y. upsert_emoji_mapping y a mxc later) h ∙ full mxc later in
      absurd (ground (arith, rw none_left at f))

  download_and_cache_emoji-fails :
      (x : Table EmojiMapping)
      → Full x
      → Triple
          (λ s. s.emojis ≡ x)
          (download_and_cache_emoji homeserver_url encode a url)
          (λ _ _. ⊥)
          (λ s. s.emojis ≡ x)
  unfolding download_and_cache_emoji
  download_and_cache_emoji-fails x full =
      Triple-bind {Q = λ _ s. s.emojis ≡ x} _ _
        (Triple-call (download_from_url url) (λ m s h. h) (λ s h. h))
        λ media. Triple-bind _ _ (upload_emoji_to_matrix-Same homeserver_url encode x media) λ mxc.
          Triple-bind {Q = λ _ s. s.emojis ≡ x} _ _ (Triple-with_state _ (λ now s h. h))
            λ now. Triple-try_write _ tt (λ s u h f. refused s u x mxc now full h f) (λ s h. h)

  module _ (custom : starts_with url "alias:" ≡ false) where
    add-fails :
        Triple Renamed
          (handle_emoji_change homeserver_url encode "add" a (some url))
          (λ _ _. ⊥)
          Kept
    unfolding handle_emoji_change
    add-fails = record {
      at = λ env s h. rw custom (
          (Triple-weaken _
              (download_and_cache_emoji-fails (Store.rename_emoji t a b h.0)
                (λ mxc later. upsert-rename t a b mxc h.0 later found rename_apart e))
              (λ u k. k) (λ _ u k. k) (λ u k. inr (h.0, k))).at
            env s h.1);
    }

    -- a rename and an add, as the event handler runs them
    rename_add :
        Triple
          (λ s. s.emojis ≡ t)
          (handle_emoji_change homeserver_url encode "rename" a (some b)
            >> handle_emoji_change homeserver_url encode "add" a (some url))
          (λ _ _. ⊥)
          Kept
    unfolding handle_emoji_change
    rename_add = Triple-bind _ _ rename-Renamed λ _. add-fails

-- Where a row has a name as its Slack id, a rename of that name to another one and then an
-- addition of an emoji of the old name, with an address that is no alias, always fail: the emoji
-- table is as it was, or as the rename leaves it.
pub handle_emoji_change_lost :
    (homeserver_url : String) (encode : String → String) (a b url : String) (found : EmojiMapping)
    (env : Env) (s : State)
    → (b == a) ≡ false
    → get_emoji_by_slack_id s.emojis a ≡ some found
    → starts_with url "alias:" ≡ false
    → Post
        (λ _ _. ⊥)
        (λ u.
          (u.emojis ≡ s.emojis) ⊎ ((now : ℕ) × (u.emojis ≡ Store.rename_emoji s.emojis a b now)))
        ((handle_emoji_change homeserver_url encode "rename" a (some b)
            >> handle_emoji_change homeserver_url encode "add" a (some url))
          env s)
handle_emoji_change_lost homeserver_url encode a b url found env s apart e custom =
    (rename_add homeserver_url encode a b url apart s.emojis found e custom).at env s refl
