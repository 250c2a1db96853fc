-- ===== src/Db/Emojis.antt =====
-- The emoji store of db/sqlite.rs.
use mathlib.Core.Option.{some-injective, map as map_option}
use matrix_bridge_slack.Prelude.{
  subst, ℕ, suc, ◌≡◌, String, Bool, false, not, Option, none, some, [], ◌∷◌, ◌++◌, map, retain,
  is_some, ◌==◌, if◌then◌else◌, Bool-cases, inl, inr, arith,
}
use matrix_bridge_slack.Db.{Table, find, any}
use matrix_bridge_slack.Db.Rows.{find-append_one, any-All}

pub record EmojiMapping : Type 0 where
  pub id : ℕ
  pub slack_emoji_id : String
  pub emoji_name : String
  pub animated : Bool
  pub mxc_url : String
  pub created_at : ℕ
  pub updated_at : ℕ

-- `EmojiMapping::new`, at a time
abbrev pub new : String → String → Bool → String → ℕ → EmojiMapping
new slack_emoji_id emoji_name animated mxc_url now = record {
  id = 0;
  slack_emoji_id = slack_emoji_id;
  emoji_name = emoji_name;
  animated = animated;
  mxc_url = mxc_url;
  created_at = now;
  updated_at = now;
}

module _ (t : Table EmojiMapping) where
  unfoldable pub get_emoji_by_slack_id : String → Option EmojiMapping
  get_emoji_by_slack_id slack_emoji_id = find (λ r. r.slack_emoji_id == slack_emoji_id) t.rows

  unfoldable pub get_emoji_by_name : String → Option EmojiMapping
  get_emoji_by_name emoji_name = find (λ r. r.emoji_name == emoji_name) t.rows

  abbrev pub get_emoji_by_mxc : String → Option EmojiMapping
  get_emoji_by_mxc mxc_url = find (λ r. r.mxc_url == mxc_url) t.rows

  -- INSERT; `none` is the UNIQUE constraint on the Slack id
  unfoldable pub create_emoji : EmojiMapping → Option (Table EmojiMapping)
  create_emoji emoji =
      if any (λ r. r.slack_emoji_id == emoji.slack_emoji_id) t.rows
      then none
      else some (record {
        rows = t.rows ++ record emoji { id = t.next_id } ∷ [];
        next_id = suc t.next_id;
      })

  abbrev pub update_emoji : EmojiMapping → Table EmojiMapping
  update_emoji emoji = record t {
    rows =
        map
          (λ r.
            if r.slack_emoji_id == emoji.slack_emoji_id
            then record r {
              emoji_name = emoji.emoji_name;
              animated = emoji.animated;
              mxc_url = emoji.mxc_url;
              updated_at = emoji.updated_at;
            }
            else r)
          t.rows;
  }

  unfoldable pub delete_emoji : String → Table EmojiMapping
  delete_emoji slack_emoji_id = record t {
    rows = retain (λ r. not (r.slack_emoji_id == slack_emoji_id)) t.rows;
  }

  -- an UPDATE of all the rows of the name, or an INSERT with the name as the Slack id
  unfoldable pub upsert_emoji_mapping : String → String → ℕ → Option (Table EmojiMapping)
  unfolding get_emoji_by_name create_emoji
  upsert_emoji_mapping name mxc_url now =
      if is_some (get_emoji_by_name name)
      then some (record t {
        rows =
            map
              (λ r.
                if r.emoji_name == name
                then record r { mxc_url = mxc_url; updated_at = now }
                else r)
              t.rows;
      })
      else create_emoji (new name name false mxc_url now)

  unfoldable pub rename_emoji : String → String → ℕ → Table EmojiMapping
  rename_emoji old_name new_name now = record t {
    rows =
        map
          (λ r.
            if r.emoji_name == old_name
            then record r { emoji_name = new_name; updated_at = now }
            else r)
          t.rows;
  }

abbrev slack_key : EmojiMapping → String
slack_key r = r.slack_emoji_id

abbrev row_id : EmojiMapping → ℕ
row_id r = r.id

abbrev url_of : EmojiMapping → String
url_of r = r.mxc_url

-- where the emoji of a Slack id is on Matrix
abbrev pub uploaded : Table EmojiMapping → String → Option String
uploaded t k = map_option url_of (get_emoji_by_slack_id t k)

abbrev inserted : Table EmojiMapping → EmojiMapping → Table EmojiMapping
inserted t m = record { rows = t.rows ++ record m { id = t.next_id } ∷ []; next_id = suc t.next_id }

abbrev taken : EmojiMapping → EmojiMapping → Bool
taken m r = r.slack_emoji_id == m.slack_emoji_id

create_emoji-inserted :
    (t u : Table EmojiMapping) (m : EmojiMapping)
    → create_emoji t m ≡ some u
    → (any (taken m) t.rows ≡ false) × (inserted t m ≡ u)
unfolding create_emoji
create_emoji-inserted t u m e = elim (Bool-cases (any (taken m) t.rows)) [
  | inl h ↦ absurd (ground (arith, rw h at e))
  | inr h ↦ (h, some-injective (inserted t m) u (rw h at e))
]

-- after an insert the Slack id has the new address, and every other id the one it had
pub uploaded-create :
    (t u : Table EmojiMapping) (m : EmojiMapping) (k : String)
    → create_emoji t m ≡ some u
    → uploaded u k ≡ (if m.slack_emoji_id == k then some m.mxc_url else uploaded t k)
unfolding get_emoji_by_slack_id
uploaded-create t u m k e =
    let (free, same) = create_emoji-inserted t u m e in
    subst
      (λ (x : Table EmojiMapping).
        uploaded x k ≡ (if m.slack_emoji_id == k then some m.mxc_url else uploaded t k))
      same
      (rw
        (find-append_one slack_key row_id t.rows (record m { id = t.next_id }) k
          (any-All _ _ t.rows (λ r h. h) free))
        (ground arith))
