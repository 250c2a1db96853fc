-- ===== src/Db/Users.antt =====
-- The user store of db/sqlite.rs: what its queries do to the table, and who has a row afterwards.
use mathlib.Core.Option.{some-injective}
use matrix_bridge_slack.Prelude.{
  subst, All-append, ℕ, suc, ◌<◌, ◌≡◌, refl, String, Bool, false, not, ◌||◌, Option, none, some,
  List, [], ◌∷◌, ◌++◌, map, retain, eqb, ◌==◌, if◌then◌else◌, All, Bool-cases, inl, inr, arith,
}
use matrix_bridge_slack.Json.{or_else}
use matrix_bridge_slack.Db.{Table, find, any}
use matrix_bridge_slack.Db.Rows.{by_key, find-append_one, any-All}

pub record UserMapping : Type 0 where
  pub id : ℕ
  pub matrix_user_id : String
  pub slack_user_id : String
  pub slack_username : String
  pub slack_discriminator : String
  pub slack_avatar : Option String
  pub created_at : ℕ
  pub updated_at : ℕ

module _ (t : Table UserMapping) where
  unfoldable pub get_user_by_slack_id : String → Option UserMapping
  get_user_by_slack_id slack_id = find (λ r. r.slack_user_id == slack_id) t.rows

  unfoldable pub get_user_by_matrix_id : String → Option UserMapping
  get_user_by_matrix_id matrix_id = find (λ r. r.matrix_user_id == matrix_id) t.rows

  abbrev pub get_all_user_ids : List String
  get_all_user_ids = map (λ r. r.matrix_user_id) t.rows

  -- INSERT; `none` is the UNIQUE constraint on either id
  unfoldable pub create_user_mapping : UserMapping → Option (Table UserMapping)
  create_user_mapping mapping =
      if any
        (λ r.
          r.matrix_user_id == mapping.matrix_user_id || r.slack_user_id == mapping.slack_user_id)
        t.rows
      then none
      else some (record {
        rows = t.rows ++ record mapping { id = t.next_id } ∷ [];
        next_id = suc t.next_id;
      })

  -- UPDATE of the row with the id; an avatar that is `None` is not among the changes
  abbrev pub user_updated_by : UserMapping → UserMapping → UserMapping
  user_updated_by mapping r = record r {
    slack_username = mapping.slack_username;
    slack_discriminator = mapping.slack_discriminator;
    slack_avatar = or_else mapping.slack_avatar r.slack_avatar;
    updated_at = mapping.updated_at;
  }

  unfoldable pub update_user_mapping : UserMapping → Table UserMapping
  update_user_mapping mapping = record t {
    rows = map (λ r. if eqb r.id mapping.id then user_updated_by mapping r else r) t.rows;
  }

  abbrev pub delete_user_mapping : ℕ → Table UserMapping
  delete_user_mapping id = record t { rows = retain (λ r. not (eqb r.id id)) t.rows }

abbrev slack_key : UserMapping → String
slack_key r = r.slack_user_id

abbrev row_id : UserMapping → ℕ
row_id r = r.id

-- SQLite gives no row the id 0
abbrev IsPositive : UserMapping → Type 0
IsPositive r = 0 < r.id

abbrev pub HasIds : Table UserMapping → Type 0
HasIds t = All IsPositive t.rows × (0 < t.next_id)

rows_updated_zero :
    (t : Table UserMapping) (m : UserMapping) (rows : List UserMapping)
    → All IsPositive rows
    → m.id ≡ 0
    → map (λ r. if eqb r.id m.id then user_updated_by t m r else r) rows ≡ rows
rows_updated_zero t m [] h z = refl
rows_updated_zero t m (r ∷ rows) (h, hs) z = ground (arith, rows_updated_zero t m rows hs z)

-- an update of the row with the id 0 changes none
pub update_user_mapping_zero :
    (t : Table UserMapping) (m : UserMapping) → HasIds t → m.id ≡ 0 → update_user_mapping t m ≡ t
unfolding update_user_mapping
update_user_mapping_zero t m h z = rw (rows_updated_zero t m t.rows h.0 z) refl

-- the row that an insert adds
abbrev inserted : Table UserMapping → UserMapping → Table UserMapping
inserted t m = record { rows = t.rows ++ record m { id = t.next_id } ∷ []; next_id = suc t.next_id }

abbrev taken : UserMapping → UserMapping → Bool
taken m r = r.matrix_user_id == m.matrix_user_id || r.slack_user_id == m.slack_user_id

create_user_mapping-inserted :
    (t u : Table UserMapping) (m : UserMapping)
    → create_user_mapping t m ≡ some u
    → (any (taken m) t.rows ≡ false) × (inserted t m ≡ u)
unfolding create_user_mapping
create_user_mapping-inserted t u m e = elim (Bool-cases (any (taken m) t.rows)) [
  | inl h ↦ absurd (ground (arith, rw h at e))
  | inr h ↦ (h, some-injective (inserted t m) u (rw h at e))
]

module _ (t u : Table UserMapping) (m : UserMapping) (e : create_user_mapping t m ≡ some u) where
  -- after an insert the Slack id has the new row, and every other id the one it had
  pub get_user-create :
      (k : String)
      → get_user_by_slack_id u k ≡ (
          if m.slack_user_id == k
          then some (record m { id = t.next_id })
          else get_user_by_slack_id t k)
  unfolding get_user_by_slack_id
  get_user-create k =
      let (free, same) = create_user_mapping-inserted t u m e in
      subst
        (λ (x : Table UserMapping). find (by_key slack_key row_id k) x.rows ≡ (
          if m.slack_user_id == k
          then some (record m { id = t.next_id })
          else get_user_by_slack_id t k))
        same
        (find-append_one slack_key row_id t.rows (record m { id = t.next_id }) k
          (any-All _ _ t.rows (λ r h. ground (arith, h)) free))

  pub create_user_mapping-HasIds : HasIds t → HasIds u
  create_user_mapping-HasIds h =
      let (free, same) = create_user_mapping-inserted t u m e in
      subst HasIds same (All-append IsPositive t.rows _ h.0 (h.1, tt), omega arith)
