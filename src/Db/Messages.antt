-- ===== src/Db/Messages.antt =====
-- The message store against the map it keeps, from the id of a Slack message to a Matrix room and event.
use matrix_bridge_slack.Prelude.{
  ℕ, suc, ◌<◌, ◌≡◌, refl, subst, String, false, not, Option, none, some, List, [], ◌∷◌, map, retain,
  eqb, ◌==◌, eq_iff, if◌then◌else◌, All, All-append, All-retain, Bool-cases, Option-cases, inl, inr,
  arith,
}
use mathlib.Core.Option.{some-injective, map as map_option}
use matrix_bridge_slack.Db.{
  MessageMapping, Table, find, updated_by, get_by_slack_message_id, get_by_matrix_event_id,
  upsert_message_mapping, delete_by_slack_message_id, delete_by_matrix_event_id,
}
use matrix_bridge_slack.Db.Rows.{
  by_key, find-All, find-append_one, Differ, Differ-fresh, Unique, Unique-append, Unique-retain,
}

abbrev slack_key : MessageMapping → String
slack_key r = r.slack_message_id

abbrev event_key : MessageMapping → String
event_key r = r.matrix_event_id

abbrev row_id : MessageMapping → ℕ
row_id r = r.id

abbrev Below : ℕ → MessageMapping → Type 0
Below n r = r.id < n

abbrev pub IsValid : Table MessageMapping → Type 0
IsValid t = All (Below t.next_id) t.rows × Unique slack_key row_id t.rows

-- where a Slack message is on Matrix
abbrev pub target : MessageMapping → String × String
target r = (r.matrix_room_id, r.matrix_event_id)

abbrev pub view : Table MessageMapping → String → Option (String × String)
view t slack_id = map_option target (get_by_slack_message_id t slack_id)

retain-find :
    (key : MessageMapping → String) (k j : String) (rows : List MessageMapping)
    → find (by_key key row_id j) (retain (λ r. not (key r == k)) rows)
      ≡ (if k == j then none else find (by_key key row_id j) rows)
unfolding find
retain-find key k j [] = ground arith
retain-find key k j (r ∷ rows) =
    ground (arith, retain-find key k j rows, eq_iff (key r) k, eq_iff (key r) j, eq_iff k j)

-- Deleting by a Slack id removes that id's mapping and no other.
pub view-delete_by_slack_message_id :
    (t : Table MessageMapping) (k j : String)
    → view (delete_by_slack_message_id t k) j ≡ (if k == j then none else view t j)
unfolding get_by_slack_message_id delete_by_slack_message_id
view-delete_by_slack_message_id t k j = rw (retain-find slack_key k j t.rows) (ground arith)

-- Deleting by the event removes what maps to that event and nothing else.
pub get-delete_by_matrix_event_id :
    (t : Table MessageMapping) (k j : String)
    → get_by_matrix_event_id (delete_by_matrix_event_id t k) j
      ≡ (if k == j then none else get_by_matrix_event_id t j)
unfolding get_by_matrix_event_id delete_by_matrix_event_id
get-delete_by_matrix_event_id t k j = retain-find event_key k j t.rows

module _ (t : Table MessageMapping) (m : MessageMapping) where
  -- no row has the id
  find-rewritten_other :
      (r : MessageMapping) (rows : List MessageMapping) (j : String)
      → All (Differ slack_key row_id r) rows
      → find
          (by_key slack_key row_id j)
          (map (λ x. if eqb x.id r.id then updated_by t m x else x) rows)
        ≡ find (by_key slack_key row_id j) rows
  unfolding find
  find-rewritten_other r [] j h = refl
  find-rewritten_other r (s ∷ rows) j ((d, _), hs) =
      ground (arith, find-rewritten_other r rows j hs)

  find-rewritten :
      (rows : List MessageMapping) (e : MessageMapping) (j : String)
      → Unique slack_key row_id rows
      → find (by_key slack_key row_id m.slack_message_id) rows ≡ some e
      → map_option target (
          find
            (by_key slack_key row_id j)
            (map (λ x. if eqb x.id e.id then updated_by t m x else x) rows))
        ≡ (if m.slack_message_id == j
            then some (target m)
            else map_option target (find (by_key slack_key row_id j) rows))
  unfolding find
  find-rewritten [] e j u f = cc
  find-rewritten (r ∷ rows) e j (d, u) f =
      elim (Bool-cases (r.slack_message_id == m.slack_message_id)) [
        | inl same ↦
            subst
              (λ (x : MessageMapping).
                map_option target (
                  find (by_key slack_key row_id j)
                    (map (λ y. if eqb y.id x.id then updated_by t m y else y) (r ∷ rows)))
                ≡ (if m.slack_message_id == j
                    then some (target m)
                    else map_option target (find (by_key slack_key row_id j) (r ∷ rows))))
              (some-injective r e (rw same at f))
              (ground (
                arith,
                same,
                find-rewritten_other r rows j d,
                eq_iff r.slack_message_id m.slack_message_id,
                eq_iff r.slack_message_id j,
                eq_iff m.slack_message_id j,
              ))
        | inr other ↦
            let later : find (by_key slack_key row_id m.slack_message_id) rows ≡ some e =
              (rw other at f) in
            let apart =
              find-All (by_key slack_key row_id m.slack_message_id) (Differ slack_key row_id r) rows
                e later d in
            ground (
              arith,
              find-rewritten rows e j u later,
              eq_iff r.slack_message_id m.slack_message_id,
              eq_iff r.slack_message_id j,
              eq_iff m.slack_message_id j,
            )
      ]

  find-none_other :
      (rows : List MessageMapping) (k : String)
      → find (by_key slack_key row_id k) rows ≡ none
      → All (λ s. (slack_key s == k) ≡ false) rows
  unfolding find
  find-none_other [] k f = tt
  find-none_other (r ∷ rows) k f = elim (Bool-cases (r.slack_message_id == k)) [
    | inl same ↦ absurd (ground (arith, rw same at f))
    | inr other ↦ (other, find-none_other rows k (rw other at f))
  ]

  -- In a valid message table, after an upsert the Slack id maps to the new room and event, whether
  -- it had a row or not, and every other id to what it did.
  pub view-upsert :
      (j : String)
      → IsValid t
      → view (upsert_message_mapping t m) j
        ≡ (if m.slack_message_id == j then some (target m) else view t j)
  unfolding upsert_message_mapping get_by_slack_message_id
  view-upsert j (below, u) =
      elim (Option-cases (find (λ r. r.slack_message_id == m.slack_message_id) t.rows)) [
        | inl f ↦
            rw (f, upsert_message_mapping)
              (rw
                (find-append_one slack_key row_id t.rows (record m { id = t.next_id }) j
                  (find-none_other t.rows m.slack_message_id f))
                (ground arith))
        | inr (e, f) ↦ rw (f, upsert_message_mapping) (find-rewritten t.rows e j u f)
      ]

  Below-suc : (n : ℕ) (rows : List MessageMapping) → All (Below n) rows → All (Below (suc n)) rows
  Below-suc n [] h = tt
  Below-suc n (r ∷ rows) (h, hs) = (omega (arith, h), Below-suc n rows hs)

  Below-map :
      (n i : ℕ) (rows : List MessageMapping)
      → All (Below n) rows
      → All (Below n) (map (λ r. if eqb r.id i then updated_by t m r else r) rows)
  Below-map n i [] h = tt
  Below-map n i (r ∷ rows) (h, hs) = (ground (arith, h), Below-map n i rows hs)

  Differ-map :
      (i : ℕ) (r : MessageMapping) (rows : List MessageMapping)
      → All (Differ slack_key row_id r) rows
      → All
          (Differ slack_key row_id (if eqb r.id i then updated_by t m r else r))
          (map (λ x. if eqb x.id i then updated_by t m x else x) rows)
  Differ-map i r [] h = tt
  Differ-map i r (s ∷ rows) ((d, k), hs) =
      (((λ same. d (ground (arith, same))), ground (arith, k)), Differ-map i r rows hs)

  Unique-map :
      (i : ℕ) (rows : List MessageMapping)
      → Unique slack_key row_id rows
      → Unique slack_key row_id (map (λ x. if eqb x.id i then updated_by t m x else x) rows)
  Unique-map i [] u = tt
  Unique-map i (r ∷ rows) (d, u) = (Differ-map i r rows d, Unique-map i rows u)

  -- An upsert keeps a message table valid: ids below the counter and unique, and no Slack id
  -- twice.
  pub upsert_message_mapping-IsValid : IsValid t → IsValid (upsert_message_mapping t m)
  unfolding upsert_message_mapping get_by_slack_message_id
  upsert_message_mapping-IsValid (below, u) =
      elim (Option-cases (find (λ r. r.slack_message_id == m.slack_message_id) t.rows)) [
        | inl f ↦
            let new : MessageMapping = record m { id = t.next_id } in
            rw (f, upsert_message_mapping)
              (
                All-append (Below (suc t.next_id)) t.rows (new ∷ [])
                    (Below-suc t.next_id t.rows below) (omega arith, tt),
                Unique-append slack_key row_id t.rows new u (
                    Differ-fresh slack_key row_id t.rows new below
                      (find-none_other t.rows m.slack_message_id f)),
              )
        | inr (e, f) ↦
            rw (f, upsert_message_mapping)
              (Below-map t.next_id e.id t.rows below, Unique-map e.id t.rows u)
      ]

pub delete_by_slack_message_id-IsValid :
    (t : Table MessageMapping) (k : String) → IsValid t → IsValid (delete_by_slack_message_id t k)
unfolding delete_by_slack_message_id
delete_by_slack_message_id-IsValid t k (below, u) =
    (All-retain (Below t.next_id) _ t.rows below, Unique-retain slack_key row_id _ t.rows u)

pub delete_by_matrix_event_id-IsValid :
    (t : Table MessageMapping) (k : String) → IsValid t → IsValid (delete_by_matrix_event_id t k)
unfolding delete_by_matrix_event_id
delete_by_matrix_event_id-IsValid t k (below, u) =
    (All-retain (Below t.next_id) _ t.rows below, Unique-retain slack_key row_id _ t.rows u)
