-- ===== src/Bridge/Backfill/Limit.antt =====
-- The number of messages that a backfill of a channel sends, and its fuel.
use matrix_bridge_slack.Prelude.{
  ℕ, zero, suc, ◌≤◌, ◌<◌, ◌≡◌, ◌≢◌, refl, String, Bool, true, false, Option, none, some, leb, eqb,
  arith, if◌then◌else◌,
}
use matrix_bridge_slack.Json.{Value, Values, nil, cons}
use matrix_bridge_slack.Db.{RoomMapping}
use matrix_bridge_slack.Bridge.{Result, ok, err, State, Env, get_conversation_history}
use matrix_bridge_slack.Bridge.Monad.{M, pure, call, continue, ◌>>=◌}
use matrix_bridge_slack.Bridge.Triple.{Post, Triple, Triple-pure, Triple-if, Triple-bind}
use matrix_bridge_slack.Bridge.Backfill.{
  messages_of, backfill_message, add_sent, send_page, next_page, batch_size, go_on, on_page,
  send_pages, backfill_channel,
}

abbrev Any : State → Type 0
Any s = Unit

Any-Post : {A : Type 0} (r : Result A × State) → Post (λ _. Any) Any r
Any-Post (ok a, s) = tt
Any-Post (err e, s) = tt

anything : {A : Type 0} (m : M A) → Triple Any m (λ _. Any) Any
anything m = record { at = λ env s _. Any-Post (m env s) }

-- a number of sent messages within the limit, if there is one
abbrev pub Within : ℕ → Option ℕ → Type 0
Within limit none = Unit
Within limit (some n) = n ≤ limit

module _ (mapping : RoomMapping) (limit : ℕ) where
  send_page-le :
      (total : ℕ) (vs : Values)
      → total ≤ limit
      → Triple Any (send_page mapping limit total vs) (λ n _. n ≤ limit) Any
  unfolding send_page
  send_page-le total nil h = Triple-pure total λ s _. h
  send_page-le total (cons v vs) h =
      Triple-if (leb limit total) _ _ (λ _. Triple-pure total λ s _. h)
        λ more.
          Triple-bind _ _ (anything (backfill_message mapping v))
            λ sent. send_page-le (add_sent mapping sent total) vs (ground (arith, more))

  abbrev Keeps : (Option String → ℕ → M (Option ℕ)) → Type 0
  Keeps again =
      (c : Option String) (n : ℕ) → n ≤ limit → Triple Any (again c n) (λ o _. Within limit o) Any

  go_on-Within :
      (again : Option String → ℕ → M (Option ℕ)) (n : ℕ) (o : Option String)
      → Keeps again
      → n ≤ limit
      → Triple Any (go_on mapping again n o) (λ o _. Within limit o) Any
  go_on-Within again n none k h = Triple-pure (some n) λ s _. h
  go_on-Within again n (some c) k h = k (some c) n h

  on_page-Within :
      (again : Option String → ℕ → M (Option ℕ)) (total : ℕ) (history : Value) (vs : Values)
      → Keeps again
      → total ≤ limit
      → Triple Any (on_page mapping again limit total history vs) (λ o _. Within limit o) Any
  on_page-Within again total history nil k h = Triple-pure (some total) λ s _. h
  on_page-Within again total history (cons v vs) k h = Triple-bind _ _ (send_page-le total _ h) λ n.
      record {
        at = λ env s le.
            (Triple-if {P = Any} (leb limit n) _ _ (λ _. Triple-pure (some n) λ s _. le)
                (λ _. go_on-Within again n (next_page mapping history) k le)).at
              env s tt;
      }

  send_pages-Within :
      (fuel : ℕ) (cursor : Option String) (total : ℕ)
      → total ≤ limit
      → Triple Any (send_pages mapping fuel limit cursor total) (λ o _. Within limit o) Any
  unfolding send_pages
  send_pages-Within zero cursor total h = Triple-pure none λ s _. tt
  send_pages-Within (suc fuel) cursor total h =
      Triple-bind _ _
        (anything (
          call
            (get_conversation_history mapping.slack_channel_id (batch_size mapping limit) cursor)))
        λ history.
          on_page-Within (send_pages mapping fuel limit) total history (messages_of history)
            (send_pages-Within fuel) h

  backfill_channel-Within :
      (fuel : ℕ) (env : Env) (s : State)
      → Post (λ o _. Within limit o) (λ _. Unit) (backfill_channel mapping fuel limit env s)
  unfolding backfill_channel
  backfill_channel-Within fuel env s =
      (Triple-if {P = Any} (eqb limit 0) _ _ (λ _. Triple-pure (some 0) λ s _. omega arith)
          (λ _. send_pages-Within fuel none 0 (omega arith))).at
        env s tt

  -- Slack's cursors lead to the end: the page behind a cursor has a smaller rank than its own page
  abbrev pub Paged : Env → (Option String → ℕ) → Type 0
  Paged env rank =
      (clock : ℕ) (cursor : Option String) (history : Value) (next : String)
      → env.answer clock
          (get_conversation_history mapping.slack_channel_id (batch_size mapping limit) cursor)
        ≡ ok history
      → next_page mapping history ≡ some next
      → rank (some next) < rank cursor

  abbrev Ended : Option ℕ → State → Type 0
  Ended o s = o ≢ none

  module _ (env : Env) where
    abbrev Ends : M (Option ℕ) → Type 0
    Ends m = (s : State) → Post Ended Any (m env s)

    Ends-if : (b : Bool) (m n : M (Option ℕ)) → Ends m → Ends n → Ends (if b then m else n)
    Ends-if true m n hm hn = hm
    Ends-if false m n hm hn = hn

    pure-Ends : (n : ℕ) → Ends (pure (some n))
    unfolding pure
    pure-Ends n s = λ e. cc

    continue-Ends :
        {A : Type 0} (r : Result A) (f : A → M (Option ℕ)) (t : State)
        → ((a : A) → r ≡ ok a → Ends (f a))
        → Post Ended Any (continue r f env t)
    continue-Ends (ok a) f t h = h a refl t
    continue-Ends (err e) f t h = tt

    bind-Ends :
        {A : Type 0} (m : M A) (f : A → M (Option ℕ)) → ((a : A) → Ends (f a)) → Ends (m >>= f)
    unfolding ◌>>=◌
    bind-Ends m f h s = let (r, t) = m env s in continue-Ends r f t (λ a _. h a)

    go_on-Ends :
        (again : Option String → ℕ → M (Option ℕ)) (n : ℕ) (o : Option String)
        → ((c : String) → o ≡ some c → Ends (again (some c) n))
        → Ends (go_on mapping again n o)
    go_on-Ends again n none h = pure-Ends n
    go_on-Ends again n (some c) h = h c refl

    on_page-Ends :
        (again : Option String → ℕ → M (Option ℕ)) (total : ℕ) (history : Value) (vs : Values)
        → ((c : String) (n : ℕ) → next_page mapping history ≡ some c → Ends (again (some c) n))
        → Ends (on_page mapping again limit total history vs)
    on_page-Ends again total history nil h = pure-Ends total
    on_page-Ends again total history (cons v vs) h = bind-Ends _ _ λ n.
        Ends-if (leb limit n) _ _ (pure-Ends n)
          (go_on-Ends again n (next_page mapping history) (λ c e. h c n e))

    send_pages-Ends :
        (rank : Option String → ℕ)
        → Paged env rank
        → (fuel : ℕ) (cursor : Option String) (total : ℕ) → rank cursor < fuel
        → Ends (send_pages mapping fuel limit cursor total)
    unfolding send_pages ◌>>=◌
    send_pages-Ends rank paged zero cursor total h s = absurd (omega arith)
    send_pages-Ends rank paged (suc fuel) cursor total h s = continue-Ends _ _ _ λ history e.
        on_page-Ends (send_pages mapping fuel limit) total history (messages_of history) λ c n next.
          let lower = paged s.clock cursor history c e next in
          send_pages-Ends rank paged fuel (some c) n (omega arith)

    backfill_channel-Ended :
        (rank : Option String → ℕ)
        → Paged env rank
        → (fuel : ℕ) → rank none < fuel
        → Ends (backfill_channel mapping fuel limit)
    unfolding backfill_channel
    backfill_channel-Ended rank paged fuel h =
        Ends-if (eqb limit 0) _ _ (pure-Ends 0) (send_pages-Ends rank paged fuel none 0 h)

  both :
      (r : Result (Option ℕ) × State)
      → Post Ended Any r
      → Post (λ o _. Within limit o) Any r
      → Post (λ o _. (n : ℕ) × (o ≡ some n) × (n ≤ limit)) Any r
  both (ok none, s) ended within = absurd (ended refl)
  both (ok (some n), s) ended within = (n, refl, within)
  both (err e, s) ended within = tt

  -- If a rank of Slack's cursors falls from each page to the next, a backfill with more fuel than
  -- the rank of the start ends: it fails with a request or a query, or it gives a number of
  -- messages that is at most the limit.
  pub backfill_channel-total :
      (rank : Option String → ℕ) (fuel : ℕ) (env : Env) (s : State)
      → Paged env rank
      → rank none < fuel
      → Post
          (λ o _. (n : ℕ) × (o ≡ some n) × (n ≤ limit))
          (λ _. Unit)
          (backfill_channel mapping fuel limit env s)
  backfill_channel-total rank fuel env s paged h =
      both _ (backfill_channel-Ended env rank paged fuel h s) (backfill_channel-Within fuel env s)
