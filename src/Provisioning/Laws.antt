-- ===== src/Provisioning/Laws.antt =====
-- Which request a decision is for, and what a late failure of a replaced request does to the one that
-- replaced it.
use matrix_bridge_slack.Prelude.{
  ℕ, suc, ◌<◌, ◌≡◌, refl, sym, subst, ◌∙◌, String, Bool, true, false, Option, none, some, eqb, ◌==◌,
  eq_iff, eq_refl, if◌then◌else◌, arith, Bool-cases, Option-cases, inl, inr, ◌⊎◌, eqb_iff,
}
use mathlib.Core.Option.{some-injective}
use matrix_bridge_slack.Prelude.Assoc.{
  string_eq, lookup, without, insert, lookup-insert, lookup-without,
}
use matrix_bridge_slack.Bridge.{ProvisioningError, declined, cancelled}
use matrix_bridge_slack.Provisioning.{
  applied, expired, ProvisioningCoordinator, new, ask, give_up, send, mark_approval,
  has_pending_request, is_sender, received, poll,
}

-- the requests that are pending are numbered below the counter, have no decision, and are of one channel
pub record IsValid (c : ProvisioningCoordinator) : Type 0 where
  pub below : (k : String) (i : ℕ) → lookup k c.pending ≡ some i → i < c.next_id
  pub open_ : (k : String) (i : ℕ) → lookup k c.pending ≡ some i → c.decision i ≡ none
  pub unsent : (i : ℕ) → c.next_id < suc i → c.decision i ≡ none
  pub one :
      (k j : String) (i : ℕ) → lookup k c.pending ≡ some i → lookup j c.pending ≡ some i → k ≡ j

-- any caller, in any order
pub data Step (c : ProvisioningCoordinator) : ProvisioningCoordinator → Type 0 where
  asked : (k : String) → Step c (ask k c).0
  gave_up : (k : String) → Step c (give_up k c)
  marked : (k : String) (allow : Bool) → Step c (mark_approval k allow c).0

pub data Reach : ProvisioningCoordinator → Type 0 where
  begin : Reach new
  next : {c d : ProvisioningCoordinator} → Reach c → Step c d → Reach d

-- what is pending after a removal was pending before
kept :
    (k j : String) (c : ProvisioningCoordinator) (i : ℕ)
    → lookup j (without k c.pending) ≡ some i
    → (lookup j c.pending ≡ some i) × ((k == j) ≡ false)
kept k j c i e = elim (Bool-cases (k == j)) [
  | inl same ↦ absurd (ground (arith, rw same at (sym (lookup-without k j c.pending) ∙ e)))
  | inr other ↦ (rw other at (sym (lookup-without k j c.pending) ∙ e), other)
]

give_up-IsValid : (k : String) (c : ProvisioningCoordinator) → IsValid c → IsValid (give_up k c)
unfolding give_up
give_up-IsValid k c v = record {
  below = λ j i e. v.below j i (kept k j c i e).0;
  open_ = λ j i e. v.open_ j i (kept k j c i e).0;
  unsent = v.unsent;
  one = λ j l i e f. v.one j l i (kept k j c i e).0 (kept k l c i f).0;
}

-- what is pending after a request is the new one, or was pending before
added :
    (k j : String) (c : ProvisioningCoordinator) (i : ℕ)
    → lookup j (insert k c.next_id c.pending) ≡ some i
    → ((k ≡ j) × (c.next_id ≡ i)) ⊎ (lookup j c.pending ≡ some i)
added k j c i e = elim (Bool-cases (k == j)) [
  | inl same ↦ inl (
    (eq_iff k j).0 same,
    some-injective c.next_id i (rw same at (sym (lookup-insert k j c.next_id c.pending) ∙ e)),
  )
  | inr other ↦ inr (rw other at (sym (lookup-insert k j c.next_id c.pending) ∙ e))
]

ask-IsValid : (k : String) (c : ProvisioningCoordinator) → IsValid c → IsValid (ask k c).0
unfolding ask
ask-IsValid k c v = record {
  below = λ j i e. elim (added k j c i e) [
    | inl (same, fresh) ↦ omega (arith, fresh)
    | inr old ↦ omega (arith, v.below j i old)
  ];
  open_ = λ j i e. elim (added k j c i e) [
    | inl (same, fresh) ↦ v.unsent i (omega (arith, fresh))
    | inr old ↦ v.open_ j i old
  ];
  unsent = λ i h. v.unsent i (omega (arith, h));
  one = λ j l i e f. elim (added k j c i e) [
    | inl (same, fresh) ↦ elim (added k l c i f) [
      | inl (same', _) ↦ sym same ∙ same'
      | inr old ↦ absurd (omega (arith, fresh, v.below l i old))
    ]
    | inr old ↦ elim (added k l c i f) [
      | inl (_, fresh) ↦ absurd (omega (arith, fresh, v.below j i old))
      | inr old' ↦ v.one j l i old old'
    ]
  ];
}

mark_approval-IsValid :
    (k : String) (allow : Bool) (c : ProvisioningCoordinator)
    → IsValid c
    → IsValid (mark_approval k allow c).0
unfolding mark_approval
mark_approval-IsValid k allow c v = elim (Option-cases (lookup k c.pending)) [
  | inl e ↦ rw (e, mark_approval) v
  | inr (n, e) ↦
      rw (e, mark_approval)
        (record {
          below = λ j i f. v.below j i (kept k j c i f).0;
          open_ = λ j i f. still_open n e j i f;
          unsent = λ i h. elim (Bool-cases (eqb n i)) [
            | inl same ↦ absurd (ground (arith, h, same, v.below k n e))
            | inr other ↦ rw other (v.unsent i h)
          ];
          one = λ j l i f g. v.one j l i (kept k j c i f).0 (kept k l c i g).0;
        })
]
  where
    still_open :
        (n : ℕ)
        → lookup k c.pending ≡ some n
        → (j : String) (i : ℕ) → lookup j (without k c.pending) ≡ some i
        → send n allow c.decision i ≡ none
    still_open n e j i f =
        let (was, other) = kept k j c i f in
        elim (Bool-cases (eqb n i)) [
          | inl same ↦
              let here = subst (λ x. lookup k c.pending ≡ some x) ((eqb_iff n i).0 same) e in
              absurd (ground (arith, eq_iff k j, other, v.one k j i here was))
          | inr apart ↦ rw apart (v.open_ j i was)
        ]

pub Reach-IsValid : (c : ProvisioningCoordinator) → Reach c → IsValid c
unfolding new lookup
Reach-IsValid c begin = record {
  below = λ k i e. absurd (ground (arith, e));
  open_ = λ k i e. refl;
  unsent = λ i h. refl;
  one = λ k j i e f. absurd (ground (arith, e));
}
Reach-IsValid d (next {c} r (asked k)) = ask-IsValid k c (Reach-IsValid c r)
Reach-IsValid d (next {c} r (gave_up k)) = give_up-IsValid k c (Reach-IsValid c r)
Reach-IsValid d (next {c} r (marked k allow)) = mark_approval-IsValid k allow c (Reach-IsValid c r)

abbrev pub decided : Bool → Option ProvisioningError
decided true = none
decided false = some declined

module _ (c : ProvisioningCoordinator) (v : IsValid c) (j : String) (i : ℕ)
    (e : lookup j c.pending ≡ some i) where
  waiting : poll j i c ≡ none
  unfolding poll
  waiting = rw (v.open_ j i e, e) (ground arith)

  poll-give_up :
      (k : String) → poll j i (give_up k c) ≡ (if k == j then some (some cancelled) else none)
  unfolding poll give_up
  poll-give_up k =
      rw (v.open_ j i e, lookup-without k j c.pending)
        (elim (Bool-cases (k == j)) [
          | inl same ↦ rw same
          | inr other ↦ rw (other, e) (ground arith)
        ])

  poll-ask : (k : String) → poll j i (ask k c).0 ≡ (if k == j then some (some cancelled) else none)
  unfolding poll ask
  poll-ask k =
      rw (v.open_ j i e, lookup-insert k j c.next_id c.pending)
        (elim (Bool-cases (k == j)) [
          | inl same ↦ rw same (ground (arith, v.below j i e))
          | inr other ↦ rw (other, e) (ground arith)
        ])

  poll-mark_approval :
      (k : String) (allow : Bool)
      → poll j i (mark_approval k allow c).0 ≡ (if k == j then some (decided allow) else none)
  unfolding poll mark_approval
  poll-mark_approval k allow = elim (Bool-cases (k == j)) [
    | inl same ↦
        let here = subst (λ x. lookup x c.pending ≡ some i) (sym ((eq_iff k j).0 same)) e in
        rw (here, mark_approval) (rw (same, sent i) (result allow))
    | inr other ↦ rw other (elim (Option-cases (lookup k c.pending)) [
      | inl absent ↦ rw (absent, mark_approval) waiting
      | inr (n, found) ↦
          rw (found, mark_approval)
            (rw (apart n found other, v.open_ j i e, lookup-without k j c.pending)
              (rw (other, e) (ground arith)))
    ])
  ]
    where
      sent : (n : ℕ) → send n allow c.decision n ≡ some allow
      sent n = ground arith

      result :
          (b : Bool)
          → received (some b) (is_sender i (lookup j (without k c.pending))) ≡ some (decided b)
      result true = refl
      result false = refl

      apart : (n : ℕ) → lookup k c.pending ≡ some n → (k == j) ≡ false → eqb n i ≡ false
      apart n found other = elim (Bool-cases (eqb n i)) [
        | inl hit ↦
            let path =
              v.one k j i (subst (λ x. lookup k c.pending ≡ some x) ((eqb_iff n i).0 hit) found)
                e in
            absurd (ground (arith, eq_iff k j, other, path))
        | inr miss ↦ miss
      ]

pub poll_new :
    (c : ProvisioningCoordinator) (k : String) → IsValid c → poll k (ask k c).1 (ask k c).0 ≡ none
unfolding poll ask
poll_new c k v =
    rw (v.unsent c.next_id (omega arith), lookup-insert k k c.next_id c.pending)
      (rw (eq_refl k) (ground arith))

-- In every state that the calls of the coordinator reach, a request that is pending waits; a
-- decision for its channel gives it that decision, a new request for its channel or a removal of
-- its channel's request cancels it, and the same calls for another channel leave it waiting.
pub poll_lem :
    (c : ProvisioningCoordinator) (k j : String) (i : ℕ) (allow : Bool)
    → Reach c
    → lookup j c.pending ≡ some i
    → (poll j i c ≡ none)
      × (poll j i (mark_approval k allow c).0 ≡ (if k == j then some (decided allow) else none))
      × (poll j i (ask k c).0 ≡ (if k == j then some (some cancelled) else none))
      × (poll j i (give_up k c) ≡ (if k == j then some (some cancelled) else none))
poll_lem c k j i allow r e =
    let v = Reach-IsValid c r in
    (
      waiting c v j i e,
      poll-mark_approval c v j i e k allow,
      poll-ask c v j i e k,
      poll-give_up c v j i e k,
    )

-- A decision is applied exactly when the channel has a pending request, and afterwards the channel
-- has none.
pub mark_approval_lem :
    (c : ProvisioningCoordinator) (k : String) (allow : Bool)
    → ((mark_approval k allow c).1 ≡ (if has_pending_request k c then applied else expired))
      × (has_pending_request k (mark_approval k allow c).0 ≡ false)
unfolding mark_approval has_pending_request
mark_approval_lem c k allow = elim (Option-cases (lookup k c.pending)) [
  | inl absent ↦ rw (absent, mark_approval) (ground (arith, absent))
  | inr (n, found) ↦
      rw (found, mark_approval) (refl, rw (lookup-without k k c.pending) (rw (eq_refl k)))
]

asked-lookup :
    (c : ProvisioningCoordinator) (k : String) → lookup k (ask k c).0.pending ≡ some (ask k c).1
unfolding ask
asked-lookup c k = rw (lookup-insert k k c.next_id c.pending) (rw (eq_refl k))

gave_up-pending :
    (c : ProvisioningCoordinator) (k : String) → has_pending_request k (give_up k c) ≡ false
unfolding give_up has_pending_request
gave_up-pending c k = rw (lookup-without k k c.pending) (rw (eq_refl k))

-- Where a channel is asked twice and the first of the two requests fails late or times out, the
-- second is cancelled, and a decision for the channel has expired.
pub give_up-ask :
    (c : ProvisioningCoordinator) (k : String) (allow : Bool)
    → Reach c
    → (poll k (ask k (ask k c).0).1 (give_up k (ask k (ask k c).0).0) ≡ some (some cancelled))
      × ((mark_approval k allow (give_up k (ask k (ask k c).0).0)).1 ≡ expired)
give_up-ask c k allow r =
    let older = (ask k c).0 in
    let newer = (ask k older).0 in
    let calls =
      poll_lem newer k k (ask k older).1 allow (next (next r (asked k)) (asked k))
        (asked-lookup older k) in
    (
      rw (eq_refl k) at calls.3,
      (rw (gave_up-pending newer k) at (mark_approval_lem (give_up k newer) k allow).0),
    )
