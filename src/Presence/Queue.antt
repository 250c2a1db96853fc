-- ===== src/Presence/Queue.antt =====
-- The queue's invariant under every interleaving of the handler's calls, and what a wait can lose.
use matrix_bridge_slack.Prelude.{
  String, ◌≡◌, refl, subst, false, not, Option, some, List, [], ◌∷◌, ◌++◌, arith, All, All-append,
  Bool-cases, inl, inr, ◌==◌, eq_iff,
}
use mathlib.Core.List.{append-nil}
use mathlib.Core.Option.{some-injective}
use matrix_bridge_slack.Presence.{
  SlackPresence, PresenceDecision, PresenceHandler, new, is_bot, others, enqueue_user, dequeue_user,
  pop_front, popped, requeue,
}

-- no entry of the user
abbrev pub Absent : String → List SlackPresence → Type 0
Absent u q = All (λ p. (p.user_id == u) ≡ false) q

abbrev pub Distinct : List SlackPresence → Type 0
Distinct [] = Unit
Distinct (p ∷ q) = Absent p.user_id q × Distinct q

pub record IsValid (h : PresenceHandler) : Type 0 where
  pub distinct : Distinct h.queue
  pub no_bot : All (λ p. is_bot h.bot_slack_user_id p.user_id ≡ false) h.queue

pub others-Absent : (u : String) (q : List SlackPresence) → Absent u (others u q)
unfolding others
others-Absent u [] = tt
others-Absent u (p ∷ q) = elim (Bool-cases (p.user_id == u)) [
  | inl e ↦ rw e (others-Absent u q)
  | inr e ↦ rw e (e, others-Absent u q)
]

module _ (P : SlackPresence → Type 0) where
  others-All : (u : String) (q : List SlackPresence) → All P q → All P (others u q)
  unfolding others
  others-All u [] h = tt
  others-All u (p ∷ q) (h, hs) = elim (Bool-cases (p.user_id == u)) [
    | inl e ↦ rw e (others-All u q hs)
    | inr e ↦ rw e (h, others-All u q hs)
  ]

pub others-Distinct : (u : String) (q : List SlackPresence) → Distinct q → Distinct (others u q)
unfolding others
others-Distinct u [] d = tt
others-Distinct u (p ∷ q) (a, d) = elim (Bool-cases (p.user_id == u)) [
  | inl e ↦ rw e (others-Distinct u q d)
  | inr e ↦ rw e (others-All (λ x. (x.user_id == p.user_id) ≡ false) u q a, others-Distinct u q d)
]

-- leaving out an absent user leaves the queue
pub others_of_Absent : (u : String) (q : List SlackPresence) → Absent u q → others u q ≡ q
unfolding others
others_of_Absent u [] h = refl
others_of_Absent u (p ∷ q) (h, hs) = rw h (rw (others_of_Absent u q hs))

==_sym : (s t : String) → (s == t) ≡ false → (t == s) ≡ false
==_sym s t h = ground (arith, eq_iff s t, eq_iff t s)

pub Distinct-concat :
    (q : List SlackPresence) (p : SlackPresence)
    → Distinct q
    → Absent p.user_id q
    → Distinct (q ++ p ∷ [])
Distinct-concat [] p d a = (tt, tt)
Distinct-concat (x ∷ q) p (ax, d) (a, as') =
    (All-append _ q (p ∷ []) ax (==_sym x.user_id p.user_id a, tt), Distinct-concat q p d as')

pub enqueue_user-IsValid :
    (p : SlackPresence) (h : PresenceHandler) → IsValid h → IsValid (enqueue_user p h)
unfolding enqueue_user
enqueue_user-IsValid p h v = elim (Bool-cases (is_bot h.bot_slack_user_id p.user_id)) [
  | inl e ↦ rw e v
  | inr e ↦ rw e (record {
    distinct =
        Distinct-concat (others p.user_id h.queue) p (others-Distinct p.user_id h.queue v.distinct)
          (others-Absent p.user_id h.queue);
    no_bot =
        All-append _ (others p.user_id h.queue) (p ∷ []) (others-All _ p.user_id h.queue v.no_bot)
          (e, tt);
  })
]

dequeue_user-IsValid : (u : String) (h : PresenceHandler) → IsValid h → IsValid (dequeue_user u h).0
unfolding dequeue_user
dequeue_user-IsValid u h v = record {
  distinct = others-Distinct u h.queue v.distinct;
  no_bot = others-All _ u h.queue v.no_bot;
}

pub requeue-IsValid :
    (p : SlackPresence) (d : PresenceDecision) (h : PresenceHandler)
    → IsValid h
    → IsValid (requeue p d h)
unfolding requeue
requeue-IsValid p d h v = elim (Bool-cases (not d.should_drop)) [
  | inl e ↦ rw e (enqueue_user-IsValid p h v)
  | inr e ↦ rw e v
]

pub pop_front-IsValid :
    (h h' : PresenceHandler) (p : SlackPresence)
    → pop_front h ≡ some (p, h')
    → IsValid h
    → IsValid h' × Absent p.user_id h'.queue × (is_bot h'.bot_slack_user_id p.user_id ≡ false)
unfolding pop_front
pop_front-IsValid h h' p e v = go h.queue v.distinct v.no_bot e
  where
    go :
        (q : List SlackPresence)
        → Distinct q
        → All (λ x. is_bot h.bot_slack_user_id x.user_id ≡ false) q
        → popped h q ≡ some (p, h')
        → IsValid h' × Absent p.user_id h'.queue × (is_bot h'.bot_slack_user_id p.user_id ≡ false)
    go [] d b e = cc
    go (x ∷ q) (a, d) (b, bs) e =
        subst
          (λ (r : SlackPresence × PresenceHandler).
            IsValid r.1
            × Absent r.0.user_id r.1.queue
            × (is_bot r.1.bot_slack_user_id r.0.user_id ≡ false))
          (some-injective _ _ e) (record { distinct = d; no_bot = bs }, a, b)

-- One atomic part of a call, by any task: between a presence's removal by `process_next` and its
-- return to the queue any other parts may come.
pub data Step (h : PresenceHandler) : PresenceHandler → Type 0 where
  enqueued : (p : SlackPresence) → Step h (enqueue_user p h)
  dequeued : (u : String) → Step h (dequeue_user u h).0
  taken : (p : SlackPresence) (h' : PresenceHandler) → pop_front h ≡ some (p, h') → Step h h'
  requeued : (p : SlackPresence) (d : PresenceDecision) → Step h (requeue p d h)

pub data Reach (bot : Option String) : PresenceHandler → Type 0 where
  start : Reach bot (new bot)
  next : {h h' : PresenceHandler} → Reach bot h → Step h h' → Reach bot h'

Step-IsValid : {h h' : PresenceHandler} → Step h h' → IsValid h → IsValid h'
Step-IsValid {h} (enqueued p) v = enqueue_user-IsValid p h v
Step-IsValid {h} (dequeued u) v = dequeue_user-IsValid u h v
Step-IsValid {h} (taken p h' e) v = (pop_front-IsValid h h' p e v).0
Step-IsValid {h} (requeued p d) v = requeue-IsValid p d h v

-- In every state that calls of the presence handler reach, also between the parts of process_next,
-- no user is queued twice and the bot is not queued.
pub Reach-IsValid : {bot : Option String} {h : PresenceHandler} → Reach bot h → IsValid h
unfolding new
Reach-IsValid start = record { distinct = tt; no_bot = tt }
Reach-IsValid (next r s) = Step-IsValid s (Reach-IsValid r)

others-append :
    (u : String) (q r : List SlackPresence) → others u (q ++ r) ≡ others u q ++ others u r
unfolding others
others-append u [] r = refl
others-append u (p ∷ q) r = elim (Bool-cases (p.user_id == u)) [
  | inl e ↦ rw e (others-append u q r)
  | inr e ↦ rw e (rw (others-append u q r))
]

others_self : (p : SlackPresence) (u : String) → p.user_id ≡ u → others u (p ∷ []) ≡ []
unfolding others
others_self p u e = ground (arith, eq_iff p.user_id u)

others-concat_self :
    (u : String) (q : List SlackPresence) (p : SlackPresence)
    → p.user_id ≡ u
    → others u (others u q ++ p ∷ []) ≡ others u q
others-concat_self u q p e = rw others-append (
    rw (others_of_Absent u (others u q) (others-Absent u q))
      (rw (others_self p u e) (append-nil _)))

-- Where a presence that is being sent is not dropped and its user is not the bot, a newer presence
-- that the same user gives meanwhile is no longer queued afterwards: the older one is queued last
-- in its place.
pub requeue-enqueue_user :
    (older newer : SlackPresence) (d : PresenceDecision) (h : PresenceHandler)
    → newer.user_id ≡ older.user_id
    → d.should_drop ≡ false
    → is_bot h.bot_slack_user_id older.user_id ≡ false
    → (requeue older d (enqueue_user newer h)).queue ≡ others older.user_id h.queue ++ older ∷ []
unfolding requeue enqueue_user
requeue-enqueue_user older newer d h same kept nb =
    ground (arith, others-concat_self older.user_id h.queue newer same)
