-- ===== src/Queue/Owned.antt =====
-- The map from channels to mutexes and the mutexes of the tasks, before and after a change.
use mathlib.Core.Option.{some-injective}
use matrix_bridge_slack.Prelude.{
  ◌⊎◌, eq_refl, Bool-cases, inl, inr, ℕ, zero, suc, ◌<◌, ◌≡◌, refl, sym, subst, ◌∙◌, String, Bool,
  true, false, Option, none, some, List, [], ◌∷◌, All, All-append, ◌==◌, eq_iff, eqb, eqb_iff,
  arith,
}
use matrix_bridge_slack.Prelude.Assoc.{string_eq, lookup, insert, lookup-insert}
use matrix_bridge_slack.Queue.{
  Phase, waiting, running, finished, Task, ChannelQueue, hold, or_insert_with, spawn_task,
  lock_task, poll_task, end_task, put_first, keep_first, at_task, with_tasks,
}
use matrix_bridge_slack.Queue.Exclusion.{
  running_on, as_number, IsExclusive, running_where-append_one, running_on-fresh,
}

-- a task has the mutex of its channel
abbrev pub HasMutex : List (String × ℕ) → Task → Type 0
HasMutex queues t = lookup t.channel_id queues ≡ some t.mutex

-- two channels have different mutexes, all of them made before the next
abbrev pub Separate : List (String × ℕ) → ℕ → Type 0
Separate queues next =
    ((c d : String) (m : ℕ) → lookup c queues ≡ some m → lookup d queues ≡ some m → c ≡ d)
    × ((c : String) (m : ℕ) → lookup c queues ≡ some m → m < next)

abbrev pub IsValid : ChannelQueue → Type 0
IsValid q = IsExclusive q × (All (HasMutex q.queues) q.tasks × Separate q.queues q.next_mutex)

-- an entry for a channel that has none
module _ (channel_id : String) (queues : List (String × ℕ)) (next : ℕ)
    (absent : lookup channel_id queues ≡ none) where
  HasMutex-insert :
      (ts : List Task)
      → All (HasMutex queues) ts
      → All (HasMutex (insert channel_id next queues)) ts
  HasMutex-insert [] h = tt
  HasMutex-insert (t ∷ ts) (h, hs) = (
    elim (Bool-cases (channel_id == t.channel_id)) [
      | inl same ↦ absurd (
          ground (
            arith,
            subst (λ c. lookup c queues ≡ none) ((eq_iff channel_id t.channel_id).0 same) absent,
            h,
          ))
      | inr other ↦ lookup-insert channel_id t.channel_id next queues ∙ rw other h
    ],
    HasMutex-insert ts hs,
  )

  -- what the map has for a channel afterwards
  of_insert :
      (c : String) (m : ℕ)
      → lookup c (insert channel_id next queues) ≡ some m
      → (((channel_id == c) ≡ true) × (m ≡ next)) ⊎ (lookup c queues ≡ some m)
  of_insert c m e = elim (Bool-cases (channel_id == c)) [
    | inl same ↦ inl (
      same,
      sym (some-injective next m (rw same at (sym (lookup-insert channel_id c next queues) ∙ e))),
    )
    | inr other ↦ inr (rw other at (sym (lookup-insert channel_id c next queues) ∙ e))
  ]

  Separate-insert : Separate queues next → Separate (insert channel_id next queues) (suc next)
  Separate-insert (apart, below) = (
    (λ c d m hc hd. elim (of_insert c m hc) [
      | inl (c_new, m_new) ↦ elim (of_insert d m hd) [
        | inl (d_new, _) ↦ sym ((eq_iff channel_id c).0 c_new) ∙ (eq_iff channel_id d).0 d_new
        | inr old ↦ absurd (omega (arith, below d m old, m_new))
      ]
      | inr old_c ↦ elim (of_insert d m hd) [
        | inl (_, m_new) ↦ absurd (omega (arith, below c m old_c, m_new))
        | inr old_d ↦ apart c d m old_c old_d
      ]
    ]),
    (λ c m h. elim (of_insert c m h) [
      | inl (_, m_new) ↦ omega (arith, m_new)
      | inr old ↦ omega (arith, below c m old)
    ]),
  )

below-All :
    (queues : List (String × ℕ)) (next : ℕ) (ts : List Task)
    → Separate queues next
    → All (HasMutex queues) ts
    → All (λ t. t.mutex < next) ts
below-All queues next [] s h = tt
below-All queues next (t ∷ ts) s (h, hs) =
    (s.1 t.channel_id t.mutex h, below-All queues next ts s hs)

-- a task that is spawned with the mutex of its channel
spawn_task-IsValid :
    (channel_id : String) (work m : ℕ) (q : ChannelQueue)
    → IsValid q
    → lookup channel_id q.queues ≡ some m
    → IsValid (spawn_task channel_id work (m, q))
spawn_task-IsValid channel_id work m q (x, (h, s)) e = (
  (λ n. running_where-append_one _ q.tasks _ refl ∙ x n),
  (All-append (HasMutex q.queues) q.tasks _ h (e, tt), s),
)

pub enqueued-IsValid :
    (channel_id : String) (work : ℕ) (q : ChannelQueue) (o : Option ℕ)
    → lookup channel_id q.queues ≡ o
    → IsValid q
    → IsValid (spawn_task channel_id work (or_insert_with channel_id o q))
enqueued-IsValid channel_id work q (some m) e v = spawn_task-IsValid channel_id work m q v e
enqueued-IsValid channel_id work q none e (x, (h, s)) =
    spawn_task-IsValid channel_id work q.next_mutex (or_insert_with channel_id none q).1
      (
        exclusive,
        (
          HasMutex-insert channel_id q.queues q.next_mutex e q.tasks h,
          Separate-insert channel_id q.queues q.next_mutex e s,
        ),
      )
      (lookup-insert channel_id channel_id q.next_mutex q.queues ∙ rw (eq_refl channel_id) refl)
  where
    exclusive : (m : ℕ) → running_on m q.tasks ≡ as_number (hold q.next_mutex false q.held m)
    exclusive m = elim (Bool-cases (eqb q.next_mutex m)) [
      | inl same ↦ rw same (
          subst (λ n. running_on n q.tasks ≡ 0) ((eqb_iff q.next_mutex m).0 same)
            (running_on-fresh q.next_mutex q.tasks (below-All q.queues q.next_mutex q.tasks s h)))
      | inr other ↦ rw other (x m)
    ]

-- a step of a task keeps its channel and its mutex
module _ (P : Task → Type 0) (f : Task → Option Task)
    (kept : (t u : Task) → f t ≡ some u → P t → P u) where
  at_first :
      (t : Task) (ts : List Task) (o : Option Task) (x : ℕ × List Task)
      → f t ≡ o
      → put_first ts o ≡ some x
      → P t
      → All P ts
      → All P x.1
  at_first t ts none x w e h hs = absurd (ground (arith, e))
  at_first t ts (some u) x w e h hs =
      subst (λ y. All P y.1) (some-injective (u.mutex, u ∷ ts) x e) (kept t u w h, hs)

  at_later :
      (t : Task) (o : Option (ℕ × List Task)) (x : ℕ × List Task)
      → ((y : ℕ × List Task) → o ≡ some y → All P y.1)
      → keep_first t o ≡ some x
      → P t
      → All P x.1
  at_later t none x k e h = absurd (ground (arith, e))
  at_later t (some y) x k e h =
      subst (λ y. All P y.1) (some-injective (y.0, t ∷ y.1) x e) (h, k y refl)

  All-at_task :
      (k : ℕ) (ts : List Task) (x : ℕ × List Task) → at_task f k ts ≡ some x → All P ts → All P x.1
  unfolding at_task
  All-at_task k [] x e h = absurd (ground (arith, e))
  All-at_task zero (t ∷ ts) x e (h, hs) = at_first t ts (f t) x refl e h hs
  All-at_task (suc k) (t ∷ ts) x e (h, hs) =
      at_later t (at_task f k ts) x (λ y w. All-at_task k ts y w hs) e h

  -- the map and the heap's next address are as they were
  pub with_tasks-Kept :
      (k : ℕ) (q r : ChannelQueue) (g : ℕ → (ℕ → Bool) → ℕ → Bool) (o : Option (ℕ × List Task))
      → at_task f k q.tasks ≡ o
      → with_tasks q g o ≡ some r
      → All P q.tasks
      → (q.queues ≡ r.queues) × ((q.next_mutex ≡ r.next_mutex) × All P r.tasks)
  with_tasks-Kept k q r g none w e h = absurd (ground (arith, e))
  with_tasks-Kept k q r g (some x) w e h =
      let s : ChannelQueue = record q { tasks = x.1; held = g x.0 q.held } in
      subst (λ r. (q.queues ≡ r.queues) × ((q.next_mutex ≡ r.next_mutex) × All P r.tasks))
        (some-injective s r e) (refl, (refl, All-at_task k q.tasks x w h))

module _ (queues : List (String × ℕ)) where
  pub lock_task-HasMutex :
      (held : ℕ → Bool) (t u : Task) (phase : Phase)
      → lock_task held t phase ≡ some u
      → HasMutex queues t
      → HasMutex queues u
  lock_task-HasMutex held t u waiting e h = elim (Bool-cases (held t.mutex)) [
    | inl b ↦ absurd (ground (arith, rw b at e))
    | inr b ↦
        subst (HasMutex queues) (some-injective (record t { phase = running }) u (rw b at e)) h
  ]
  lock_task-HasMutex held t u running e h = absurd (ground (arith, e))
  lock_task-HasMutex held t u finished e h = absurd (ground (arith, e))

  pub poll_task-HasMutex :
      (t u : Task) (phase : Phase) (work : ℕ)
      → poll_task t phase work ≡ some u
      → HasMutex queues t
      → HasMutex queues u
  poll_task-HasMutex t u running (suc work) e h =
      subst (HasMutex queues) (some-injective (record t { work = work }) u e) h
  poll_task-HasMutex t u running zero e h = absurd (ground (arith, e))
  poll_task-HasMutex t u waiting work e h = absurd (ground (arith, e))
  poll_task-HasMutex t u finished work e h = absurd (ground (arith, e))

  pub end_task-HasMutex :
      (t u : Task) (phase : Phase) (work : ℕ)
      → end_task t phase work ≡ some u
      → HasMutex queues t
      → HasMutex queues u
  end_task-HasMutex t u running zero e h =
      subst (HasMutex queues) (some-injective (record t { phase = finished }) u e) h
  end_task-HasMutex t u running (suc work) e h = absurd (ground (arith, e))
  end_task-HasMutex t u waiting work e h = absurd (ground (arith, e))
  end_task-HasMutex t u finished work e h = absurd (ground (arith, e))
