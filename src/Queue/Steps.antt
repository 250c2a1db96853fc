-- ===== src/Queue/Steps.antt =====
-- The steps of the queue, in any order: a task is spawned, gets its mutex, is polled, or ends.
use mathlib.Core.Option.{some-injective}
use matrix_bridge_slack.Prelude.{
  Bool-cases, inl, inr, ℕ, ◌+◌, ◌≡◌, refl, sym, ap, subst, ◌∙◌, String, Bool, false, Option, none,
  some, List, [], ◌∷◌, All, ◌==◌, eq_iff, eqb_iff, arith,
}
use matrix_bridge_slack.Prelude.Assoc.{string_eq, lookup}
use matrix_bridge_slack.Queue.{
  Phase, waiting, running, finished, Task, ChannelQueue, new, enqueue, at_task, locked, polled,
  ended, taken, dropped, same_locks, acquire, advance, release,
}
use matrix_bridge_slack.Queue.Exclusion.{
  runs, running_where, on_mutex, as_number, IsExclusive, acquire-IsExclusive, advance-IsExclusive,
  release-IsExclusive,
}
use matrix_bridge_slack.Queue.Owned.{
  HasMutex, Separate, IsValid, enqueued-IsValid, with_tasks-Kept, lock_task-HasMutex,
  poll_task-HasMutex, end_task-HasMutex,
}

-- a step of the k-th task: it gets its mutex, its future is pending, or its future is ready
pub data Move (q r : ChannelQueue) : Type 0 where
  gets : (k : ℕ) → acquire k q ≡ some r → Move q r
  pends : (k : ℕ) → advance k q ≡ some r → Move q r
  ends : (k : ℕ) → release k q ≡ some r → Move q r

pub data Step (q : ChannelQueue) : ChannelQueue → Type 0 where
  spawn : (channel_id : String) (work : ℕ) → Step q (enqueue channel_id work q)
  move : (r : ChannelQueue) → Move q r → Step q r

pub data Reach : ChannelQueue → Type 0 where
  begin : Reach new
  step : {q r : ChannelQueue} → Reach q → Step q r → Reach r

abbrev locked_in : (ℕ → Bool) → Option ℕ → Bool
locked_in held none = false
locked_in held (some m) = held m

-- whether the map has a mutex for a channel, and it is locked
unfoldable pub is_locked : String → ChannelQueue → Bool
is_locked channel_id q = locked_in q.held (lookup channel_id q.queues)

abbrev pub of_channel : String → Task → Bool
of_channel channel_id t = t.channel_id == channel_id

-- how many tasks of a channel run
abbrev pub running_in : String → List Task → ℕ
running_in channel_id ts = running_where (of_channel channel_id) ts

module _ (q r : ChannelQueue) (v : IsValid q) where
  -- with the map, the next address and the tasks' mutexes as they were
  kept-IsValid :
      IsExclusive r
      → (q.queues ≡ r.queues) × ((q.next_mutex ≡ r.next_mutex) × All (HasMutex q.queues) r.tasks)
      → IsValid r
  kept-IsValid x (map, (next, tasks)) = (
    x,
    (
      subst (λ m. All (HasMutex m) r.tasks) map tasks,
      subst (λ m. Separate m r.next_mutex) map (subst (λ n. Separate q.queues n) next v.1.1),
    ),
  )

  Move-IsValid : Move q r → IsValid r
  unfolding acquire advance release
  Move-IsValid (gets k e) = kept-IsValid (acquire-IsExclusive k q r v.0 e) (
      with_tasks-Kept (HasMutex q.queues) (locked q.held)
        (λ t u. lock_task-HasMutex q.queues q.held t u t.phase) k q r taken
        (at_task (locked q.held) k q.tasks) refl e v.1.0)
  Move-IsValid (pends k e) = kept-IsValid (advance-IsExclusive k q r v.0 e) (
      with_tasks-Kept (HasMutex q.queues) polled
        (λ t u. poll_task-HasMutex q.queues t u t.phase t.work) k q r same_locks
        (at_task polled k q.tasks) refl e v.1.0)
  Move-IsValid (ends k e) = kept-IsValid (release-IsExclusive k q r v.0 e) (
      with_tasks-Kept (HasMutex q.queues) ended
        (λ t u. end_task-HasMutex q.queues t u t.phase t.work) k q r dropped
        (at_task ended k q.tasks) refl e v.1.0)

enqueue-IsValid :
    (channel_id : String) (work : ℕ) (q : ChannelQueue)
    → IsValid q
    → IsValid (enqueue channel_id work q)
unfolding enqueue
enqueue-IsValid channel_id work q v =
    enqueued-IsValid channel_id work q (lookup channel_id q.queues) refl v

new-IsValid : IsValid new
unfolding new lookup running_where
new-IsValid = (
  (λ m. refl),
  (tt, ((λ c d m h. absurd (ground (arith, h))), (λ c m h. absurd (ground (arith, h))))),
)

pub Reach-Valid : (q : ChannelQueue) → Reach q → IsValid q
Reach-Valid q begin = new-IsValid
Reach-Valid q (step {q = p} h (spawn channel_id work)) =
    enqueue-IsValid channel_id work p (Reach-Valid p h)
Reach-Valid q (step {q = p} h (move r m)) = Move-IsValid p r (Reach-Valid p h) m

-- two tests that agree on the tasks count the same
running_where-All :
    (f g : Task → Bool) (ts : List Task)
    → All (λ t. f t ≡ g t) ts
    → running_where f ts ≡ running_where g ts
unfolding running_where
running_where-All f g [] h = refl
running_where-All f g (t ∷ ts) (h, hs) =
    ap (λ b. runs b t.phase + running_where f ts) h
    ∙ ap (λ n. runs (g t) t.phase + n) (running_where-All f g ts hs)

pub running_where-false : (ts : List Task) → running_where (λ _. false) ts ≡ 0
unfolding running_where
running_where-false [] = refl
running_where-false (t ∷ ts) = none_runs t.phase (running_where-false ts)
  where
    none_runs : (phase : Phase) {n : ℕ} → n ≡ 0 → runs false phase + n ≡ 0
    none_runs waiting e = omega (arith, e)
    none_runs running e = omega (arith, e)
    none_runs finished e = omega (arith, e)

module _ (channel_id : String) (queues : List (String × ℕ)) where
  no_task :
      (t : Task)
      → lookup channel_id queues ≡ none
      → HasMutex queues t
      → of_channel channel_id t ≡ false
  no_task t absent h = elim (Bool-cases (of_channel channel_id t)) [
    | inl same ↦ absurd (
        ground (
          arith,
          absent,
          subst (λ c. lookup c queues ≡ some t.mutex) ((eq_iff t.channel_id channel_id).0 same) h,
        ))
    | inr other ↦ other
  ]

  -- a task is the channel's where its mutex is
  same_mutex :
      (next m : ℕ) (t : Task)
      → Separate queues next
      → lookup channel_id queues ≡ some m
      → HasMutex queues t
      → of_channel channel_id t ≡ on_mutex m t
  same_mutex next m t s e h = elim (Bool-cases (of_channel channel_id t)) [
    | inl same ↦
        let h' : lookup channel_id queues ≡ some t.mutex =
          subst (λ c. lookup c queues ≡ some t.mutex) ((eq_iff t.channel_id channel_id).0 same) h in
        same ∙ sym ((eqb_iff t.mutex m).1 (some-injective t.mutex m (sym h' ∙ e)))
    | inr other ↦ elim (Bool-cases (on_mutex m t)) [
      | inl b ↦ absurd (
          ground (
            arith,
            other,
            (eq_iff t.channel_id channel_id).1
                (s.0 t.channel_id channel_id m (h ∙ ap some ((eqb_iff t.mutex m).0 b)) e),
          ))
      | inr b ↦ other ∙ sym b
    ]
  ]

All-weaken :
    (P Q : Task → Type 0) → ((t : Task) → P t → Q t) → (ts : List Task) → All P ts → All Q ts
All-weaken P Q f [] h = tt
All-weaken P Q f (t ∷ ts) (h, hs) = (f t h, All-weaken P Q f ts hs)

module _ (channel_id : String) (q : ChannelQueue) (v : IsValid q) where
  running_lem :
      (o : Option ℕ)
      → lookup channel_id q.queues ≡ o
      → running_in channel_id q.tasks ≡ as_number (locked_in q.held o)
  running_lem none e =
      running_where-All (of_channel channel_id) (λ _. false) q.tasks
        (All-weaken (HasMutex q.queues) _ (λ t. no_task channel_id q.queues t e) q.tasks v.1.0)
      ∙ running_where-false q.tasks
  running_lem (some m) e =
      running_where-All (of_channel channel_id) (on_mutex m) q.tasks (
        All-weaken (HasMutex q.queues) _
          (λ t. same_mutex channel_id q.queues q.next_mutex m t v.1.1 e) q.tasks v.1.0)
      ∙ v.0 m

-- In every state that the queue reaches, in any order in which tasks are spawned, get their
-- mutexes, are polled and end, the mutex that the map has for a channel is locked exactly while
-- one task of the channel runs; no two tasks of a channel run, and none runs of a channel that has
-- no mutex.
pub Reach-IsExclusive :
    (q : ChannelQueue)
    → Reach q
    → (channel_id : String) → running_in channel_id q.tasks ≡ as_number (is_locked channel_id q)
unfolding is_locked
Reach-IsExclusive q h channel_id =
    running_lem channel_id q (Reach-Valid q h) (lookup channel_id q.queues) refl
