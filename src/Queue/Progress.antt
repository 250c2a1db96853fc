-- ===== src/Queue/Progress.antt =====
-- How far the tasks of the queue are from their ends.
use mathlib.Core.Option.{some-injective}
use matrix_bridge_slack.Prelude.{
  Bool-cases, ◌⊎◌, inl, inr, ℕ, zero, suc, ◌+◌, ◌≡◌, refl, sym, ap, subst, ◌∙◌, Bool, true, false,
  Option, Option-cases, none, some, List, [], ◌∷◌, All, eqb, arith,
}
use matrix_bridge_slack.Queue.{
  Phase, waiting, running, finished, Task, ChannelQueue, lock_task, poll_task, end_task, put_first,
  keep_first, at_task, with_tasks, locked, polled, ended, taken, dropped, same_locks, acquire,
  advance, release,
}
use matrix_bridge_slack.Queue.Exclusion.{runs, running_where, running_on, as_number, IsExclusive}
use matrix_bridge_slack.Queue.Steps.{Move, gets, pends, ends, move, Reach, step, Reach-Valid}

-- one step for the mutex, one for each poll that is pending, and one for the end
abbrev pub steps_in : Phase → ℕ → ℕ
steps_in waiting work = work + 2
steps_in running work = work + 1
steps_in finished work = 0

-- the steps that the tasks have left
unfoldable pub steps_left : List Task → ℕ
steps_left [] = 0
steps_left (t ∷ ts) = steps_in t.phase t.work + steps_left ts

abbrev pub HasFinished : Task → Type 0
HasFinished t = t.phase ≡ finished

-- a number of steps of the tasks, in any order, and no new task
pub data Moves (q : ChannelQueue) : ℕ → ChannelQueue → Type 0 where
  stay : Moves q 0 q
  then_move : {n : ℕ} {r s : ChannelQueue} → Moves q n r → Move r s → Moves q (suc n) s

abbrev Spends : Task → Task → Type 0
Spends t u = suc (steps_in u.phase u.work) ≡ steps_in t.phase t.work

lock_task-Spends :
    (held : ℕ → Bool) (t u : Task) (phase : Phase)
    → t.phase ≡ phase
    → lock_task held t phase ≡ some u
    → Spends t u
lock_task-Spends held t u waiting w e = elim (Bool-cases (held t.mutex)) [
  | inl b ↦ absurd (ground (arith, rw b at e))
  | inr b ↦
      subst (Spends t) (some-injective (record t { phase = running }) u (rw b at e))
        (rw w (omega arith))
]
lock_task-Spends held t u running w e = absurd (ground (arith, e))
lock_task-Spends held t u finished w e = absurd (ground (arith, e))

poll_task-Spends :
    (t u : Task) (phase : Phase) (work : ℕ)
    → t.phase ≡ phase
    → t.work ≡ work
    → poll_task t phase work ≡ some u
    → Spends t u
poll_task-Spends t u running (suc work) w k e =
    subst (Spends t) (some-injective (record t { work = work }) u e) (rw w (rw k (omega arith)))
poll_task-Spends t u running zero w k e = absurd (ground (arith, e))
poll_task-Spends t u waiting work w k e = absurd (ground (arith, e))
poll_task-Spends t u finished work w k e = absurd (ground (arith, e))

end_task-Spends :
    (t u : Task) (phase : Phase) (work : ℕ)
    → t.phase ≡ phase
    → t.work ≡ work
    → end_task t phase work ≡ some u
    → Spends t u
end_task-Spends t u running zero w k e =
    subst (Spends t) (some-injective (record t { phase = finished }) u e)
      (rw w (rw k (omega arith)))
end_task-Spends t u running (suc work) w k e = absurd (ground (arith, e))
end_task-Spends t u waiting work w k e = absurd (ground (arith, e))
end_task-Spends t u finished work w k e = absurd (ground (arith, e))

module _ (f : Task → Option Task) (spends : (t u : Task) → f t ≡ some u → Spends t u) where
  first_left :
      (t : Task) (ts : List Task) (o : Option Task) (x : ℕ × List Task)
      → f t ≡ o
      → put_first ts o ≡ some x
      → suc (steps_left x.1) ≡ steps_left (t ∷ ts)
  unfolding steps_left
  first_left t ts none x w e = absurd (ground (arith, e))
  first_left t ts (some u) x w e =
      subst (λ y. suc (steps_left y.1) ≡ steps_left (t ∷ ts)) (some-injective (u.mutex, u ∷ ts) x e)
        (omega (arith, spends t u w))

  later_left :
      (t : Task) (ts : List Task) (o : Option (ℕ × List Task)) (x : ℕ × List Task)
      → ((y : ℕ × List Task) → o ≡ some y → suc (steps_left y.1) ≡ steps_left ts)
      → keep_first t o ≡ some x
      → suc (steps_left x.1) ≡ steps_left (t ∷ ts)
  unfolding steps_left
  later_left t ts none x h e = absurd (ground (arith, e))
  later_left t ts (some y) x h e =
      subst (λ z. suc (steps_left z.1) ≡ steps_left (t ∷ ts)) (some-injective (y.0, t ∷ y.1) x e)
        (omega (arith, h y refl))

  steps_left-at_task :
      (k : ℕ) (ts : List Task) (x : ℕ × List Task)
      → at_task f k ts ≡ some x
      → suc (steps_left x.1) ≡ steps_left ts
  unfolding at_task
  steps_left-at_task k [] x e = absurd (ground (arith, e))
  steps_left-at_task zero (t ∷ ts) x e = first_left t ts (f t) x refl e
  steps_left-at_task (suc k) (t ∷ ts) x e =
      later_left t ts (at_task f k ts) x (λ y w. steps_left-at_task k ts y w) e

  with_tasks_left :
      (k : ℕ) (q r : ChannelQueue) (g : ℕ → (ℕ → Bool) → ℕ → Bool) (o : Option (ℕ × List Task))
      → at_task f k q.tasks ≡ o
      → with_tasks q g o ≡ some r
      → suc (steps_left r.tasks) ≡ steps_left q.tasks
  with_tasks_left k q r g none w e = absurd (ground (arith, e))
  with_tasks_left k q r g (some x) w e =
      let s : ChannelQueue = record q { tasks = x.1; held = g x.0 q.held } in
      subst (λ r. suc (steps_left r.tasks) ≡ steps_left q.tasks) (some-injective s r e)
        (steps_left-at_task k q.tasks x w)

steps_left-Move : (q r : ChannelQueue) → Move q r → suc (steps_left r.tasks) ≡ steps_left q.tasks
unfolding acquire advance release
steps_left-Move q r (gets k e) =
    with_tasks_left (locked q.held) (λ t u. lock_task-Spends q.held t u t.phase refl) k q r taken
      (at_task (locked q.held) k q.tasks) refl e
steps_left-Move q r (pends k e) =
    with_tasks_left polled (λ t u. poll_task-Spends t u t.phase t.work refl refl) k q r same_locks
      (at_task polled k q.tasks) refl e
steps_left-Move q r (ends k e) =
    with_tasks_left ended (λ t u. end_task-Spends t u t.phase t.work refl refl) k q r dropped
      (at_task ended k q.tasks) refl e

-- a task that a change applies to, or the change applies to none
find_task :
    (f : Task → Option Task) (ts : List Task)
    → ((k : ℕ) × ((x : ℕ × List Task) × (at_task f k ts ≡ some x))) ⊎ All (λ t. f t ≡ none) ts
unfolding at_task
find_task f [] = inr tt
find_task f (t ∷ ts) = elim (Option-cases (f t)) [
  | inr (u, e) ↦ inl (0, ((u.mutex, u ∷ ts), rw e refl))
  | inl e ↦ elim (find_task f ts) [
    | inl (k, (x, w)) ↦ inl (suc k, ((x.0, t ∷ x.1), rw w refl))
    | inr all ↦ inr (e, all)
  ]
]

not_running :
    (t : Task) (phase : Phase) (work : ℕ)
    → poll_task t phase work ≡ none
    → end_task t phase work ≡ none
    → (b : Bool) → runs b phase ≡ 0
not_running t waiting work p e b = refl
not_running t running zero p e b = absurd (ground (arith, e))
not_running t running (suc work) p e b = absurd (ground (arith, p))
not_running t finished work p e b = refl

-- no task runs where none can be polled
none_running :
    (m : ℕ) (ts : List Task)
    → All (λ t. polled t ≡ none) ts
    → All (λ t. ended t ≡ none) ts
    → running_on m ts ≡ 0
unfolding running_where
none_running m [] p e = refl
none_running m (t ∷ ts) (p, ps) (e, es) =
    omega (arith, not_running t t.phase t.work p e (eqb t.mutex m), none_running m ts ps es)

stuck_task :
    (held : ℕ → Bool) (t : Task) (phase : Phase) (work : ℕ)
    → held t.mutex ≡ false
    → lock_task held t phase ≡ none
    → poll_task t phase work ≡ none
    → end_task t phase work ≡ none
    → phase ≡ finished
stuck_task held t waiting work free l p e = absurd (ground (arith, rw free at l))
stuck_task held t running zero free l p e = absurd (ground (arith, e))
stuck_task held t running (suc work) free l p e = absurd (ground (arith, p))
stuck_task held t finished work free l p e = refl

All-finished :
    (held : ℕ → Bool) (ts : List Task)
    → ((m : ℕ) → held m ≡ false)
    → All (λ t. locked held t ≡ none) ts
    → All (λ t. polled t ≡ none) ts
    → All (λ t. ended t ≡ none) ts
    → All HasFinished ts
All-finished held [] free l p e = tt
All-finished held (t ∷ ts) free (l, ls) (p, ps) (e, es) =
    (stuck_task held t t.phase t.work (free t.mutex) l p e, All-finished held ts free ls ps es)

free_lock : (b : Bool) → 0 ≡ as_number b → b ≡ false
free_lock true e = absurd (ground (arith, e))
free_lock false e = refl

finished_or_moves :
    (q : ChannelQueue) → IsExclusive q → All HasFinished q.tasks ⊎ ((r : ChannelQueue) × Move q r)
unfolding acquire advance release
finished_or_moves q x = elim (find_task polled q.tasks) [
  | inl (k, (y, e)) ↦ inr (_, pends k (ap (with_tasks q same_locks) e))
  | inr p ↦ elim (find_task ended q.tasks) [
    | inl (k, (y, e)) ↦ inr (_, ends k (ap (with_tasks q dropped) e))
    | inr n ↦ elim (find_task (locked q.held) q.tasks) [
      | inl (k, (y, e)) ↦ inr (_, gets k (ap (with_tasks q taken) e))
      | inr l ↦ inl (
          All-finished q.held q.tasks
            (λ m. free_lock (q.held m) (sym (none_running m q.tasks p n) ∙ x m)) l p n)
    ]
  ]
]

Moves-Reach : (q : ChannelQueue) {n : ℕ} (r : ChannelQueue) → Reach q → Moves q n r → Reach r
Moves-Reach q r h stay = h
Moves-Reach q s h (then_move {r = r} ms m) = step (Moves-Reach q r h ms) (move s m)

steps_left-Moves :
    (q : ChannelQueue) {n : ℕ} (r : ChannelQueue)
    → Moves q n r
    → n + steps_left r.tasks ≡ steps_left q.tasks
steps_left-Moves q r stay = omega arith
steps_left-Moves q s (then_move {n = n} {r = r} ms m) =
    omega (arith, steps_left-Moves q r ms, steps_left-Move r s m)

-- From a state that the queue reaches, whatever steps its tasks make and in whatever order,
-- without a new task: the steps made and the steps left add up to the steps that were left at
-- first (of each task one to get its mutex, one for each pending poll, and one to end), and either
-- all tasks have ended or one of them can make a step. So there is no deadlock, and no order of
-- the steps goes on for ever.
pub Reach-progress :
    (q r : ChannelQueue) (n : ℕ)
    → Reach q
    → Moves q n r
    → (n + steps_left r.tasks ≡ steps_left q.tasks)
      × (All HasFinished r.tasks ⊎ ((s : ChannelQueue) × Move r s))
Reach-progress q r n h ms =
    (steps_left-Moves q r ms, finished_or_moves r (Reach-Valid r (Moves-Reach q r h ms)).0)
