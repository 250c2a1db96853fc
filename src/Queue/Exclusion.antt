-- ===== src/Queue/Exclusion.antt =====
-- The tasks that run, and the mutexes that are locked.
use mathlib.Core.Option.{some-injective}
use matrix_bridge_slack.Prelude.{
  Bool-cases, inl, inr, ℕ, zero, suc, ◌+◌, ◌<◌, ◌≡◌, refl, ap, subst, ◌∙◌, Bool, true, false,
  Option, none, some, List, [], ◌∷◌, ◌++◌, All, eqb, eqb_iff, if◌then◌else◌, arith,
}
use matrix_bridge_slack.Queue.{
  Phase, waiting, running, finished, Task, ChannelQueue, hold, lock_task, poll_task, end_task,
  put_first, keep_first, at_task, with_tasks, locked, polled, ended, taken, dropped, same_locks,
  acquire, advance, release,
}

-- 1 for a task that runs and passes a test, and 0 for any other
abbrev pub runs : Bool → Phase → ℕ
runs b waiting = 0
runs b running = if b then 1 else 0
runs b finished = 0

-- how many tasks that pass a test run
unfoldable pub running_where : (Task → Bool) → List Task → ℕ
running_where p [] = 0
running_where p (t ∷ ts) = runs (p t) t.phase + running_where p ts

abbrev pub on_mutex : ℕ → Task → Bool
on_mutex m t = eqb t.mutex m

-- how many tasks run under a mutex
abbrev pub running_on : ℕ → List Task → ℕ
running_on m ts = running_where (on_mutex m) ts

abbrev pub as_number : Bool → ℕ
as_number b = if b then 1 else 0

-- a mutex is locked exactly while one task runs under it
abbrev pub IsExclusive : ChannelQueue → Type 0
IsExclusive q = (m : ℕ) → running_on m q.tasks ≡ as_number (q.held m)

pub running_where-append_one :
    (p : Task → Bool) (ts : List Task) (t : Task)
    → t.phase ≡ waiting
    → running_where p (ts ++ t ∷ []) ≡ running_where p ts
unfolding running_where
running_where-append_one p [] t e = ap (λ x. runs (p t) x + 0) e
running_where-append_one p (u ∷ ts) t e = omega (arith, running_where-append_one p ts t e)

-- nothing runs under a mutex that no task has
pub running_on-fresh : (n : ℕ) (ts : List Task) → All (λ t. t.mutex < n) ts → running_on n ts ≡ 0
unfolding running_where
running_on-fresh n [] h = refl
running_on-fresh n (t ∷ ts) (h, hs) =
    let apart : eqb t.mutex n ≡ false = ground (arith, h) in
    ap (λ b. runs b t.phase + running_on n ts) apart
    ∙ runs_false t.phase (running_on n ts)
    ∙ running_on-fresh n ts hs
  where
    runs_false : (phase : Phase) (k : ℕ) → runs false phase + k ≡ k
    runs_false waiting k = omega arith
    runs_false running k = omega arith
    runs_false finished k = omega arith

-- a change of one task, and how many run afterwards: `p` fewer and `q` more under its mutex
module _ (f : Task → Option Task) (G : ℕ → Type 0) (p q : ℕ) where
  abbrev Changed : List Task → ℕ × List Task → Type 0
  Changed ts x =
      G x.0
      × ((m : ℕ)
          → running_on m x.1 + (if eqb x.0 m then p else 0)
            ≡ running_on m ts + (if eqb x.0 m then q else 0))

  abbrev One : Task → Task → Type 0
  One t u =
      G u.mutex
      × ((m : ℕ)
          → runs (eqb u.mutex m) u.phase + (if eqb u.mutex m then p else 0)
            ≡ runs (eqb t.mutex m) t.phase + (if eqb u.mutex m then q else 0))

  module _ (one : (t u : Task) → f t ≡ some u → One t u) where
    put_first-Changed :
        (t : Task) (ts : List Task) (o : Option Task) (x : ℕ × List Task)
        → f t ≡ o
        → put_first ts o ≡ some x
        → Changed (t ∷ ts) x
    unfolding running_where
    put_first-Changed t ts none x h e = absurd (ground (arith, e))
    put_first-Changed t ts (some u) x h e =
        let (g, b) = one t u h in
        subst (Changed (t ∷ ts)) (some-injective (u.mutex, u ∷ ts) x e) (g, λ m. omega (arith, b m))

    keep_first-Changed :
        (t : Task) (ts : List Task) (o : Option (ℕ × List Task)) (x : ℕ × List Task)
        → ((y : ℕ × List Task) → o ≡ some y → Changed ts y)
        → keep_first t o ≡ some x
        → Changed (t ∷ ts) x
    unfolding running_where
    keep_first-Changed t ts none x h e = absurd (ground (arith, e))
    keep_first-Changed t ts (some (n, us)) x h e =
        let (g, b) = h (n, us) refl in
        subst (Changed (t ∷ ts)) (some-injective (n, t ∷ us) x e) (g, λ m. omega (arith, b m))

    at_task-Changed :
        (k : ℕ) (ts : List Task) (x : ℕ × List Task) → at_task f k ts ≡ some x → Changed ts x
    unfolding at_task
    at_task-Changed k [] x e = absurd (ground (arith, e))
    at_task-Changed zero (t ∷ ts) x e = put_first-Changed t ts (f t) x refl e
    at_task-Changed (suc k) (t ∷ ts) x e =
        keep_first-Changed t ts (at_task f k ts) x (at_task-Changed k ts) e

-- a task that gets its mutex, which was free
lock_task-One :
    (held : ℕ → Bool) (t u : Task) (phase : Phase)
    → t.phase ≡ phase
    → lock_task held t phase ≡ some u
    → One (locked held) (λ m. held m ≡ false) 0 1 t u
lock_task-One held t u waiting w e = elim (Bool-cases (held t.mutex)) [
  | inl h ↦ absurd (ground (arith, rw h at e))
  | inr h ↦
      subst (One (locked held) (λ m. held m ≡ false) 0 1 t)
        (some-injective (record t { phase = running }) u (rw h at e)) (h, λ m. rw w (ground arith))
]
lock_task-One held t u running w e = absurd (ground (arith, e))
lock_task-One held t u finished w e = absurd (ground (arith, e))

poll_task-One :
    (t u : Task) (phase : Phase) (work : ℕ)
    → t.phase ≡ phase
    → poll_task t phase work ≡ some u
    → One polled (λ _. Unit) 0 0 t u
poll_task-One t u running (suc work) w e =
    subst (One polled (λ _. Unit) 0 0 t) (some-injective (record t { work = work }) u e)
      (tt, λ m. refl)
poll_task-One t u running zero w e = absurd (ground (arith, e))
poll_task-One t u waiting work w e = absurd (ground (arith, e))
poll_task-One t u finished work w e = absurd (ground (arith, e))

-- a task that ends
end_task-One :
    (t u : Task) (phase : Phase) (work : ℕ)
    → t.phase ≡ phase
    → end_task t phase work ≡ some u
    → One ended (λ _. Unit) 1 0 t u
end_task-One t u running zero w e =
    subst (One ended (λ _. Unit) 1 0 t) (some-injective (record t { phase = finished }) u e)
      (tt, λ m. rw w (ground arith))
end_task-One t u running (suc work) w e = absurd (ground (arith, e))
end_task-One t u waiting work w e = absurd (ground (arith, e))
end_task-One t u finished work w e = absurd (ground (arith, e))

-- the count under a mutex and its lock, after a task under `n` got it
count-taken :
    (held : ℕ → Bool) (n m : ℕ) (after before : ℕ)
    → held n ≡ false
    → before ≡ as_number (held m)
    → after + (if eqb n m then 0 else 0) ≡ before + (if eqb n m then 1 else 0)
    → after ≡ as_number (hold n true held m)
count-taken held n m after before free h e = elim (Bool-cases (eqb n m)) [
  | inl same ↦
      let freed : held m ≡ false = subst (λ x. held x ≡ false) ((eqb_iff n m).0 same) free in
      ground (arith, same, freed, h, e)
  | inr other ↦ ground (arith, other, h, e)
]

count-dropped :
    (held : ℕ → Bool) (n m : ℕ) (after before : ℕ)
    → before ≡ as_number (held m)
    → after + (if eqb n m then 1 else 0) ≡ before + (if eqb n m then 0 else 0)
    → after ≡ as_number (hold n false held m)
count-dropped held n m after before h e = elim (Bool-cases (eqb n m)) [
  | inl same ↦ elim (Bool-cases (held m)) [
    | inl b ↦ ground (arith, same, b, h, e)
    | inr b ↦ ground (arith, same, b, h, e)
  ]
  | inr other ↦ ground (arith, other, h, e)
]

-- one change of a task, whichever it is
with_tasks-IsExclusive :
    (q r : ChannelQueue) (g : ℕ → (ℕ → Bool) → ℕ → Bool) (o : Option (ℕ × List Task))
    → ((x : ℕ × List Task) → o ≡ some x → (m : ℕ) → running_on m x.1 ≡ as_number (g x.0 q.held m))
    → with_tasks q g o ≡ some r
    → IsExclusive r
with_tasks-IsExclusive q r g none h e = absurd (ground (arith, e))
with_tasks-IsExclusive q r g (some x) h e =
    let s : ChannelQueue = record q { tasks = x.1; held = g x.0 q.held } in
    subst IsExclusive (some-injective s r e) (h x refl)

module _ (k : ℕ) (q r : ChannelQueue) (h : IsExclusive q) where
  pub acquire-IsExclusive : acquire k q ≡ some r → IsExclusive r
  unfolding acquire
  acquire-IsExclusive e =
      with_tasks-IsExclusive q r taken (at_task (locked q.held) k q.tasks)
        (λ x e m.
          let (free, balance) =
            at_task-Changed (locked q.held) (λ m. q.held m ≡ false) 0 1
              (λ t u. lock_task-One q.held t u t.phase refl) k q.tasks x e in
          count-taken q.held x.0 m (running_on m x.1) (running_on m q.tasks) free (h m) (balance m))
        e

  pub advance-IsExclusive : advance k q ≡ some r → IsExclusive r
  unfolding advance
  advance-IsExclusive e =
      with_tasks-IsExclusive q r same_locks (at_task polled k q.tasks)
        (λ x e m.
          let (_, balance) =
            at_task-Changed polled (λ _. Unit) 0 0 (λ t u. poll_task-One t u t.phase t.work refl) k
              q.tasks x e in
          ground (arith, h m, balance m))
        e

  pub release-IsExclusive : release k q ≡ some r → IsExclusive r
  unfolding release
  release-IsExclusive e =
      with_tasks-IsExclusive q r dropped (at_task ended k q.tasks)
        (λ x e m.
          let (_, balance) =
            at_task-Changed ended (λ _. Unit) 1 0 (λ t u. end_task-One t u t.phase t.work refl) k
              q.tasks x e in
          count-dropped q.held x.0 m (running_on m x.1) (running_on m q.tasks) (h m) (balance m))
        e
