-- ===== src/Queue.antt =====
-- bridge/queue.rs: tasks that are spawned for a channel and run under the channel's mutex.
pub mod Exclusion
pub mod Owned
pub mod Steps
pub mod Progress
use matrix_bridge_slack.Prelude.{
  ℕ, zero, suc, String, Bool, true, false, Option, none, some, List, [], ◌∷◌, ◌++◌, eqb,
  if◌then◌else◌,
}
use matrix_bridge_slack.Prelude.Assoc.{string_eq, lookup, insert}

-- a spawned task: before `mutex.lock().await` returns, with the guard, and after the guard is dropped
pub data Phase : Type 0 where
  waiting running finished : Phase

-- `mutex` is the address that its `Arc` points to; `work` is how often the future that it runs is
-- still pending before it is ready
pub record Task : Type 0 where
  pub channel_id : String
  pub mutex : ℕ
  pub work : ℕ
  pub phase : Phase

-- `queues`; the heap, with the address of the next mutex and the mutexes that are locked; and the
-- tasks in the order in which they were spawned
pub record ChannelQueue : Type 0 where
  pub queues : List (String × ℕ)
  pub next_mutex : ℕ
  pub held : ℕ → Bool
  pub tasks : List Task

unfoldable pub new : ChannelQueue
new = record { queues = []; next_mutex = 0; held = λ _. false; tasks = [] }

abbrev pub hold : ℕ → Bool → (ℕ → Bool) → ℕ → Bool
hold mutex b held m = if eqb mutex m then b else held m

-- `.entry(channel_id).or_insert_with(|| Arc::new(Mutex::new(()))).clone()`: the entry's mutex, or a new
-- one, which nobody holds, that the map has from now on
abbrev pub or_insert_with : String → Option ℕ → ChannelQueue → ℕ × ChannelQueue
or_insert_with channel_id (some mutex) q = (mutex, q)
or_insert_with channel_id none q = (
  q.next_mutex,
  record q {
    queues = insert channel_id q.next_mutex q.queues;
    next_mutex = suc q.next_mutex;
    held = hold q.next_mutex false q.held;
  },
)

abbrev pub spawn_task : String → ℕ → ℕ × ChannelQueue → ChannelQueue
spawn_task channel_id work (mutex, q) = record q {
  tasks =
      q.tasks
      ++ record { channel_id = channel_id; mutex = mutex; work = work; phase = waiting } ∷ [];
}

-- `enqueue` and `enqueue_fut`, under the lock of `queues`
unfoldable pub enqueue : String → ℕ → ChannelQueue → ChannelQueue
unfolding lookup insert
enqueue channel_id work q =
    spawn_task channel_id work (or_insert_with channel_id (lookup channel_id q.queues) q)

-- `mutex.lock().await` returns where nobody holds the mutex
abbrev pub lock_task : (ℕ → Bool) → Task → Phase → Option Task
lock_task held t waiting = if held t.mutex then none else some (record t { phase = running })
lock_task held t running = none
lock_task held t finished = none

-- a poll of the future that leaves it pending
abbrev pub poll_task : Task → Phase → ℕ → Option Task
poll_task t running (suc work) = some (record t { work = work })
poll_task t running zero = none
poll_task t waiting work = none
poll_task t finished work = none

-- the poll at which it is ready, after which `_guard` is dropped
abbrev pub end_task : Task → Phase → ℕ → Option Task
end_task t running zero = some (record t { phase = finished })
end_task t running (suc work) = none
end_task t waiting work = none
end_task t finished work = none

abbrev pub put_first : List Task → Option Task → Option (ℕ × List Task)
put_first ts none = none
put_first ts (some t) = some (t.mutex, t ∷ ts)

abbrev pub keep_first : Task → Option (ℕ × List Task) → Option (ℕ × List Task)
keep_first t none = none
keep_first t (some (m, ts)) = some (m, t ∷ ts)

-- a change of the k-th task, with its mutex
unfoldable pub at_task : (Task → Option Task) → ℕ → List Task → Option (ℕ × List Task)
at_task f k [] = none
at_task f zero (t ∷ ts) = put_first ts (f t)
at_task f (suc k) (t ∷ ts) = keep_first t (at_task f k ts)

-- the tasks after a change, and the mutex of the one that changed
abbrev pub with_tasks :
    ChannelQueue → (ℕ → (ℕ → Bool) → ℕ → Bool) → Option (ℕ × List Task) → Option ChannelQueue
with_tasks q f none = none
with_tasks q f (some (m, ts)) = some (record q { tasks = ts; held = f m q.held })

abbrev pub locked : (ℕ → Bool) → Task → Option Task
locked held t = lock_task held t t.phase

abbrev pub polled : Task → Option Task
polled t = poll_task t t.phase t.work

abbrev pub ended : Task → Option Task
ended t = end_task t t.phase t.work

abbrev pub taken : ℕ → (ℕ → Bool) → ℕ → Bool
taken m held = hold m true held

abbrev pub dropped : ℕ → (ℕ → Bool) → ℕ → Bool
dropped m held = hold m false held

abbrev pub same_locks : ℕ → (ℕ → Bool) → ℕ → Bool
same_locks m held = held

unfoldable pub acquire : ℕ → ChannelQueue → Option ChannelQueue
acquire k q = with_tasks q taken (at_task (locked q.held) k q.tasks)

unfoldable pub advance : ℕ → ChannelQueue → Option ChannelQueue
advance k q = with_tasks q same_locks (at_task polled k q.tasks)

unfoldable pub release : ℕ → ChannelQueue → Option ChannelQueue
release k q = with_tasks q dropped (at_task ended k q.tasks)
