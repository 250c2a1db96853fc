-- ===== src/Tests/Queues.antt =====
-- Two tasks of one channel, of which the later one runs first.
use matrix_bridge_slack.Prelude.{◌+◌, ◌≡◌, ◌⊎◌, ◌∷◌, [], refl, true, false, All}
use matrix_bridge_slack.Prelude.Assoc.{lookup, insert, without}
use matrix_bridge_slack.Queue.{
  waiting, running, finished, ChannelQueue, new, enqueue, hold, at_task, acquire, release,
}
use matrix_bridge_slack.Queue.Exclusion.{as_number}
use matrix_bridge_slack.Queue.Steps.{
  Move, gets, ends, spawn, move, Reach, begin, step, is_locked, running_in, Reach-IsExclusive,
}
use matrix_bridge_slack.Queue.Progress.{
  Moves, stay, then_move, HasFinished, steps_left, Reach-progress,
}

abbrev two : ChannelQueue
two = enqueue "C1" 0 (enqueue "C1" 3 new)

-- both tasks have the one mutex of the channel, and the second one has locked it
abbrev overtaken : ChannelQueue
overtaken = record {
  queues = ("C1", 0) ∷ [];
  next_mutex = 1;
  held = hold 0 true (hold 0 false (λ _. false));
  tasks =
      record { channel_id = "C1"; mutex = 0; work = 3; phase = waiting }
      ∷ record { channel_id = "C1"; mutex = 0; work = 0; phase = running }
      ∷ [];
}

-- the second task has ended
abbrev left_over : ChannelQueue
left_over = record {
  queues = ("C1", 0) ∷ [];
  next_mutex = 1;
  held = hold 0 false overtaken.held;
  tasks =
      record { channel_id = "C1"; mutex = 0; work = 3; phase = waiting }
      ∷ record { channel_id = "C1"; mutex = 0; work = 0; phase = finished }
      ∷ [];
}

overtaken_Reach : Reach overtaken
unfolding acquire at_task enqueue new lookup insert without
overtaken_Reach =
    step (step (step begin (spawn "C1" 3)) (spawn "C1" 0)) (move overtaken (gets 1 refl))

Reach-IsExclusive_example : running_in "C1" overtaken.tasks ≡ as_number (is_locked "C1" overtaken)
Reach-IsExclusive_example = Reach-IsExclusive overtaken overtaken_Reach "C1"

left_over-Moves : Moves overtaken 1 left_over
unfolding release at_task
left_over-Moves = then_move stay (ends 1 refl)

Reach-progress_example :
    (1 + steps_left left_over.tasks ≡ steps_left overtaken.tasks)
    × (All HasFinished left_over.tasks ⊎ ((s : ChannelQueue) × Move left_over s))
Reach-progress_example = Reach-progress overtaken left_over 1 overtaken_Reach left_over-Moves

-- 5 steps for the task that waits and 1 for the one that runs
overtaken_steps : steps_left overtaken.tasks ≡ 6
unfolding steps_left
overtaken_steps = refl
