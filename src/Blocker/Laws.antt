-- ===== src/Blocker/Laws.antt =====
-- The blocker as a state machine, and its invariant on every sequence of calls.
use matrix_bridge_slack.Prelude.{
  ℕ, ◌^◌, ◌≤◌, ◌<◌, ◌≡◌, String, false, Option, none, some, arith, ltb, is_some, if◌then◌else◌,
}
use matrix_bridge_slack.Blocker.{
  active, limited, BridgeBlocker, is_limited, is_paused, new, check_and_update, pause, resume,
  is_blocked, record_message_sent, record_message_received, should_accept_new_user,
}

module _ (show : ℕ → String) where
  -- Any caller, at any time, with any answer of the database.
  pub data Step (b : BridgeBlocker) : BridgeBlocker → Type 0 where
    checked :
        (now : ℕ) (users rooms : Option ℕ) → Step b (check_and_update show now users rooms b).0
    paused_by : (reason : String) → Step b (pause reason b)
    resumed : Step b (resume b)
    sent : Step b (record_message_sent b)
    received : Step b (record_message_received b)

  pub data Reach (limit : Option ℕ) (now : ℕ) : BridgeBlocker → Type 0 where
    start : Reach limit now (new limit now)
    next : {b c : BridgeBlocker} → Reach limit now b → Step b c → Reach limit now c

  -- A reason is there exactly while the bridge is not active, and the counters fit their type.
  pub record IsConsistent (b : BridgeBlocker) : Type 0 where
    pub reason : is_some b.status.pause_reason ≡ is_blocked b
    pub sent_fits : b.status.messages_sent < 2 ^ 64
    pub received_fits : b.status.messages_received < 2 ^ 64

  Step-IsConsistent : {b c : BridgeBlocker} → Step b c → IsConsistent b → IsConsistent c
  unfolding check_and_update pause resume record_message_sent record_message_received is_blocked
  Step-IsConsistent (checked now none rooms) v = v
  Step-IsConsistent (checked now (some users) none) v = v
  Step-IsConsistent (checked now (some users) (some rooms)) v = ground arith
  Step-IsConsistent (paused_by reason) v = ground arith
  Step-IsConsistent resumed v = ground arith
  Step-IsConsistent sent v = ground arith
  Step-IsConsistent received v = ground arith

  -- In every state that calls of the blocker reach, there is a pause reason exactly while the
  -- bridge is blocked, and both message counters are below 2 ^ 64.
  pub Reach-IsConsistent :
      {limit : Option ℕ} {now : ℕ} {b : BridgeBlocker} → Reach limit now b → IsConsistent b
  unfolding new is_blocked
  Reach-IsConsistent start = ground arith
  Reach-IsConsistent (next r s) = Step-IsConsistent s (Reach-IsConsistent r)

  -- a check that reads both counts decides by the limit alone, but for a pause below the limit
  pub check_and_update_lem :
      (now users rooms : ℕ) (b : BridgeBlocker)
      → (check_and_update show now (some users) (some rooms) b).1
        ≡ some (
            if ltb b.user_limit users
            then limited
            else if is_limited b.status.state
            then active
            else b.status.state)
  unfolding check_and_update
  check_and_update_lem now users rooms b = ground arith

  -- After a check that could read both counts, a new user is accepted exactly when the bridge was
  -- not paused and the active users are below the limit.
  pub should_accept-check_and_update :
      (now users rooms : ℕ) (b : BridgeBlocker)
      → should_accept_new_user (check_and_update show now (some users) (some rooms) b).0
        ≡ (if is_paused b.status.state then false else ltb users b.user_limit)
  unfolding check_and_update should_accept_new_user
  should_accept-check_and_update now users rooms b = ground arith

  -- After a pause by hand, a check that finds more users than the limit and then one that finds at
  -- most the limit leave the bridge not blocked.
  pub pause_lost :
      (reason : String) (now now' over under rooms rooms' : ℕ) (b : BridgeBlocker)
      → b.user_limit < over
      → under ≤ b.user_limit
      → is_blocked
          (check_and_update show now'
            (some under)
            (some rooms')
            (check_and_update show now (some over) (some rooms) (pause reason b)).0).0
        ≡ false
  unfolding check_and_update pause is_blocked
  pause_lost reason now now' over under rooms rooms' b h k = ground arith
