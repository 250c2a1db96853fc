-- ===== src/Presence/Rounds.antt =====
-- Rounds of `process_next`, one for each presence that waits.
use matrix_bridge_slack.Prelude.{ℕ, zero, suc, not, List, [], ◌∷◌, ◌++◌, retain}
use matrix_bridge_slack.Presence.{
  SlackPresence, LetterCase, map_presence, PresenceHandler, update_presence, MatrixPresenceTarget,
  Call, process_next,
}

module _ (case : LetterCase) (target : MatrixPresenceTarget) where
  -- `n` turns of the presence loop of `BridgeCore::start`, and the requests that they make
  pub turns : ℕ → PresenceHandler → PresenceHandler × List Call
  turns zero h = (h, [])
  turns (suc n) h =
      let (h', _, calls) = process_next case target h in
      let (h'', later) = turns n h' in (h'', calls ++ later)

  abbrev pub requests : List SlackPresence → List Call
  requests [] = []
  requests (p ∷ q) = update_presence target p (map_presence case p) ++ requests q

  -- who waits again after a turn
  abbrev pub kept : List SlackPresence → List SlackPresence
  kept q = retain (λ p. not (map_presence case p).should_drop) q

  abbrev with_queue : PresenceHandler → List SlackPresence → PresenceHandler
  with_queue h q = record h { queue = q }
