-- ===== src/Presence.antt =====
-- bridge/presence_handler.rs: Slack presences wait in a queue and are sent to Matrix one by one.
-- The Matrix side is the trait `MatrixPresenceTarget`; the letter case of a text is Unicode's table.
pub mod Queue
pub mod Rounds
use Prim.Native.String
use text.Mathlib.Text.{find?}
use matrix_bridge_slack.Prelude.{
  ℕ, Char, String, Bool, true, false, not, Option, none, some, List, [], ◌∷◌, ◌++◌, length, is_some,
  retain, first, ◌==◌, eqb, if◌then◌else◌,
}
use matrix_bridge_slack.Text.{◌⧺◌, is_blank}

pub data SlackPresenceState : Type 0 where
  online dnd idle offline : SlackPresenceState

pub record SlackActivity : Type 0 where
  pub kind : String
  pub name : String
  pub url : Option String

pub record SlackPresence : Type 0 where
  pub user_id : String
  pub username : Option String
  pub state : SlackPresenceState
  pub activities : List SlackActivity

pub data MatrixPresenceState : Type 0 where
  online offline unavailable : MatrixPresenceState

pub record PresenceDecision : Type 0 where
  pub presence : MatrixPresenceState
  pub status_message : String
  pub should_drop : Bool

-- `char::to_uppercase` and `str::to_lowercase`
pub record LetterCase : Type 0 where
  pub to_uppercase : Char → String
  pub to_lowercase : String → String

module _ (case : LetterCase) where
  capitalise : String → String → String
  capitalise String.[] name = name
  capitalise (String.◌∷◌ c rest) name = case.to_uppercase c ⧺ case.to_lowercase rest ⧺ " " ⧺ name

  abbrev with_url : String → Option String → String
  with_url message none = message
  with_url message (some url) = message ⧺ " | " ⧺ url

  pub activity_message : Option SlackActivity → String
  unfolding capitalise
  activity_message none = ""
  activity_message (some activity) = with_url (capitalise activity.kind activity.name) activity.url

  decide : SlackPresenceState → String → PresenceDecision
  decide SlackPresenceState.online message = record {
    presence = MatrixPresenceState.online;
    status_message = message;
    should_drop = false;
  }
  decide dnd message = record {
    presence = MatrixPresenceState.online;
    status_message = if is_blank message then "Do not disturb" else "Do not disturb | " ⧺ message;
    should_drop = false;
  }
  decide SlackPresenceState.offline message = record {
    presence = MatrixPresenceState.offline;
    status_message = message;
    should_drop = true;
  }
  decide idle message = record {
    presence = unavailable;
    status_message = message;
    should_drop = false;
  }

  unfoldable pub map_presence : SlackPresence → PresenceDecision
  unfolding activity_message decide
  map_presence p = decide p.state (activity_message (first p.activities))

pub record PresenceHandler : Type 0 where
  pub bot_slack_user_id : Option String
  pub queue : List SlackPresence

unfoldable pub new : Option String → PresenceHandler
new bot = record { bot_slack_user_id = bot; queue = [] }

unfoldable pub queue_count : PresenceHandler → ℕ
queue_count h = length h.queue

abbrev pub is_bot : Option String → String → Bool
is_bot none user_id = false
is_bot (some bot) user_id = bot == user_id

-- `queue.retain(|item| item.user_id != user_id)`
unfoldable pub others : String → List SlackPresence → List SlackPresence
others user_id queue = retain (λ item. not (item.user_id == user_id)) queue

unfoldable pub enqueue_user : SlackPresence → PresenceHandler → PresenceHandler
enqueue_user p h =
    if is_bot h.bot_slack_user_id p.user_id
    then h
    else record h { queue = others p.user_id h.queue ++ p ∷ [] }

unfoldable pub dequeue_user : String → PresenceHandler → PresenceHandler × Bool
dequeue_user user_id h =
    let left = others user_id h.queue in
    (record h { queue = left }, not (eqb (length h.queue) (length left)))

-- The two calls of the trait; `none` is `Ok(())`, and an error is its text.
pub record MatrixPresenceTarget : Type 0 where
  pub set_presence : String → MatrixPresenceState → String → Option String
  pub ensure_user_registered : String → Option String → Option String

pub data Call : Type 0 where
  set_presence : (slack_user_id : String) → MatrixPresenceState → (status : String) → Call
  ensure_user_registered : (slack_user_id : String) → (username : Option String) → Call

popped : PresenceHandler → List SlackPresence → Option (SlackPresence × PresenceHandler)
popped h [] = none
popped h (p ∷ rest) = some (p, record h { queue = rest })

-- the first half of `process_next`, under the queue's lock
unfoldable pub pop_front : PresenceHandler → Option (SlackPresence × PresenceHandler)
unfolding popped
pop_front h = popped h h.queue

abbrev is_forbidden : Option String → Bool
is_forbidden none = false
is_forbidden (some err) = is_some (find? err "M_FORBIDDEN")

-- the requests of `process_next`, which other calls of the handler can run between
unfoldable pub update_presence : MatrixPresenceTarget → SlackPresence → PresenceDecision → List Call
update_presence target p decision =
    let err = target.set_presence p.user_id decision.presence decision.status_message in
    set_presence p.user_id decision.presence decision.status_message
    ∷ (if is_forbidden err then ensure_user_registered p.user_id p.username ∷ [] else [])

-- the last part of `process_next`, under the lock again
unfoldable pub requeue : SlackPresence → PresenceDecision → PresenceHandler → PresenceHandler
requeue p decision h = if not decision.should_drop then enqueue_user p h else h

-- `process_next` with no other call in between; it never returns an error
unfoldable pub process_next :
    LetterCase → MatrixPresenceTarget → PresenceHandler → PresenceHandler × Bool × List Call
unfolding pop_front
process_next case target h = elim (pop_front h) [
  | none ↦ (h, false, [])
  | some (p, h') ↦
      let decision = map_presence case p in
      (requeue p decision h', true, update_presence target p decision)
]
