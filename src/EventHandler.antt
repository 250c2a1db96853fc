-- ===== src/EventHandler.antt =====
-- matrix/event_handler.rs: the age limit on events, and which handler gets which event. An i64 is an
-- Integer that fits; the difference of two wraps, as it does in a release build.
pub mod Age
pub mod Impl
use Prim.Native.String.{[], ◌∷◌}
use matrix_bridge_slack.Prelude.{
  ℕ, zero, suc, ◌+◌, ◌-◌, ◌*◌, ◌^◌, ◌%◌, String, Bool, true, false, not, code, ◌&&◌, Option, none,
  some, ltb, leb, eqb, ◌==◌, if◌then◌else◌,
}
use matrix_bridge_slack.Json.{Integer, pos, negsuc, and_then}
use matrix_bridge_slack.Bridge.Monad.{M, pure, with_state, ◌>>=◌}
use matrix_bridge_slack.Bridge.Matrix.{MatrixEvent}

-- `digits.parse()`, after `n`
abbrev parse_digits : ℕ → String → Option ℕ
parse_digits n [] = some n
parse_digits n (c ∷ s) =
    let rest = parse_digits (n * 10 + (code c - 48)) s in
    if leb 48 (code c) && leb (code c) 57 then rest else none

abbrev pub parse_number : String → Option ℕ
parse_number [] = none
parse_number (c ∷ s) = parse_digits 0 (c ∷ s)

abbrev pub i64_of : ℕ → Option Integer
i64_of n = if ltb n (2 ^ 63) then some (pos n) else none

abbrev pub i64_of_negated : ℕ → Option Integer
i64_of_negated zero = some (pos 0)
i64_of_negated (suc n) = if ltb n (2 ^ 63) then some (negsuc n) else none

-- `s.parse::<i64>().ok()`
unfoldable pub parse_i64 : String → Option Integer
parse_i64 [] = none
parse_i64 (c ∷ s) =
    if eqb (code c) 45
    then and_then (parse_number s) i64_of_negated
    else if eqb (code c) 43
    then and_then (parse_number s) i64_of
    else and_then (parse_number (c ∷ s)) i64_of

abbrev pub greater : Integer → Integer → Bool
greater (pos a) (pos b) = ltb b a
greater (pos a) (negsuc b) = true
greater (negsuc a) (pos b) = false
greater (negsuc a) (negsuc b) = ltb a b

-- the i64 that a number wraps to
abbrev pub wrap : ℕ → Integer
wrap n = let m = n % 2 ^ 64 in if ltb m (2 ^ 63) then pos m else negsuc (2 ^ 64 - 1 - m)

-- `now - ts`, where `ts` is not after `now`
abbrev pub elapsed : ℕ → Integer → Integer
elapsed now (pos t) = wrap (now - t)
elapsed now (negsuc n) = wrap (now + n + 1)

abbrev pub is_recent : ℕ → Integer → Option Integer → Bool
is_recent now age_limit_ms none = true
is_recent now age_limit_ms (some ts) =
    if greater ts (pos now) then true else not (greater (elapsed now ts) age_limit_ms)

unfoldable pub check_event_age : ℕ → MatrixEvent → Integer → Bool
check_event_age now event age_limit_ms =
    if not (greater age_limit_ms (pos 0))
    then true
    else is_recent now age_limit_ms (and_then event.timestamp parse_i64)

pub record MatrixEventHandler : Type 0 where
  pub handle_room_message : MatrixEvent → M Unit
  pub handle_room_member : MatrixEvent → M Unit
  pub handle_presence : MatrixEvent → M Unit
  pub handle_room_encryption : MatrixEvent → M Unit
  pub handle_room_name : MatrixEvent → M Unit
  pub handle_room_topic : MatrixEvent → M Unit
  pub handle_room_power_levels : MatrixEvent → M Unit
  pub handle_room_redaction : MatrixEvent → M Unit
  pub handle_reaction : MatrixEvent → M Unit
  pub handle_typing : MatrixEvent → M Unit
  pub handle_receipt : MatrixEvent → M Unit
  pub handle_sticker : MatrixEvent → M Unit

pub record MatrixEventProcessor : Type 0 where
  pub event_handler : MatrixEventHandler
  pub age_limit_ms : Integer

unfoldable pub with_age_limit : MatrixEventHandler → ℕ → MatrixEventProcessor
with_age_limit handler age_limit_ms = record {
  event_handler = handler;
  age_limit_ms = pos (if ltb age_limit_ms (2 ^ 63 - 1) then age_limit_ms else 2 ^ 63 - 1);
}

abbrev pub dispatch : MatrixEventHandler → MatrixEvent → String → M Unit
dispatch h event kind =
    if kind == "m.room.message"
    then h.handle_room_message event
    else if kind == "m.room.member"
    then h.handle_room_member event
    else if kind == "m.presence"
    then h.handle_presence event
    else if kind == "m.room.encryption"
    then h.handle_room_encryption event
    else if kind == "m.room.name"
    then h.handle_room_name event
    else if kind == "m.room.topic"
    then h.handle_room_topic event
    else if kind == "m.room.power_levels"
    then h.handle_room_power_levels event
    else if kind == "m.room.redaction"
    then h.handle_room_redaction event
    else if kind == "m.reaction"
    then h.handle_reaction event
    else if kind == "m.typing"
    then h.handle_typing event
    else if kind == "m.receipt"
    then h.handle_receipt event
    else if kind == "m.sticker"
    then h.handle_sticker event
    else pure tt

unfoldable pub process_event : MatrixEventProcessor → MatrixEvent → M Unit
process_event p event = do
  recent ← with_state (λ now s. (check_event_age now event p.age_limit_ms, s))
  if not recent then pure tt else dispatch p.event_handler event event.event_type
