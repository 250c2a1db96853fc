-- ===== src/EventHandler/Age.antt =====
-- Which events the age limit lets through.
use Prim.Native.String.{[], ◌∷◌}
use matrix_bridge_slack.Prelude.{
  zero, suc, String, Bool-cases, inl, inr, Bool, subst, false, if◌then◌else◌, ltb, ltb→lt, eqb,
  code, Option, none, ℕ, ◌+◌, ◌^◌, ◌≤◌, ◌<◌, ◌≡◌, true, some, arith, ◌↔◌, ◌⊎◌, ◌≢◌,
}
use matrix_bridge_slack.Json.{Integer, pos, negsuc, and_then}
use matrix_bridge_slack.Bridge.{ok, State, Env}
use matrix_bridge_slack.Bridge.Monad.{◌>>=◌}
use matrix_bridge_slack.Bridge.Matrix.{MatrixEvent}
use matrix_bridge_slack.EventHandler.{
  i64_of, i64_of_negated, parse_number, parse_i64, check_event_age, MatrixEventHandler,
  with_age_limit, process_event,
}

-- within the bounds of an i64
abbrev Fits : Option Integer → Type 0
Fits none = Unit
Fits (some (pos n)) = n < 2 ^ 63
Fits (some (negsuc n)) = n < 2 ^ 63

i64_of-Fits : (o : Option ℕ) → Fits (and_then o i64_of)
i64_of-Fits none = tt
i64_of-Fits (some n) = elim (Bool-cases (ltb n (2 ^ 63))) [
  | inl small ↦ rw small (ltb→lt n (2 ^ 63) small)
  | inr large ↦ rw large tt
]

i64_of_negated-Fits : (o : Option ℕ) → Fits (and_then o i64_of_negated)
i64_of_negated-Fits none = tt
i64_of_negated-Fits (some zero) = ground arith
i64_of_negated-Fits (some (suc n)) = elim (Bool-cases (ltb n (2 ^ 63))) [
  | inl small ↦ rw small (ltb→lt n (2 ^ 63) small)
  | inr large ↦ rw large tt
]

Fits-if : (b : Bool) (o p : Option Integer) → Fits o → Fits p → Fits (if b then o else p)
Fits-if true o p ho hp = ho
Fits-if false o p ho hp = hp

parse_i64-Fits : (s : String) → Fits (parse_i64 s)
unfolding parse_i64
parse_i64-Fits [] = tt
parse_i64-Fits (c ∷ s) =
    let number = and_then (parse_number (c ∷ s)) i64_of in
    let after_plus = and_then (parse_number s) i64_of in
    Fits-if (eqb (code c) 45) (and_then (parse_number s) i64_of_negated)
      (if eqb (code c) 43 then after_plus else number) (i64_of_negated-Fits (parse_number s))
      (Fits-if (eqb (code c) 43) after_plus number (i64_of-Fits (parse_number s))
        (i64_of-Fits (parse_number (c ∷ s))))

and_then-Fits : (o : Option String) → Fits (and_then o parse_i64)
and_then-Fits none = tt
and_then-Fits (some s) = parse_i64-Fits s

-- a time that is not too old, or so old that its age wraps
abbrev pub InTime : ℕ → ℕ → Integer → Type 0
InTime now l (pos t) = now ≤ t + l
InTime now l (negsuc n) = (now + n + 1 ≤ l) ⊎ (2 ^ 63 ≤ now + n + 1)

module _ (h : MatrixEventHandler) (event : MatrixEvent) (now l : ℕ) where
  in_time :
      (ts : Integer)
      → now < 2 ^ 63
      → Fits (some ts)
      → and_then event.timestamp parse_i64 ≡ some ts
      → (check_event_age now event (with_age_limit h l).age_limit_ms ≡ true)
        ↔ ((l ≡ 0) ⊎ InTime now l ts)
  unfolding check_event_age with_age_limit
  in_time (pos t) fits _ parsed = rw parsed (ground arith)
  in_time (negsuc n) fits small parsed = rw parsed (ground arith)

  -- Where the time and the event's timestamp are i64 numbers, the age check with a limit given as
  -- a u64 lets an event through exactly when the limit is 0, the event is not older than the
  -- limit, or its age does not fit an i64.
  pub check_event_age_iff :
      (ts : Integer)
      → now < 2 ^ 63
      → and_then event.timestamp parse_i64 ≡ some ts
      → (check_event_age now event (with_age_limit h l).age_limit_ms ≡ true)
        ↔ ((l ≡ 0) ⊎ InTime now l ts)
  check_event_age_iff ts fits parsed =
      in_time ts fits (subst Fits parsed (and_then-Fits event.timestamp)) parsed

-- An event of a time that is not negative and is older than a limit that is not 0 changes nothing
-- and makes no request, whatever the handlers are.
pub process_event-late :
    (h : MatrixEventHandler) (event : MatrixEvent) (l t : ℕ) (env : Env) (s : State)
    → env.now s.clock < 2 ^ 63
    → and_then event.timestamp parse_i64 ≡ some (pos t)
    → l ≢ 0
    → t + l < env.now s.clock
    → process_event (with_age_limit h l) event env s ≡ (ok tt, s)
unfolding process_event check_event_age with_age_limit ◌>>=◌
process_event-late h event l t env s fits parsed limited late = rw parsed (ground arith)
