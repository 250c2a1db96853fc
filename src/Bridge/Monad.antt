-- ===== src/Bridge/Monad.antt =====
-- The effects of a handler: an error stops it, and what it wrote before stays written.
use matrix_bridge_slack.Prelude.{ℕ, suc, String, Option, none, some, [], ◌∷◌, ◌++◌}
use matrix_bridge_slack.Bridge.{Request, Answer, Result, ok, err, State, Env}

abbrev pub M : Type 0 → Type 0
M A = Env → State → Result A × State

abbrev pub tick : State → State
tick s = record s { clock = suc s.clock }

abbrev pub logged : Request → State → State
logged r s = record s { calls = s.calls ++ r ∷ []; clock = suc s.clock }

module _ {A : Type 0} where
  unfoldable pub pure : A → M A
  pure a env s = (ok a, s)

  unfoldable pub raise : String → M A
  raise e env s = (err e, s)

  abbrev pub answered : Option String → A → State → State → Result A × State
  answered none a before after = (ok a, after)
  answered (some e) a before after = (err e, before)

  -- a query: `env.database` says whether it fails
  unfoldable pub query : (State → A) → M A
  query f env s = answered (env.database s.clock) (f s) (tick s) (tick s)

  -- a statement that changes the tables
  unfoldable pub write : (State → State) → A → M A
  write f a env s = answered (env.database s.clock) a (tick s) (tick (f s))

  abbrev pub inserted : Option State → A → State → Result A × State
  inserted none a s = (err "UNIQUE constraint failed", s)
  inserted (some t) a s = (ok a, tick t)

  abbrev pub accepted : Option String → Option State → A → State → Result A × State
  accepted none o a s = inserted o a s
  accepted (some e) o a s = (err e, s)

  -- a statement that a constraint may refuse
  unfoldable pub try_write : (State → Option State) → A → M A
  try_write f a env s = accepted (env.database s.clock) (f s) a (tick s)

  -- state in memory, which cannot fail; `env.now` is the time
  unfoldable pub with_state : (ℕ → State → A × State) → M A
  with_state f env s = let (a, t) = f (env.now s.clock) s in (ok a, t)

-- a request, and the error that it may give
unfoldable pub call : (r : Request) → M (Answer r)
call r env s = (env.answer s.clock r, logged r s)

-- a request whose error the handler looks at
unfoldable pub attempt : (r : Request) → M (Result (Answer r))
attempt r env s = (ok (env.answer s.clock r), logged r s)

module _ {A : Type 0} where
  -- a query whose error the handler looks at
  abbrev pub catch : M A → M (Result A)
  catch m env s = let (r, t) = m env s in (ok r, t)

module _ {A B : Type 0} where
  abbrev pub continue : Result A → (A → M B) → M B
  continue (ok a) f env s = f a env s
  continue (err e) f env s = (err e, s)

  infixl 10 ◌>>=◌ ◌>>◌
  -- opening this opens the effects too
  unfoldable pub ◌>>=◌ : M A → (A → M B) → M B
  unfolding pure raise query write try_write with_state call attempt
  ◌>>=◌ m f env s = let (r, t) = m env s in continue r f env t

  abbrev pub ◌>>◌ : M A → M B → M B
  m >> n = m >>= λ _. n
