-- ===== src/Bridge/Triple.antt =====
-- What a handler ensures of every environment, one rule for each effect.
use matrix_bridge_slack.Prelude.{
  ℕ, ◌≡◌, refl, sym, subst, String, Bool, true, false, Option, none, some, if◌then◌else◌,
}
use matrix_bridge_slack.Bridge.{Request, Answer, Result, ok, err, State, Env}
use matrix_bridge_slack.Bridge.Monad.{
  M, tick, logged, pure, raise, answered, query, write, inserted, accepted, try_write, with_state,
  call, attempt, catch, continue, ◌>>=◌,
}

module _ {A : Type 0} where
  -- a result and a state with `Q`, or an error and a state with `E`
  abbrev pub Post : (A → State → Type 0) → (State → Type 0) → Result A × State → Type 0
  Post Q E (ok a, s) = Q a s
  Post Q E (err e, s) = E s

  -- `m` from a state with `P`
  pub record Triple (P : State → Type 0) (m : M A) (Q : A → State → Type 0) (E : State → Type 0)
      : Type 0 where
    pub at : (env : Env) (s : State) → P s → Post Q E (m env s)

module _ {A : Type 0} (Q : A → State → Type 0) (E : State → Type 0) where
  answered-Post :
      (o : Option String) (a : A) (s t : State) → E s → Q a t → Post Q E (answered o a s t)
  answered-Post none a s t e q = q
  answered-Post (some _) a s t e q = e

  inserted-Post :
      (o : Option State) (a : A) (s : State)
      → E s
      → ((t : State) → o ≡ some t → Q a (tick t))
      → Post Q E (inserted o a s)
  inserted-Post none a s e q = e
  inserted-Post (some t) a s e q = q t refl

  accepted-Post :
      (r : Option String) (o : Option State) (a : A) (s : State)
      → E s
      → ((t : State) → o ≡ some t → Q a (tick t))
      → Post Q E (accepted r o a s)
  accepted-Post none o a s e q = inserted-Post o a s e q
  accepted-Post (some _) o a s e q = e

  result-Post : (r : Result A) (s : State) → ((a : A) → Q a s) → E s → Post Q E (r, s)
  result-Post (ok a) s q e = q a
  result-Post (err _) s q e = e

  pub Post-weaken :
      {Q' : A → State → Type 0} {E' : State → Type 0} (r : Result A) (s : State)
      → ((a : A) (s : State) → Q' a s → Q a s)
      → ((s : State) → E' s → E s)
      → Post Q' E' (r, s)
      → Post Q E (r, s)
  Post-weaken (ok a) s q e h = q a s h
  Post-weaken (err _) s q e h = e s h

  pub continue-Post :
      {B : Type 0} {R : B → State → Type 0} (r : Result A) (f : A → M B) (env : Env) (s : State)
      → Post Q E (r, s)
      → ((a : A) → Triple (Q a) (f a) R E)
      → Post R E (continue r f env s)
  continue-Post (ok a) f env s q h = (h a).at env s q
  continue-Post (err e) f env s q h = q

module _ {A : Type 0} {P E : State → Type 0} {Q : A → State → Type 0} where
  pub Triple-pure : (a : A) → ((s : State) → P s → Q a s) → Triple P (pure a) Q E
  unfolding pure
  Triple-pure a h = record { at = λ env s p. h s p }

  pub Triple-raise : (e : String) → ((s : State) → P s → E s) → Triple P (raise e) Q E
  unfolding raise
  Triple-raise e h = record { at = λ env s p. h s p }

  pub Triple-query :
      (f : State → A)
      → ((s : State) → P s → Q (f s) (tick s))
      → ((s : State) → P s → E (tick s))
      → Triple P (query f) Q E
  unfolding query
  Triple-query f q e = record {
    at =
        λ env s p. answered-Post Q E (env.database s.clock) (f s) (tick s) (tick s) (e s p) (q s p);
  }

  pub Triple-write :
      (f : State → State) (a : A)
      → ((s : State) → P s → Q a (tick (f s)))
      → ((s : State) → P s → E (tick s))
      → Triple P (write f a) Q E
  unfolding write
  Triple-write f a q e = record {
    at =
        λ env s p. answered-Post Q E (env.database s.clock) a (tick s) (tick (f s)) (e s p) (q s p);
  }

  pub Triple-try_write :
      (f : State → Option State) (a : A)
      → ((s t : State) → P s → f s ≡ some t → Q a (tick t))
      → ((s : State) → P s → E (tick s))
      → Triple P (try_write f a) Q E
  unfolding try_write
  Triple-try_write f a q e = record {
    at = λ env s p.
        accepted-Post Q E (env.database s.clock) (f s) a (tick s) (e s p) (λ t h. q s t p h);
  }

  pub Triple-with_state :
      (f : ℕ → State → A × State)
      → ((now : ℕ) (s : State) → P s → Q (f now s).0 (f now s).1)
      → Triple P (with_state f) Q E
  unfolding with_state
  Triple-with_state f q = record { at = λ env s p. q (env.now s.clock) s p }

  pub Triple-if :
      (b : Bool) (m n : M A)
      → (b ≡ true → Triple P m Q E)
      → (b ≡ false → Triple P n Q E)
      → Triple P (if b then m else n) Q E
  Triple-if true m n hm hn = hm refl
  Triple-if false m n hm hn = hn refl

  -- a weaker start, a stronger end
  pub Triple-weaken :
      {P' E' : State → Type 0} {Q' : A → State → Type 0} (m : M A)
      → Triple P' m Q' E'
      → ((s : State) → P s → P' s)
      → ((a : A) (s : State) → Q' a s → Q a s)
      → ((s : State) → E' s → E s)
      → Triple P m Q E
  Triple-weaken m h p q e = record {
    at = λ env s w. let (r, t) = m env s in Post-weaken Q E r t q e (h.at env s (p s w));
  }

  pub Triple-bind :
      {B : Type 0} {R : B → State → Type 0} (m : M A) (f : A → M B)
      → Triple P m Q E
      → ((a : A) → Triple (Q a) (f a) R E)
      → Triple P (m >>= f) R E
  unfolding ◌>>=◌
  Triple-bind m f hm hf = record {
    at = λ env s p. let (r, t) = m env s in continue-Post Q E r f env t (hm.at env s p) hf;
  }

module _ {A B : Type 0} {P E : State → Type 0} {R : B → State → Type 0} where
  -- a value that is known
  pub Triple-known :
      (a b : A) (m : A → M B) → Triple P (m b) R E → Triple (λ s. (a ≡ b) × P s) (m a) R E
  Triple-known a b m h = record {
    at = λ env s k. subst (λ x. Post R E (m x env s)) (sym k.0) (h.at env s k.1);
  }

  -- an effect that keeps `P` first
  pub Triple-then :
      (m : M A) (f : A → M B)
      → Triple P m (λ _. P) E
      → ((a : A) → Triple P (f a) R E)
      → Triple P (m >>= f) R E
  Triple-then m f hm hf = Triple-bind m f hm hf

module _ {P E : State → Type 0} where
  pub Triple-call :
      (r : Request) {Q : Answer r → State → Type 0}
      → ((a : Answer r) (s : State) → P s → Q a (logged r s))
      → ((s : State) → P s → E (logged r s))
      → Triple P (call r) Q E
  unfolding call
  Triple-call r q e = record {
    at = λ env s p. result-Post _ E (env.answer s.clock r) (logged r s) (λ a. q a s p) (e s p);
  }

  pub Triple-attempt :
      (r : Request) {Q : Result (Answer r) → State → Type 0}
      → ((a : Result (Answer r)) (s : State) → P s → Q a (logged r s))
      → Triple P (attempt r) Q E
  unfolding attempt
  Triple-attempt r q = record { at = λ env s p. q (env.answer s.clock r) s p }

module _ (P : State → Type 0) {A : Type 0} where
  Post-state : (r : Result A) (t : State) → Post (λ _. P) P (r, t) → P t
  Post-state (ok a) t q = q
  Post-state (err e) t q = q

module _ {P : State → Type 0} {A : Type 0} where
  -- a property kept on either way out
  pub Triple-state :
      (m : M A) → Triple P m (λ _. P) P → (env : Env) (s : State) → P s → P (m env s).1
  Triple-state m h env s p = let (r, t) = m env s in Post-state P r t (h.at env s p)

  -- a failure becomes a result
  pub Triple-catch :
      {E : State → Type 0} (m : M A) → Triple P m (λ _. P) P → Triple P (catch m) (λ _. P) E
  Triple-catch m h = record { at = Triple-state m h }
