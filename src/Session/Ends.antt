-- ===== src/Session/Ends.antt =====
-- Postconditions of actions: what holds when a call returns, and what holds when it raises.
use inventory_management_api.Base.{◌≡◌, refl, ◌∙◌, ap, subst, sym, Bool, true, false}
use inventory_management_api.Errors.{Error, Result, ok, err}
use inventory_management_api.Session.{Action, World, raise_if, begin, close, ◌>>=◌}

abbrev pub Outcome :
    {A : Type 0} → (A → World → Type 0) → (Error → World → Type 0) → Result A × World → Type 0
Outcome Q E (ok a, s) = Q a s
Outcome Q E (err e, s) = E e s

-- A call that returns meets `Q`, and one that raises meets `E`.
pub record Ends {A : Type 0} (Q : A → World → Type 0) (E : Error → World → Type 0)
    (r : Result A × World) : Type 0 where
  pub outcome : Outcome Q E r

module _ {A B : Type 0} {R : B → World → Type 0} {E : Error → World → Type 0} where
  -- A step that is known to return.
  pub Ends-ok :
      (m : Action A) (f : A → Action B) (s : World) (a : A) (s' : World)
      → m s ≡ (ok a, s')
      → Ends R E (f a s')
      → Ends R E ((m >>= f) s)
  unfolding ◌>>=◌
  Ends-ok m f s a s' e h = subst (λ r. Ends R E (continue r)) (sym e) h
    where
      continue : Result A × World → Result B × World
      continue (r, s) = elim r [ ok a ↦ f a s | err e ↦ (err e, s) ]

  -- A step that is known to raise.
  pub Ends-err :
      (m : Action A) (f : A → Action B) (s : World) (x : Error) (s' : World)
      → m s ≡ (err x, s')
      → E x s'
      → Ends R E ((m >>= f) s)
  unfolding ◌>>=◌
  Ends-err m f s x s' e h = subst (λ r. Ends R E (continue r)) (sym e) (record { outcome = h })
    where
      continue : Result A × World → Result B × World
      continue (r, s) = elim r [ ok a ↦ f a s | err e ↦ (err e, s) ]

module _ {A B : Type 0} {R : B → World → Type 0} {E : Error → World → Type 0}
    (Q : A → World → Type 0) where
  Ends-continue :
      (r : Result A) (s : World) (f : A → Action B)
      → Outcome Q E (r, s)
      → ((a : A) (s' : World) → Q a s' → Ends R E (f a s'))
      → Ends R E (((λ _. (r, s)) >>= f) s)
  unfolding ◌>>=◌
  Ends-continue (ok a) s f h k = k a s h
  Ends-continue (err e) s f h k = record { outcome = h }

  -- The rule for one step of a `do` block.
  pub Ends-bind :
      (m : Action A) (f : A → Action B) (s : World)
      → Ends Q E (m s)
      → ((a : A) (s' : World) → Q a s' → Ends R E (f a s'))
      → Ends R E ((m >>= f) s)
  unfolding ◌>>=◌
  Ends-bind m f s h k = let (r, s') = m s in Ends-continue r s' f h.outcome k

module _ {A : Type 0} {Q R : A → World → Type 0} {E F : Error → World → Type 0} where
  Outcome-map :
      (r : Result A) (s : World)
      → Outcome Q E (r, s)
      → ((a : A) (s' : World) → Q a s' → R a s')
      → ((e : Error) (s' : World) → E e s' → F e s')
      → Outcome R F (r, s)
  Outcome-map (ok a) s h f g = f a s h
  Outcome-map (err e) s h f g = g e s h

  pub Ends-map :
      (r : Result A × World)
      → Ends Q E r
      → ((a : A) (s' : World) → Q a s' → R a s')
      → ((e : Error) (s' : World) → E e s' → F e s')
      → Ends R F r
  Ends-map (r, s) h f g = record { outcome = Outcome-map r s h.outcome f g }

-- What the open transaction has not touched: the last commit, and what went to others.
pub record Uncommitted (s s' : World) : Type 0 where
  pub committed : s'.committed ≡ s.committed
  pub published : s'.published ≡ s.published
  pub queued : s'.queued ≡ s.queued

pub Uncommitted-refl : (s : World) → Uncommitted s s
Uncommitted-refl s = record { committed = refl; published = refl; queued = refl }

pub Uncommitted-trans :
    {s s' s'' : World} → Uncommitted s s' → Uncommitted s' s'' → Uncommitted s s''
Uncommitted-trans u v = record {
  committed = v.committed ∙ u.committed;
  published = v.published ∙ u.published;
  queued = v.queued ∙ u.queued;
}

-- The two ways of a guard.
pub raise_if-raises : (c : Bool) (e : Error) (s : World) → c ≡ true → raise_if c e s ≡ (err e, s)
raise_if-raises c e s h = rw h

pub raise_if-passes : (c : Bool) (e : Error) (s : World) → c ≡ false → raise_if c e s ≡ (ok tt, s)
raise_if-passes c e s h = rw h

module _ {A : Type 0} {Q : A → World → Type 0} {E : Error → World → Type 0} where
  -- Closing the session, after the call.
  pub Ends-close :
      (r : Result A × World)
      → Ends (λ a s. Q a (begin s)) (λ e s. E e (begin s)) r
      → Ends Q E (close r)
  Ends-close (r, s) h = record { outcome = closed r s h.outcome }
    where
      closed :
          (r : Result A) (s : World)
          → Outcome (λ a s. Q a (begin s)) (λ e s. E e (begin s)) (r, s)
          → Outcome Q E (close (r, s))
      closed (ok a) s h = h
      closed (err e) s h = h

  -- What holds either way.
  pub Ends-always :
      (P : World → Type 0) (r : Result A × World)
      → Ends Q E r
      → ((a : A) (s : World) → Q a s → P s)
      → ((e : Error) (s : World) → E e s → P s)
      → P r.1
  Ends-always P (r, s) h f g = always r s h.outcome
    where
      always : (r : Result A) (s : World) → Outcome Q E (r, s) → P s
      always (ok a) s h = f a s h
      always (err e) s h = g e s h

  pub Ends-returns : (r : Result A × World) (a : A) → Ends Q E r → r.0 ≡ ok a → Q a r.1
  Ends-returns (r, s) a h e = subst (λ x. Outcome Q E (x, s)) e h.outcome

module _ {A B : Type 0} where
  -- A step that returns, as an equation.
  pub bind-ok :
      (m : Action A) (f : A → Action B) (s : World) (a : A) (s' : World)
      → m s ≡ (ok a, s')
      → (m >>= f) s ≡ f a s'
  unfolding ◌>>=◌
  bind-ok m f s a s' e = ap continue e
    where
      continue : Result A × World → Result B × World
      continue (r, t) = elim r [ ok b ↦ f b t | err x ↦ (err x, t) ]

  -- A step that raises, as an equation.
  pub bind-err :
      (m : Action A) (f : A → Action B) (s : World) (e : Error) (s' : World)
      → m s ≡ (err e, s')
      → (m >>= f) s ≡ (err e, s')
  unfolding ◌>>=◌
  bind-err m f s e s' h = ap continue h
    where
      continue : Result A × World → Result B × World
      continue (r, t) = elim r [ ok b ↦ f b t | err x ↦ (err x, t) ]

-- What holds of the state either way, as a postcondition.
pub Ends-state :
    {A : Type 0} (P : World → Type 0) (r : Result A × World)
    → P r.1
    → Ends (λ _ s. P s) (λ _ s. P s) r
Ends-state {A = A} P (r, s) h = record { outcome = either r s h }
  where
    either : (r : Result A) (s : World) → P s → Outcome (λ _ s. P s) (λ _ s. P s) (r, s)
    either (ok a) s h = h
    either (err e) s h = h

module _ {A : Type 0} {Q : A → World → Type 0} {E : Error → World → Type 0} where
  -- What holds of the state either way, beside a postcondition.
  pub Ends-with :
      (P : World → Type 0) (r : Result A × World)
      → Ends Q E r
      → P r.1
      → Ends (λ a s. Q a s × P s) (λ e s. E e s × P s) r
  Ends-with P (r, s) h p = record { outcome = both r s h.outcome p }
    where
      both :
          (r : Result A) (s : World)
          → Outcome Q E (r, s)
          → P s
          → Outcome (λ a s. Q a s × P s) (λ e s. E e s × P s) (r, s)
      both (ok a) s h p = (h, p)
      both (err e) s h p = (h, p)

  -- The postcondition at a known outcome.
  pub Ends-at : (r : Result A × World) (a : A) (s : World) → Ends Q E r → r ≡ (ok a, s) → Q a s
  Ends-at r a s h e = (subst (Ends Q E) e h).outcome

module _ {A : Type 0} {Q R : A → World → Type 0} {E F : Error → World → Type 0} where
  -- Two postconditions of one action.
  pub Ends-and :
      (r : Result A × World)
      → Ends Q E r
      → Ends R F r
      → Ends (λ a s. Q a s × R a s) (λ e s. E e s × F e s) r
  Ends-and (r, s) h k = record { outcome = both r s h.outcome k.outcome }
    where
      both :
          (r : Result A) (s : World)
          → Outcome Q E (r, s)
          → Outcome R F (r, s)
          → Outcome (λ a s. Q a s × R a s) (λ e s. E e s × F e s) (r, s)
      both (ok a) s h k = (h, k)
      both (err e) s h k = (h, k)
