-- ===== src/Session/Atomic.antt =====
-- Actions that either raise what is answered with a 500, or leave nothing behind when they raise.
use inventory_management_api.Base.{⊤, ◌≡◌, ◌⊎◌, inl, inr}
use inventory_management_api.Errors.{Error, response_status}
use inventory_management_api.Models.{Uuid, Tables}
use inventory_management_api.Session.{Env, Action, World, raise, write, lock, uuid4, now, ◌>>=◌}
use inventory_management_api.Session.Ends.{Ends, Ends-bind, Ends-map, Ends-state, Uncommitted}
use inventory_management_api.Session.Keeps.{Keeps, keeps_rules}
use inventory_management_api.Session.Raises.{Raises}
use inventory_management_api.Repositories.Base.{Model, create}
use inventory_management_api.Repositories.Base.Lookup.{create-cases}

-- The error is answered with a 500.
abbrev pub IsInternal : Error → Type 0
IsInternal e = response_status e ≡ 500

-- Nothing is committed, published or queued since `origin`, however the action ends.
abbrev pub Quiet : (origin : World) {A : Type 0} → Action A → Type 0
Quiet origin act = Keeps (Uncommitted origin) act

-- Nor if it raises, but for errors that are answered with a 500.
pub record Atomic (origin : World) {A : Type 0} (act : Action A) : Type 0 where
  pub at :
      (s : World)
      → Uncommitted origin s
      → Ends (λ _ _. ⊤) (λ e s'. IsInternal e ⊎ Uncommitted origin s') (act s)

module _ {origin : World} where
  pub Atomic-Quiet : {A : Type 0} (act : Action A) → Quiet origin act → Atomic origin act
  Atomic-Quiet act k = record {
    at = λ s u.
        Ends-map (act s) (Ends-state (Uncommitted origin) (act s) (k.at s u)) (λ a s' h. tt)
          (λ e s' h. inr h);
  }

  pub Atomic-late : {A : Type 0} (act : Action A) → Raises IsInternal act → Atomic origin act
  Atomic-late act r = record {
    at = λ s u. Ends-map (act s) (r.at s) (λ a s' h. tt) (λ e s' h. inl h);
  }

  -- A quiet step, and then the rest.
  pub Atomic-bind :
      {A B : Type 0} (act : Action A) (rest : A → Action B)
      → Quiet origin act
      → ((a : A) → Atomic origin (rest a))
      → Atomic origin (act >>= rest)
  Atomic-bind act rest k later = record {
    at = λ s u.
        Ends-bind (λ _ s'. Uncommitted origin s') act rest s
          (Ends-map (act s) (Ends-state (Uncommitted origin) (act s) (k.at s u)) (λ a s' h. h)
            (λ e s' h. inr h))
          (λ a s' h. (later a).at s' h);
  }

  -- A step that commits, and then what raises nothing but a 500.
  pub Atomic-then :
      {A B : Type 0} (act : Action A) (rest : A → Action B)
      → Atomic origin act
      → ((a : A) → Raises IsInternal (rest a))
      → Atomic origin (act >>= rest)
  Atomic-then act rest h later = record {
    at = λ s u.
        Ends-bind (λ _ _. ⊤) act rest s (h.at s u)
          (λ a s' _. Ends-map (rest a s') ((later a).at s') (λ b t x. x) (λ e t x. inl x));
  }

  pub Quiet-raise : {A : Type 0} (e : Error) → Quiet origin (raise {A = A} e)
  Quiet-raise e = record { at = λ s u. u }

  pub Quiet-write : (f : Tables → Tables) → Quiet origin (write f)
  Quiet-write f = record {
    at = λ s u. record { committed = u.committed; published = u.published; queued = u.queued };
  }

  pub Quiet-lock : (k : Uuid × Uuid) → Quiet origin (lock k)
  Quiet-lock k = record {
    at = λ s u. record { committed = u.committed; published = u.published; queued = u.queued };
  }

  pub Quiet-create : {R : Type 0} (m : Model R) (r : R) → Quiet origin (create m r)
  Quiet-create m r = record {
    at = λ s u. elim (create-cases m r s) [
      | inl (made, _) ↦
          rw made (record { committed = u.committed; published = u.published; queued = u.queued })
      | inr (x, failed, _) ↦ rw failed u
    ];
  }

module _ ⦃env : Env⦄ {origin : World} where
  pub Quiet-uuid4 : Quiet origin uuid4
  Quiet-uuid4 = record {
    at = λ s u. record { committed = u.committed; published = u.published; queued = u.queued };
  }

  pub Quiet-now : Quiet origin now
  Quiet-now = record {
    at = λ s u. record { committed = u.committed; published = u.published; queued = u.queued };
  }

pub ruleset quiet_rules =
    (keeps_rules, Quiet-raise, Quiet-write, Quiet-lock, Quiet-create, Quiet-uuid4, Quiet-now)
