-- ===== src/Session/Raises.antt =====
-- Which errors an action raises, and whether it has committed something when it does: one rule for
-- each way to build an action.
use inventory_management_api.Base.{
  ⊤, ◌≡◌, inl, inr, Bool, true, false, Option, none, some, if◌then◌else◌,
}
use inventory_management_api.Base.Rows.{AtMostOne, nothing, one, several}
use inventory_management_api.Errors.{Error, integrity, data_error, multiple_results}
use inventory_management_api.Models.{Uuid, Tables}
use inventory_management_api.Events.{Event}
use inventory_management_api.Session.{
  Env, Action, World, pure, read, raise, raise_if, or_raise, one_or_none, write, lock, commit,
  publish, uuid4, now, ◌>>=◌,
}
use inventory_management_api.Session.Ends.{Ends, Ends-bind}
use inventory_management_api.Repositories.Base.{Model, create}
use inventory_management_api.Repositories.Base.Lookup.{create-cases}

-- Each error that the action raises meets `P`.
pub record Raises (P : Error → Type 0) {A : Type 0} (act : Action A) : Type 0 where
  pub at : (s : World) → Ends (λ _ _. ⊤) (λ e _. P e) (act s)

-- The errors of the database layer meet `P`.
pub record AllowsDatabase (P : Error → Type 0) : Type 0 where
  pub integrity : P integrity
  pub data_error : P data_error
  pub multiple_results : P multiple_results

module _ {P : Error → Type 0} where
  pub Raises-bind :
      {A B : Type 0} (act : Action A) (rest : A → Action B)
      → Raises P act
      → ((a : A) → Raises P (rest a))
      → Raises P (act >>= rest)
  Raises-bind act rest first later = record {
    at = λ s. Ends-bind (λ _ _. ⊤) act rest s (first.at s) (λ a s' _. (later a).at s');
  }

  pub Raises-pure : {A : Type 0} (a : A) → Raises P (pure a)
  Raises-pure a = record { at = λ s. record { outcome = tt } }

  pub Raises-read : {A : Type 0} (query : Tables → A) → Raises P (read query)
  Raises-read query = record { at = λ s. record { outcome = tt } }

  pub Raises-write : (f : Tables → Tables) → Raises P (write f)
  Raises-write f = record { at = λ s. record { outcome = tt } }

  pub Raises-lock : (k : Uuid × Uuid) → Raises P (lock k)
  Raises-lock k = record { at = λ s. record { outcome = tt } }

  pub Raises-commit : Raises P commit
  unfolding commit
  Raises-commit = record { at = λ s. record { outcome = tt } }

  pub Raises-publish : (e : Event) → Raises P (publish e)
  unfolding publish
  Raises-publish e = record { at = λ s. record { outcome = tt } }

  pub Raises-raise : {A : Type 0} (e : Error) → P e → Raises P (raise {A = A} e)
  Raises-raise e p = record { at = λ s. record { outcome = p } }

  pub Raises-if :
      {A : Type 0} (test : Bool) (yes_act no_act : Action A)
      → Raises P yes_act
      → Raises P no_act
      → Raises P (if test then yes_act else no_act)
  Raises-if true yes_act no_act k l = k
  Raises-if false yes_act no_act k l = l

  pub Raises-raise_if : (test : Bool) (e : Error) → P e → Raises P (raise_if test e)
  Raises-raise_if true e p = record { at = λ s. record { outcome = p } }
  Raises-raise_if false e p = record { at = λ s. record { outcome = tt } }

  pub Raises-or_raise :
      {A : Type 0} (found : Option A) (e : Error) → P e → Raises P (or_raise found e)
  Raises-or_raise (some a) e p = record { at = λ s. record { outcome = tt } }
  Raises-or_raise none e p = record { at = λ s. record { outcome = p } }

  pub Raises-one_or_none :
      {A : Type 0} (rows : AtMostOne A) → P multiple_results → Raises P (one_or_none rows)
  Raises-one_or_none nothing p = record { at = λ s. record { outcome = tt } }
  Raises-one_or_none (one a) p = record { at = λ s. record { outcome = tt } }
  Raises-one_or_none several p = record { at = λ s. record { outcome = p } }

  pub Raises-create :
      {R : Type 0} (m : Model R) (r : R)
      → P integrity
      → ((t : Tables) (e : Error) → m.violates r t ≡ some e → P e)
      → Raises P (create m r)
  Raises-create m r p q = record {
    at = λ s. elim (create-cases m r s) [
      | inl (made, _) ↦ rw made (record { outcome = tt })
      | inr (x, failed, inl e) ↦ rw (failed, e) (record { outcome = p })
      | inr (x, failed, inr e) ↦ rw failed (record { outcome = q s.session x e })
    ];
  }

module _ ⦃env : Env⦄ {P : Error → Type 0} where
  pub Raises-uuid4 : Raises P uuid4
  Raises-uuid4 = record { at = λ s. record { outcome = tt } }

  pub Raises-now : Raises P now
  Raises-now = record { at = λ s. record { outcome = tt } }

pub ruleset raises_rules = (
  Raises-bind, Raises-pure, Raises-read, Raises-write, Raises-lock, Raises-commit, Raises-publish,
  Raises-if, Raises-raise, Raises-raise_if, Raises-or_raise, Raises-one_or_none, Raises-uuid4,
  Raises-now,
)
