-- ===== src/Session/Keeps.antt =====
-- Invariants of actions, whether they return or raise: one rule for each way to build an action.
use inventory_management_api.Base.{Bool, true, false, Option, none, some, if◌then◌else◌}
use inventory_management_api.Base.Rows.{AtMostOne, nothing, one, several}
use inventory_management_api.Errors.{Error, Result, ok, err}
use inventory_management_api.Models.{Tables}
use inventory_management_api.Session.{
  Action, World, pure, read, raise_if, or_raise, one_or_none, ◌>>=◌,
}

-- From a world that meets `I`, the action ends in one that does.
pub record Keeps {A : Type 0} (I : World → Type 0) (act : Action A) : Type 0 where
  pub at : (before : World) → I before → I (act before).1

module _ {A B : Type 0} {I : World → Type 0} where
  after_step :
      (answer : Result A) (now : World) (rest : A → Action B)
      → I now
      → ((a : A) → Keeps I (rest a))
      → I (((λ _. (answer, now)) >>= rest) now).1
  unfolding ◌>>=◌
  after_step (err e) now rest held later = held
  after_step (ok a) now rest held later = (later a).at now held

  pub Keeps-bind :
      (act : Action A) (rest : A → Action B)
      → Keeps I act
      → ((a : A) → Keeps I (rest a))
      → Keeps I (act >>= rest)
  unfolding ◌>>=◌
  Keeps-bind act rest first later = record {
    at = λ before held.
        let (answer, now) = act before in after_step answer now rest (first.at before held) later;
  }

module _ {A : Type 0} {I : World → Type 0} where
  pub Keeps-if :
      (test : Bool) (yes_act no_act : Action A)
      → Keeps I yes_act
      → Keeps I no_act
      → Keeps I (if test then yes_act else no_act)
  Keeps-if false yes_act no_act k l = l
  Keeps-if true yes_act no_act k l = k

  pub Keeps-or_raise : (found : Option A) (e : Error) → Keeps I (or_raise found e)
  Keeps-or_raise (some a) e = record { at = λ before held. held }
  Keeps-or_raise none e = record { at = λ before held. held }

  pub Keeps-one_or_none : (rows : AtMostOne A) → Keeps I (one_or_none rows)
  Keeps-one_or_none (one a) = record { at = λ before held. held }
  Keeps-one_or_none nothing = record { at = λ before held. held }
  Keeps-one_or_none several = record { at = λ before held. held }

  pub Keeps-read : (query : Tables → A) → Keeps I (read query)
  Keeps-read query = record { at = λ before held. held }

  pub Keeps-pure : (a : A) → Keeps I (pure a)
  Keeps-pure a = record { at = λ before held. held }

pub Keeps-raise_if : {I : World → Type 0} (test : Bool) (e : Error) → Keeps I (raise_if test e)
Keeps-raise_if test e = record { at = λ before held. held }

pub ruleset keeps_rules = (
  Keeps-bind, Keeps-if, Keeps-or_raise, Keeps-one_or_none, Keeps-read, Keeps-pure, Keeps-raise_if,
)
