-- ===== src/Session.antt =====
-- app/core/session.py: a request's or a task's work on one database session, as actions on a
-- state. The database, the clock, `uuid4` and the task broker are not the repository's code: they
-- are the fields of `Env`, an instance argument of all that uses them.
pub mod Ends
pub mod Keeps
pub mod Raises
pub mod Atomic
use Prim.Native.String.{String}
use mathlib.Core.List.{Permᴰ}
use inventory_management_api.Base.{
  ℕ, ◌+◌, ⊤, Bool, Option, none, some, List, [], ◌∷◌, if◌then◌else◌,
}
use inventory_management_api.Base.Int.{ℤ}
use inventory_management_api.Base.Rows.{keep, IsDescending, AtMostOne, nothing, one, several}
use inventory_management_api.Errors.{Error, multiple_results, Result, ok, err}
use inventory_management_api.Models.{Uuid, Timestamp, Tables}
use inventory_management_api.Events.{Event}

pub record Env : Type 1 where
  -- SELECT … WHERE p: the rows that meet the condition, in an order that SQL leaves open.
  pub select : (A : Type 0) → (A → Bool) → List A → List A
  pub select_perm :
      (A : Type 0) (p : A → Bool) (rows : List A) → Permᴰ (select A p rows) (keep p rows)
  -- ORDER BY a text, in the collation of the database.
  pub order_by : (A : Type 0) → (A → String) → List A → List A
  pub order_by_perm :
      (A : Type 0) (key : A → String) (rows : List A) → Permᴰ (order_by A key rows) rows
  -- ORDER BY a time DESC.
  pub order_by_desc : (A : Type 0) → (A → Timestamp) → List A → List A
  pub order_by_desc_perm :
      (A : Type 0) (key : A → Timestamp) (rows : List A) → Permᴰ (order_by_desc A key rows) rows
  pub order_by_desc_sorted :
      (A : Type 0) (key : A → Timestamp) (rows : List A)
      → IsDescending key (order_by_desc A key rows)
  -- name ILIKE '%query%'
  pub name_contains : (name query : String) → Bool
  -- Whether an Integer column takes a value.
  pub integer_fits : ℤ → Bool
  -- The n-th answer that a run gets from `uuid.uuid4`, from the clock, and from the broker (whether
  -- `delay` goes through).
  pub uuid4 : ℕ → Uuid
  pub now : ℕ → Timestamp
  pub broker_accepts : ℕ → Bool
  -- `Settings.low_stock_alert_threshold_default`
  pub low_stock_alert_threshold_default : ℤ

-- `session` holds the rows as this session sees them, `committed` those of its last commit.
-- `locks` are the pairs whose inventory row the open transaction has locked, the latest first.
-- `published` and `queued` are the events given to the publisher and the alerts given to the email
-- task, the latest first; `answers` counts what was asked of the environment.
pub record World : Type 0 where
  pub session : Tables
  pub committed : Tables
  pub locks : List (Uuid × Uuid)
  pub published : List Event
  pub queued : List Uuid
  pub answers : ℕ

-- What was done before a raise stays done in the session.
abbrev pub Action : Type 0 → Type 0
Action A = World → Result A × World

-- A query of the session's rows.
abbrev pub read : {A : Type 0} → (Tables → A) → Action A
read query s = (ok (query s.session), s)

abbrev pub raise : {A : Type 0} → Error → Action A
raise e s = (err e, s)

abbrev pub pure : {A : Type 0} → A → Action A
pure a s = (ok a, s)

-- `if x is None: raise …`
abbrev pub or_raise : {A : Type 0} → Option A → Error → Action A
or_raise (some a) e = pure a
or_raise none e = raise e

-- `result.scalar_one_or_none()`
abbrev pub one_or_none : {A : Type 0} → AtMostOne A → Action (Option A)
one_or_none nothing = pure none
one_or_none (one a) = pure (some a)
one_or_none several = raise multiple_results

infixl 5 ◌>>=◌ ◌>>◌
unfoldable pub ◌>>=◌ : {A B : Type 0} → Action A → (A → Action B) → Action B
◌>>=◌ act rest s =
    let (answer, s') = act s in elim answer [ ok a ↦ rest a s' | err e ↦ (err e, s') ]

abbrev pub ◌>>◌ : {A B : Type 0} → Action A → Action B → Action B
act >> rest = act >>= λ _. rest

-- `if test: raise …`
abbrev pub raise_if : Bool → Error → Action ⊤
raise_if test e s = (if test then err e else ok tt, s)

-- A change of the session's rows, flushed or pending.
abbrev pub write : (Tables → Tables) → Action ⊤
write f s = (ok tt, record s { session = f s.session })

abbrev pub lock : Uuid × Uuid → Action ⊤
lock k s = (ok tt, record s { locks = k ∷ s.locks })

-- `session.commit()`
unfoldable pub commit : Action ⊤
commit s = (ok tt, record s { committed = s.session; locks = [] })

-- `event_publisher.publish`: it never raises (see `Publisher`).
unfoldable pub publish : Event → Action ⊤
publish e s = (ok tt, record s { published = e ∷ s.published })

-- `async with AsyncSessionLocal() as session`: a session starts from what is committed, and what a
-- request or a task did not commit is rolled back when its session closes.
abbrev pub begin : World → World
begin s = record s { session = s.committed; locks = [] }

abbrev pub close : {A : Type 0} → Result A × World → Result A × World
close (r, s) = (r, begin s)

unfoldable pub with_session : {A : Type 0} → Action A → Action A
with_session m s = close (m (begin s))

module _ ⦃env : Env⦄ where
  abbrev pub select : {A : Type 0} → (A → Bool) → List A → List A
  select {A} p rows = env.select A p rows

  abbrev pub uuid4 : Action Uuid
  uuid4 s = (ok (env.uuid4 s.answers), record s { answers = s.answers + 1 })

  abbrev pub now : Action Timestamp
  now s = (ok (env.now s.answers), record s { answers = s.answers + 1 })

  -- A flush of a value into an Integer column.
  abbrev pub fits : ℤ → Bool
  fits = env.integer_fits
