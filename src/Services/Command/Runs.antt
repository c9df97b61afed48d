-- ===== src/Services/Command/Runs.antt =====
-- Requests one after another, whatever each of them ends with, and the ledger that their answers tell.
use inventory_management_api.Base.{◌≡◌, refl, ap, ◌⊎◌, inl, inr, Option, none, some, List, [], ◌∷◌}
use inventory_management_api.Base.Rows.{All}
use inventory_management_api.Errors.{Result, ok, err}
use inventory_management_api.Models.{Uuid, Movement}
use inventory_management_api.Schemas.Movement.{MovementCreate}
use inventory_management_api.Schemas.Movement.Shape.{IsAccepted}
use inventory_management_api.Session.{Env, World, with_session}
use inventory_management_api.Session.Atomic.{IsInternal}
use inventory_management_api.Session.Ends.{Ends}
use inventory_management_api.Stock.{IsSound}
use inventory_management_api.Stock.Ledger.{Ledger, view, move}
use inventory_management_api.Services.Command.{record_movement}
use inventory_management_api.Services.Command.Causes.{IsRefusal}
use inventory_management_api.Services.Command.Record.{record_movement-IsSound}
use inventory_management_api.Services.Command.Refines.{Moves, Refuses, record_movement_refines}

module _ ⦃env : Env⦄ where
  -- The requests in turn, each in a session of its own.
  abbrev pub record_all : List (MovementCreate × Option Uuid) → World → World
  record_all [] s = s
  record_all ((d, by) ∷ rs) s = record_all rs (with_session (record_movement d by) s).1

  -- The answers to them.
  abbrev pub answers_to : List (MovementCreate × Option Uuid) → World → List (Result Movement)
  answers_to [] s = []
  answers_to ((d, by) ∷ rs) s =
      (with_session (record_movement d by) s).0
      ∷ answers_to rs (with_session (record_movement d by) s).1

-- What a client makes of an answer: a movement that came back was made; a refusal was not made, and
-- the ledger did not allow it; behind an internal error it was made or not.
abbrev pub Told : MovementCreate → Result Movement → Ledger → Ledger → Type 0
Told d (ok m) l l' = move d l ≡ some l'
Told d (err e) l l' =
    ((IsRefusal e × (move d l ≡ none)) × (l' ≡ l))
    ⊎ (IsInternal e × ((l' ≡ l) ⊎ (move d l ≡ some l')))

-- The ledger goes from `l` to `l'` as the answers to the requests tell, one after another.
abbrev pub Tells :
    List (MovementCreate × Option Uuid) → List (Result Movement) → Ledger → Ledger → Type 0
Tells [] [] l l' = l' ≡ l
Tells [] (a ∷ answers) l l' = ⊥
Tells (r ∷ rs) [] l l' = ⊥
Tells (r ∷ rs) (a ∷ answers) l l' = (next : Ledger) × (Told r.0 a l next × Tells rs answers next l')

module _ ⦃env : Env⦄ where
  told :
      (d : MovementCreate) (by : Option Uuid) (s : World) (out : Result Movement × World)
      → Ends (λ m s'. Moves d by s s') (Refuses d by s) out
      → Told d out.0 (view s.committed) (view out.1.committed)
  told d by s (ok m, s') h = h.outcome
  told d by s (err e, s') h = elim h.outcome [
    | inl (r, n, u) ↦ inl ((r, n), ap view u.committed)
    | inr (i, inl u) ↦ inr (i, inl (ap view u.committed))
    | inr (i, inr m) ↦ inr (i, inr m)
  ]

  -- Accepted requests in any number and order, from committed tables that are sound: the tables are
  -- sound in the end, and the ledger that the clients then see is the one that the answers tell. Each
  -- request that returned has made its movement, in turn, on the ledger that was left by those before
  -- it; each that was refused has changed nothing, and that ledger did not allow it; behind a 500 the
  -- movement was made or nothing was changed.
  pub record_all-Tells :
      (rs : List (MovementCreate × Option Uuid)) (s : World)
      → All (λ (r : MovementCreate × Option Uuid). IsAccepted r.0) rs
      → IsSound s.committed
      → IsSound (record_all rs s).committed
        × Tells rs (answers_to rs s) (view s.committed) (view (record_all rs s).committed)
  record_all-Tells [] s accepted h = (h, refl)
  record_all-Tells ((d, by) ∷ rs) s (a, accepted) h =
      let (sound, tells) =
        record_all-Tells rs (with_session (record_movement d by) s).1 accepted
          (record_movement-IsSound d by s a h) in
      (
        sound,
        (
          view (with_session (record_movement d by) s).1.committed,
          (told d by s _ (record_movement_refines d by s a h.stocked), tells),
        ),
      )
