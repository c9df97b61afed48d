-- ===== src/Services/Command/Refines.antt =====
-- The write side refines its specification: `record_movement`, on whatever is committed, against a
-- move on the ledger.
use inventory_management_api.Base.{
  ◌≡◌, refl, ◌∙◌, ap, sym, fun_ext, ◌⊎◌, inl, inr, true, false, Option, none, some, List, ◌==◌,
}
use inventory_management_api.Base.Int.{ℤ, ◌+ℤ◌}
use inventory_management_api.Base.Rows.{any}
use inventory_management_api.Errors.{Error}
use inventory_management_api.Models.{Uuid, Product, Warehouse, Inventory, Movement, Tables}
use inventory_management_api.Schemas.Movement.{MovementCreate}
use inventory_management_api.Schemas.Movement.Shape.{IsAccepted}
use inventory_management_api.Session.{Env, World, begin, with_session}
use inventory_management_api.Session.Ends.{
  Ends, Ends-bind, Ends-map, Ends-and, Ends-with, Ends-close, Uncommitted,
}
use inventory_management_api.Session.Atomic.{IsInternal}
use inventory_management_api.Stock.{stock, IsStocked}
use inventory_management_api.Stock.Ledger.{Ledger, view, asked, is_allowed, move}
use inventory_management_api.Services.Atomic.{database_IsInternal, checks_IsInternal}
use inventory_management_api.Services.Command.{announce, record_movement}
use inventory_management_api.Services.Command.Faults.{Raises-announce}
use inventory_management_api.Services.Command.Transaction.{Recorded, Done, apply_and_commit-Done}
use inventory_management_api.Services.Command.Record.{keeps_record}
use inventory_management_api.Services.Command.Causes.{IsRefusal}
use inventory_management_api.Services.Command.Decisions.{apply_and_commit-Decides}

abbrev ledger_of : List Product → List Warehouse → (Uuid → Uuid → ℤ) → Ledger
ledger_of ps ws level = record {
  products = λ p. any (λ (r : Product). r.id == p) ps;
  warehouses = λ w. any (λ (r : Warehouse). r.id == w) ws;
  level = level;
}

-- What is on record moves the ledger, where the ledger allows the movement.
move-Recorded :
    (d : MovementCreate) (by : Option Uuid) (t : Tables) (m : Movement) (t' : Tables)
    → is_allowed d (view t) ≡ true
    → Recorded d by t m t'
    → move d (view t) ≡ some (view t')
move-Recorded d by t m t' e r = rw e (
    ap some (
      ap (λ ps. ledger_of ps t.warehouses (λ p w. stock t.inventories p w +ℤ asked d p w))
        (sym r.products)
      ∙ ap (λ ws. ledger_of t'.products ws (λ p w. stock t.inventories p w +ℤ asked d p w))
          (sym r.warehouses)
      ∙ ap (ledger_of t'.products t'.warehouses) (fun_ext λ p. fun_ext λ w. sym (r.level p w))))

move-refused : (d : MovementCreate) (l : Ledger) → is_allowed d l ≡ false → move d l ≡ none
move-refused d l e = rw e refl

module _ ⦃env : Env⦄ (d : MovementCreate) (by : Option Uuid) where
  -- How `record_movement` ends when it raises.
  abbrev Raised : World → Error → World → Type 0
  Raised s e s' =
      (IsRefusal e × (is_allowed d (view s.session) ≡ false) × Uncommitted s s')
      ⊎ (IsInternal e
          × (Uncommitted s s'
              ⊎ ((is_allowed d (view s.session) ≡ true)
                  × ((m : Movement) × Recorded d by s.session m s'.committed))))

  abbrev Returned : World → Movement → World → Type 0
  Returned s m s' = (is_allowed d (view s.session) ≡ true) × Recorded d by s.session m s'.committed

  record_movement-Raised :
      (s : World)
      → IsAccepted d
      → IsStocked s.session.inventories
      → Ends (Returned s) (Raised s) (record_movement d by s)
  unfolding record_movement
  record_movement-Raised s a h =
      Ends-bind
        (λ (r : Movement × List Inventory) s'.
          Done d by s r.0 s' × (is_allowed d (view s.session) ≡ true))
        _ _ _
        (Ends-map _
          (Ends-and _ (apply_and_commit-Done d by s a h) (apply_and_commit-Decides d by s a h))
          (λ r s' g. g) (λ e s' g. early e s' g.0 g.1))
        λ r s' g.
          Ends-bind (λ _ s''. Recorded d by s.session r.0 s''.committed) _ _ _
            (Ends-map (announce d r.1 s')
              (Ends-with (λ s''. Recorded d by s.session r.0 s''.committed) (announce d r.1 s')
                ((Raises-announce database_IsInternal checks_IsInternal d r.1).at s')
                (keeps_record d by s r.0 s' g.0 r.1))
              (λ _ s'' k. k.1) (λ e s'' k. inr (k.0, inr (g.1, (r.0, k.1)))))
            λ _ s'' k. record { outcome = (g.1, k) }
    where
      early :
          (e : Error) (s' : World)
          → Uncommitted s s'
          → IsInternal e ⊎ (IsRefusal e × (is_allowed d (view s.session) ≡ false))
          → Raised s e s'
      early e s' u (inl i) = inr (i, inl u)
      early e s' u (inr (r, n)) = inl (r, n, u)

  -- How a request ends, read on the ledger.
  abbrev pub Moves : World → World → Type 0
  Moves s s' = move d (view s.committed) ≡ some (view s'.committed)

  abbrev pub Refuses : World → Error → World → Type 0
  Refuses s e s' =
      (IsRefusal e × (move d (view s.committed) ≡ none) × Uncommitted s s')
      ⊎ (IsInternal e × (Uncommitted s s' ⊎ Moves s s'))

  -- A request that records a movement refines a move on the ledger, from whatever is committed with
  -- stock levels well formed. If it returns, what is committed is the ledger moved. If it raises a
  -- domain exception, the ledger refuses the movement too, and nothing is committed, published or
  -- queued. Every other error is answered with a 500, and then nothing is committed, published or
  -- queued, or the ledger has moved.
  pub record_movement_refines :
      (s : World)
      → IsAccepted d
      → IsStocked s.committed.inventories
      → Ends (λ m s'. Moves s s') (Refuses s) (with_session (record_movement d by) s)
  unfolding with_session
  record_movement_refines s a h = Ends-close _ (
      Ends-map _ (record_movement-Raised (begin s) a h)
        (λ m s' k. move-Recorded d by s.committed m s'.committed k.0 k.1) raised)
    where
      raised : (e : Error) (s' : World) → Raised (begin s) e s' → Refuses s e (begin s')
      raised e s' (inl (r, n, u)) = inl (
        r,
        move-refused d (view s.committed) n,
        record { committed = u.committed; published = u.published; queued = u.queued },
      )
      raised e s' (inr (i, inl u)) =
          inr (
            i,
            inl (record { committed = u.committed; published = u.published; queued = u.queued }),
          )
      raised e s' (inr (i, inr (t, (m, r)))) =
          inr (i, inr (move-Recorded d by s.committed m s'.committed t r))
