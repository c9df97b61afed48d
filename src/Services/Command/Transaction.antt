-- ===== src/Services/Command/Transaction.antt =====
-- The transaction of `record_movement`: the stock moves as the movement says, and the audit trail
-- keeps accounting for it.
use inventory_management_api.Base.{
  ◌≡◌, refl, ◌∙◌, ap, sym, ◌+◌, Option, List, ◌∷◌, arith, inl, inr, Option-cases,
}
use inventory_management_api.Base.Int.{◌+ℤ◌, +ℤ_comm}
use inventory_management_api.Base.Rows.{find?}
use inventory_management_api.Models.{Uuid, Inventory, Movement, Tables}
use inventory_management_api.Schemas.Movement.{MovementCreate}
use inventory_management_api.Schemas.Movement.Shape.{IsAccepted}
use inventory_management_api.Session.{Env, World, pure, commit, ◌>>=◌, ◌>>◌}
use inventory_management_api.Session.Ends.{
  Ends, Ends-ok, Ends-err, Ends-bind, Uncommitted, Uncommitted-refl,
}
use inventory_management_api.Repositories.Base.{has_id, create}
use inventory_management_api.Repositories.Base.Lookup.{
  get_or_raise_missing, get_or_raise_found, create-cases,
}
use inventory_management_api.Repositories.Catalog.{product_model}
use inventory_management_api.Repositories.Inventories.{movement_model}
use inventory_management_api.Stock.{IsSound, stock, delta, audited, IsStocked}
use inventory_management_api.Stock.Ledger.{asked}
use inventory_management_api.Services.Command.{new_movement, apply_and_commit}
use inventory_management_api.Services.Command.Moves.{Moved, apply_movement-Moved}

-- What a transaction that commits has done: the movement stands in the trail as the payload gave
-- it, the levels have moved as asked, and no other table has changed.
pub record Recorded (d : MovementCreate) (performed_by : Option Uuid) (t : Tables) (m : Movement)
    (t' : Tables) : Type 0 where
  pub product_id : m.product_id ≡ d.product_id
  pub movement_type : m.movement_type ≡ d.movement_type
  pub quantity : m.quantity ≡ d.quantity
  pub source : m.source_warehouse_id ≡ d.source_warehouse_id
  pub destination : m.destination_warehouse_id ≡ d.destination_warehouse_id
  pub reason : m.reason ≡ d.reason
  pub performer : m.performed_by ≡ performed_by
  pub trail : t'.movements ≡ m ∷ t.movements
  pub stocked : IsStocked t'.inventories
  pub level : (p w : Uuid) → stock t'.inventories p w ≡ stock t.inventories p w +ℤ asked d p w
  pub products : t'.products ≡ t.products
  pub warehouses : t'.warehouses ≡ t.warehouses
  pub users : t'.users ≡ t.users

-- A transaction that is recorded keeps the audit trail in step with the stock.
pub Recorded-IsSound :
    (d : MovementCreate) (performed_by : Option Uuid) (t : Tables) (m : Movement) (t' : Tables)
    → Recorded d performed_by t m t'
    → IsSound t
    → IsSound t'
unfolding audited delta new_movement
Recorded-IsSound d by t m t' r h = record {
  stocked = r.stocked;
  audit = λ p w.
      r.level p w
      ∙ ap (λ x. x +ℤ asked d p w) (h.audit p w)
      ∙ +ℤ_comm (audited t.movements p w) (asked d p w)
      ∙ ap (λ x. x +ℤ audited t.movements p w) (asked_of_entry p w)
      ∙ ap (λ ms. audited ms p w) (sym r.trail);
}
  where
    asked_of_entry : (p w : Uuid) → asked d p w ≡ delta m p w
    asked_of_entry p w = rw (r.product_id, r.quantity, r.source, r.destination) refl

-- The outcome of the transaction, up to and with its commit.
pub record Done (d : MovementCreate) (performed_by : Option Uuid) (s : World) (m : Movement)
    (s' : World) : Type 0 where
  pub recorded : Recorded d performed_by s.session m s'.session
  pub alerts : s'.session.alerts ≡ s.session.alerts
  pub committed : s'.committed ≡ s'.session
  pub published : s'.published ≡ s.published
  pub queued : s'.queued ≡ s.queued

module _ ⦃env : Env⦄ where
  -- The state when the movement is inserted, and the movement.
  abbrev stamped : World → World
  stamped s = record s { answers = s.answers + 1 + 1 }

  abbrev entry_of : MovementCreate → Option Uuid → World → Movement
  entry_of d by s = new_movement d by (env.uuid4 s.answers) (env.now (s.answers + 1))

  insert :
      (d : MovementCreate) (performed_by : Option Uuid) (s s' : World) (affected : List Inventory)
      → Moved (asked d) s s'
      → Ends
          (λ (r : Movement × List Inventory) s''. Done d performed_by s r.0 s'')
          (λ e s''. Uncommitted s s'')
          ((create movement_model (entry_of d performed_by s') >>= λ movement.
              commit >> pure (movement, affected))
            (stamped s'))
  unfolding commit new_movement
  insert d by s s' affected m = elim (create-cases movement_model (entry_of d by s') (stamped s')) [
    | inl (made, n) ↦ Ends-ok _ _ _ _ _ made (
        Ends-ok _ _ _ _ _ refl (record {
          outcome = record {
            recorded = record {
              product_id = refl;
              movement_type = refl;
              quantity = refl;
              source = refl;
              destination = refl;
              reason = refl;
              performer = refl;
              trail = ap (λ (t : Tables). entry_of d by s' ∷ t.movements) m.others;
              stocked = m.stocked;
              level = m.level;
              products = ap (λ (t : Tables). t.products) m.others;
              warehouses = ap (λ (t : Tables). t.warehouses) m.others;
              users = ap (λ (t : Tables). t.users) m.others;
            };
            alerts = ap (λ (t : Tables). t.alerts) m.others;
            committed = refl;
            published = m.uncommitted.published;
            queued = m.uncommitted.queued;
          };
        }))
    | inr (x, failed, _) ↦ Ends-err _ _ _ _ _ failed (record {
      committed = m.uncommitted.committed;
      published = m.uncommitted.published;
      queued = m.uncommitted.queued;
    })
  ]

  pub apply_and_commit-Done :
      (d : MovementCreate) (performed_by : Option Uuid) (s : World)
      → IsAccepted d
      → IsStocked s.session.inventories
      → Ends
          (λ (r : Movement × List Inventory) s'. Done d performed_by s r.0 s')
          (λ e s'. Uncommitted s s')
          (apply_and_commit d performed_by s)
  unfolding apply_and_commit
  apply_and_commit-Done d by s a h =
      elim (Option-cases (find? (has_id product_model d.product_id) s.session.products)) [
        | inl e ↦
            Ends-err _ _ s _ s (get_or_raise_missing product_model d.product_id s e)
              (Uncommitted-refl s)
        | inr (x, e) ↦ Ends-ok _ _ s x s (get_or_raise_found product_model d.product_id s x e) (
            Ends-bind (λ _ s'. Moved (asked d) s s') _ _ _
              (apply_movement-Moved d.movement_type d s (omega (arith, a.positive)) a.shaped h)
              λ affected s' m.
                Ends-ok _ _ _ _ _ refl
                  (Ends-ok _ _ _ _ (stamped s') refl (insert d by s s' affected m)))
      ]
