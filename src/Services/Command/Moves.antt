-- ===== src/Services/Command/Moves.antt =====
-- The stock moves as a movement asks, on every type of movement.
use inventory_management_api.Base.{◌≡◌, ◌∙◌, ap, inl, inr, Bool-cases}
use inventory_management_api.Base.Int.{ℤ, pos, ◌+ℤ◌, ◌-ℤ◌, ◌≤ℤ◌, int_laws, +ℤ_steps}
use inventory_management_api.Models.{Uuid, MovementType, Inventory, Tables}
use inventory_management_api.Schemas.Movement.{MovementCreate}
use inventory_management_api.Schemas.Movement.Shape.{IsShaped}
use inventory_management_api.Session.{Env, World}
use inventory_management_api.Session.Ends.{
  Ends, Ends-ok, Ends-bind, Ends-map, Uncommitted, Uncommitted-trans,
}
use inventory_management_api.Stock.{stock, amount_at, IsStocked}
use inventory_management_api.Stock.Ledger.{asked}
use inventory_management_api.Services.Command.{
  source_first, transfer_stock, apply_in, apply_out, apply_transfer, apply_movement,
}
use inventory_management_api.Services.Command.Changes.{Leg, decrease_stock-Leg}
use inventory_management_api.Services.Command.Increase.{increase_stock-Leg}

-- The stock levels have changed by `f`, and nothing else has, outside the open transaction's
-- locks and the answers it drew.
pub record Moved (f : Uuid → Uuid → ℤ) (s s' : World) : Type 0 where
  pub stocked : IsStocked s'.session.inventories
  pub level :
      (p w : Uuid) → stock s'.session.inventories p w ≡ stock s.session.inventories p w +ℤ f p w
  pub others : s'.session ≡ record s.session { inventories = s'.session.inventories }
  pub uncommitted : Uncommitted s s'

Leg-Moved :
    (p w : Uuid) (d : ℤ) (s : World) (r : Inventory) (s' : World)
    → Leg p w d s r s'
    → (f : Uuid → Uuid → ℤ) → ((p' w' : Uuid) → amount_at p w d p' w' ≡ f p' w')
    → Moved f s s'
Leg-Moved p w d s r s' l f e = record {
  stocked = l.changed.stocked;
  level = λ p' w'. rw (← e p' w') (l.changed.level p' w');
  others = l.changed.others;
  uncommitted = l.uncommitted;
}

Legs-Moved :
    (p v w : Uuid) (c d : ℤ) (s : World) (x y : Inventory) (s' s'' : World)
    → Leg p v c s x s'
    → Leg p w d s' y s''
    → (f : Uuid → Uuid → ℤ)
    → ((p' w' : Uuid) → amount_at p v c p' w' +ℤ amount_at p w d p' w' ≡ f p' w')
    → Moved f s s''
Legs-Moved p v w c d s x y s' s'' l m f e = record {
  stocked = m.changed.stocked;
  level = λ p' w'. +ℤ_steps _ _ _ _ _ _ (l.changed.level p' w') (m.changed.level p' w') (e p' w');
  others =
      m.changed.others
      ∙ ap (λ (t : Tables). record t { inventories = s''.session.inventories }) l.changed.others;
  uncommitted = Uncommitted-trans l.uncommitted m.uncommitted;
}

module _ ⦃env : Env⦄ where
  apply_in-Moved :
      (d : MovementCreate) (s : World)
      → pos 0 ≤ℤ d.quantity
      → IsShaped MovementType.in_ d.source_warehouse_id d.destination_warehouse_id
      → IsStocked s.session.inventories
      → Ends (λ _ s'. Moved (asked d) s s') (λ e s'. Uncommitted s s') (apply_in d s)
  unfolding apply_in
  apply_in-Moved d s n (w, e, f) h = Ends-ok _ _ _ w s (rw e) (
      Ends-bind (Leg d.product_id w d.quantity s) _ _ _
        (increase_stock-Leg d.product_id w d.quantity s n h)
        λ r s' l. record {
          outcome = Leg-Moved _ _ _ s r s' l (asked d) λ p' w'. grind (int_laws, e, f);
        })

  apply_out-Moved :
      (d : MovementCreate) (s : World)
      → IsShaped MovementType.out d.source_warehouse_id d.destination_warehouse_id
      → IsStocked s.session.inventories
      → Ends (λ _ s'. Moved (asked d) s s') (λ e s'. Uncommitted s s') (apply_out d s)
  unfolding apply_out
  apply_out-Moved d s (v, e, f) h = Ends-ok _ _ _ v s (rw e) (
      Ends-bind (Leg d.product_id v (pos 0 -ℤ d.quantity) s) _ _ _
        (decrease_stock-Leg d.product_id v d.quantity s h)
        λ r s' l. record {
          outcome = Leg-Moved _ _ _ s r s' l (asked d) λ p' w'. grind (int_laws, e, f);
        })

  transfer_stock-Moved :
      (p v w : Uuid) (q : ℤ) (s : World)
      → pos 0 ≤ℤ q
      → IsStocked s.session.inventories
      → Ends
          (λ _ s'. Moved (λ p' w'. amount_at p w q p' w' -ℤ amount_at p v q p' w') s s')
          (λ e s'. Uncommitted s s')
          (transfer_stock p v w q s)
  unfolding transfer_stock
  transfer_stock-Moved p v w q s n h = elim (Bool-cases (source_first v w)) [
    | inl y ↦ rw y (
        Ends-bind (Leg p v (pos 0 -ℤ q) s) _ _ _ (decrease_stock-Leg p v q s h) λ x s' l.
          Ends-bind (Leg p w q s') _ _ _
            (Ends-map _ (increase_stock-Leg p w q s' n l.changed.stocked) (λ y s'' m. m)
              (λ e s'' u. Uncommitted-trans l.uncommitted u))
            λ y s'' m. record {
              outcome = Legs-Moved p v w _ _ s x y s' s'' l m _ λ p' w'. grind int_laws;
            })
    | inr y ↦ rw y (
        Ends-bind (Leg p w q s) _ _ _ (increase_stock-Leg p w q s n h) λ x s' l.
          Ends-bind (Leg p v (pos 0 -ℤ q) s') _ _ _
            (Ends-map _ (decrease_stock-Leg p v q s' l.changed.stocked) (λ y s'' m. m)
              (λ e s'' u. Uncommitted-trans l.uncommitted u))
            λ y s'' m. record {
              outcome = Legs-Moved p w v _ _ s x y s' s'' l m _ λ p' w'. grind int_laws;
            })
  ]

  apply_transfer-Moved :
      (d : MovementCreate) (s : World)
      → pos 0 ≤ℤ d.quantity
      → IsShaped MovementType.transfer d.source_warehouse_id d.destination_warehouse_id
      → IsStocked s.session.inventories
      → Ends (λ _ s'. Moved (asked d) s s') (λ e s'. Uncommitted s s') (apply_transfer d s)
  unfolding apply_transfer
  apply_transfer-Moved d s n (v, w, e, f, ne) h = Ends-ok _ _ _ v s (rw e) (
      Ends-ok _ _ _ w s (rw f) (
        Ends-bind (λ _ s'. Moved (asked d) s s') _ _ _
          (rw (e, f) (transfer_stock-Moved d.product_id v w d.quantity s n h))
          λ rs s' m. record { outcome = m }))

  -- The stock moves as the payload asks, on every type of movement.
  pub apply_movement-Moved :
      (ty : MovementType) (d : MovementCreate) (s : World)
      → pos 0 ≤ℤ d.quantity
      → IsShaped ty d.source_warehouse_id d.destination_warehouse_id
      → IsStocked s.session.inventories
      → Ends (λ _ s'. Moved (asked d) s s') (λ e s'. Uncommitted s s') (apply_movement ty d s)
  unfolding apply_movement
  apply_movement-Moved MovementType.in_ d s n sh h = apply_in-Moved d s n sh h
  apply_movement-Moved MovementType.out d s n sh h = apply_out-Moved d s sh h
  apply_movement-Moved MovementType.transfer d s n sh h = apply_transfer-Moved d s n sh h
