-- ===== src/Services/Command/Increase.antt =====
-- `_increase_stock` as a leg of a movement: it opens a record where the pair has none.
use inventory_management_api.Base.{
  ◌≡◌, refl, subst, sym, ◌+◌, false, Option, none, some, List, [], ◌∷◌, arith, inl, inr,
  Option-cases,
}
use inventory_management_api.Base.Int.{ℤ, pos, ◌+ℤ◌, ◌≤ℤ◌, int_laws}
use inventory_management_api.Base.Rows.{All, any, find?}
use inventory_management_api.Models.{Uuid, Inventory, Tables, of_pair}
use inventory_management_api.Session.{Env, World}
use inventory_management_api.Session.Ends.{
  Ends, Ends-ok, Ends-err, Ends-bind, Uncommitted, Uncommitted-refl,
}
use inventory_management_api.Repositories.Base.{has_id}
use inventory_management_api.Repositories.Base.Lookup.{
  get_or_raise_missing, get_or_raise_found, IsNew, inserted, create-cases,
}
use inventory_management_api.Repositories.Catalog.{warehouse_model}
use inventory_management_api.Repositories.Inventories.{inventory_violates, inventory_model}
use inventory_management_api.Stock.{stock, IsStocked}
use inventory_management_api.Services.Command.{new_inventory, found_or_new, increase_stock}
use inventory_management_api.Services.Command.Changes.{
  Changed, Leg, Changed-refl, flush-Leg, for_update_lem,
}

find-nonneg :
    (rows : List Inventory) (p w : Uuid) (x : Inventory)
    → All (λ (r : Inventory). pos 0 ≤ℤ r.quantity) rows
    → find? (of_pair p w) rows ≡ some x
    → pos 0 ≤ℤ x.quantity
find-nonneg [] p w x h e = cc
find-nonneg (r ∷ rs) p w x h e = ground (arith, find-nonneg rs p w x h.1)

-- The record that is found, or a new empty one.
record Start (p w : Uuid) (s : World) (x : Inventory) (s' : World) : Type 0 where
  uncommitted : Uncommitted s s'
  changed : Changed p w (pos 0) s.session s'.session
  row : find? (of_pair p w) s'.session.inventories ≡ some x
  nonneg : pos 0 ≤ℤ x.quantity

module _ ⦃env : Env⦄ where
  pair_is_new :
      (r : Inventory) (t : Tables)
      → inventory_violates r t ≡ none
      → any (of_pair r.product_id r.warehouse_id) t.inventories ≡ false
  unfolding inventory_violates
  pair_is_new r t h = ground arith

  -- The new row of a pair without one, and the world behind its `create`.
  abbrev opened : Uuid → Uuid → List (Uuid × Uuid) → World → World
  opened p w l s = record s { locks = l; answers = s.answers + 1 }

  abbrev fresh_row : Uuid → Uuid → World → Inventory
  fresh_row p w s = new_inventory p w (env.uuid4 s.answers)

  new-Start :
      (p w : Uuid) (l : List (Uuid × Uuid)) (s : World)
      → IsStocked s.session.inventories
      → find? (of_pair p w) s.session.inventories ≡ none
      → IsNew inventory_model (fresh_row p w s) (opened p w l s)
      → Start p w s (fresh_row p w s) (inserted inventory_model (fresh_row p w s) (opened p w l s))
  unfolding new_inventory stock
  new-Start p w l s h e n = record {
    uncommitted = record { committed = refl; published = refl; queued = refl };
    changed = record {
      stocked = record {
        nonneg = (omega arith, h.nonneg);
        ids = (n.new_id, h.ids);
        pairs = (pair_is_new (fresh_row p w s) s.session n.allowed, h.pairs);
      };
      level = λ p' w'. grind int_laws;
      others = refl;
    };
    row = ground arith;
    nonneg = omega arith;
  }

  found_or_new-Start :
      (p w : Uuid) (o : Option Inventory) (l : List (Uuid × Uuid)) (s : World)
      → IsStocked s.session.inventories
      → find? (of_pair p w) s.session.inventories ≡ o
      → Ends (Start p w s) (λ e s'. Uncommitted s s') (found_or_new p w o (record s { locks = l }))
  unfolding found_or_new
  found_or_new-Start p w (some x) l s h e = record {
    outcome = record {
      uncommitted = record { committed = refl; published = refl; queued = refl };
      changed = Changed-refl p w s.session h;
      row = e;
      nonneg = find-nonneg s.session.inventories p w x h.nonneg e;
    };
  }
  found_or_new-Start p w none l s h e =
      Ends-ok _ _ _ _ (opened p w l s) refl
        (elim (create-cases inventory_model (fresh_row p w s) (opened p w l s)) [
          | inl (made, n) ↦
              subst (Ends (Start p w s) (λ e s'. Uncommitted s s')) (sym made)
                (record { outcome = new-Start p w l s h e n })
          | inr (x, failed, _) ↦
              subst (Ends (Start p w s) (λ e s'. Uncommitted s s')) (sym failed)
                (record { outcome = record { committed = refl; published = refl; queued = refl } })
        ])

  -- An increase by an amount that is not negative.
  pub increase_stock-Leg :
      (p w : Uuid) (q : ℤ) (s : World)
      → pos 0 ≤ℤ q
      → IsStocked s.session.inventories
      → Ends (Leg p w q s) (λ e s'. Uncommitted s s') (increase_stock p w q s)
  unfolding increase_stock
  increase_stock-Leg p w q s n h =
      elim (Option-cases (find? (has_id warehouse_model w) s.session.warehouses)) [
        | inl e ↦
            Ends-err _ _ s _ s (get_or_raise_missing warehouse_model w s e) (Uncommitted-refl s)
        | inr (x, e) ↦ Ends-ok _ _ s x s (get_or_raise_found warehouse_model w s x e) (
            Ends-ok _ _ s _ _ (for_update_lem p w s h) (
              Ends-bind (Start p w s) _ _ _
                (found_or_new-Start p w (find? (of_pair p w) s.session.inventories) _ s h refl)
                λ inventory s' b.
                  flush-Leg p w q inventory (inventory.quantity +ℤ q) s s' b.uncommitted b.changed
                    b.row (omega (int_laws, b.nonneg, n)) refl))
      ]
