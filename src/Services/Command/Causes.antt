-- ===== src/Services/Command/Causes.antt =====
-- Why a leg of a movement is refused: on every branch, just where the ledger says so.
use inventory_management_api.Base.{
  ◌≡◌, refl, ◌⊎◌, inl, inr, Bool, true, false, ◌&&◌, Option, none, some, arith, Bool-cases,
  Option-cases,
}
use inventory_management_api.Base.Int.{ℤ, pos, ◌≤ℤ◌, leb_ℤ, ltb_ℤ, ◌+ℤ◌, ◌-ℤ◌}
use inventory_management_api.Base.Rows.{find?, any-eq-find, any-find-some}
use inventory_management_api.Errors.{Error, Result, app, not_found, insufficient_stock}
use inventory_management_api.Models.{Uuid, Inventory, of_pair}
use inventory_management_api.Session.{Env, Action, World, raise_if, or_raise, ◌>>=◌, ◌>>◌}
use inventory_management_api.Session.Ends.{
  Ends, Ends-ok, Ends-err, Ends-map, raise_if-raises, raise_if-passes,
}
use inventory_management_api.Session.Raises.{Raises, raises_rules}
use inventory_management_api.Session.Atomic.{IsInternal}
use inventory_management_api.Repositories.Base.{has_id}
use inventory_management_api.Repositories.Base.Lookup.{get_or_raise_missing, get_or_raise_found}
use inventory_management_api.Repositories.Catalog.{warehouse_model}
use inventory_management_api.Repositories.Raised.{
  Raises-find_for_update, Raises-new_inventory, Raises-flush_quantity,
}
use inventory_management_api.Repositories.Inventories.{
  warehouse_exists, flush_quantity, get_by_product_and_warehouse_for_update,
}
use inventory_management_api.Stock.{stock, IsStocked}
use inventory_management_api.Stock.Laws.{stock-eq-zero, stock-eq-quantity}
use inventory_management_api.Services.Atomic.{database_IsInternal}
use inventory_management_api.Services.Command.{found_or_new, increase_stock, decrease_stock}
use inventory_management_api.Services.Command.Changes.{for_update_lem, locked}

-- A domain exception of a movement.
abbrev pub IsRefusal : Error → Type 0
IsRefusal e = (e ≡ app not_found) ⊎ (e ≡ app insufficient_stock)

-- The action returns only where the test holds, and raises a domain exception only where it fails.
abbrev pub Decides : {A : Type 0} → Bool → Result A × World → Type 0
Decides test r = Ends (λ _ _. test ≡ true) (λ e _. IsInternal e ⊎ (IsRefusal e × (test ≡ false))) r

abbrev pub knows : Uuid → World → Bool
knows w s = warehouse_exists w s.session

abbrev pub enough : Uuid → Uuid → ℤ → World → Bool
enough p w q s = leb_ℤ q (stock s.session.inventories p w)

pub Decides-internal :
    {A : Type 0} (test : Bool) (act : Action A) (s : World)
    → Raises IsInternal act
    → test ≡ true
    → Decides test (act s)
Decides-internal test act s h e = Ends-map (act s) (h.at s) (λ a s' _. e) (λ x s' i. inl i)

module _ ⦃env : Env⦄ where
  Raises-found_or_new : (p w : Uuid) (o : Option Inventory) → Raises IsInternal (found_or_new p w o)
  unfolding found_or_new
  Raises-found_or_new p w none = search (raises_rules, Raises-new_inventory, database_IsInternal)
  Raises-found_or_new p w (some r) = search raises_rules

  -- What follows the lookup of the warehouse.
  abbrev put_in : Uuid → Uuid → ℤ → Action Inventory
  put_in p w q = do
    existing ← get_by_product_and_warehouse_for_update p w
    inventory ← found_or_new p w existing
    flush_quantity inventory (inventory.quantity +ℤ q)

  Raises-put_in : (p w : Uuid) (q : ℤ) → Raises IsInternal (put_in p w q)
  Raises-put_in p w q = search (
    raises_rules, Raises-find_for_update, Raises-found_or_new, Raises-flush_quantity,
    database_IsInternal,
  )

  pub increase_stock-Decides :
      (p w : Uuid) (q : ℤ) (s : World) → Decides (knows w s) (increase_stock p w q s)
  unfolding increase_stock
  increase_stock-Decides p w q s =
      elim (Option-cases (find? (has_id warehouse_model w) s.session.warehouses)) [
        | inl e ↦
            Ends-err _ _ s _ s (get_or_raise_missing warehouse_model w s e)
              (inr (inl refl, any-eq-find _ s.session.warehouses e))
        | inr (x, e) ↦ Ends-ok _ _ s x s (get_or_raise_found warehouse_model w s x e) (
            Decides-internal (knows w s) (put_in p w q) s (Raises-put_in p w q)
              (any-find-some _ s.session.warehouses x e))
      ]

  pub decrease_stock-Decides :
      (p w : Uuid) (q : ℤ) (s : World)
      → pos 1 ≤ℤ q
      → IsStocked s.session.inventories
      → Decides (knows w s && enough p w q s) (decrease_stock p w q s)
  unfolding decrease_stock
  decrease_stock-Decides p w q s positive h =
      elim (Option-cases (find? (has_id warehouse_model w) s.session.warehouses)) [
        | inl e ↦ Ends-err _ _ s _ s (get_or_raise_missing warehouse_model w s e) (
            inr (
              inl refl,
              ground (arith, any-eq-find (has_id warehouse_model w) s.session.warehouses e),
            ))
        | inr (x, e) ↦ Ends-ok _ _ s x s (get_or_raise_found warehouse_model w s x e) (
            Ends-ok _ _ s _ _ (for_update_lem p w s h) (
              take_out (any-find-some _ s.session.warehouses x e)
                (find? (of_pair p w) s.session.inventories) refl))
      ]
    where
      take_out :
          knows w s ≡ true
          → (o : Option Inventory) → find? (of_pair p w) s.session.inventories ≡ o
          → Decides (knows w s && enough p w q s) (
              (or_raise o (app not_found) >>= λ inventory.
              raise_if (ltb_ℤ inventory.quantity q) (app insufficient_stock)
              >> flush_quantity inventory (inventory.quantity -ℤ q))
                (record s { locks = locked o s.locks }))
      take_out k none e = Ends-err _ _ _ _ _ refl (
          inr (
            inl refl,
            rw (k, stock-eq-zero s.session.inventories p w (any-eq-find _ s.session.inventories e))
                (ground arith),
          ))
      take_out k (some x) e = Ends-ok _ _ _ x _ refl (elim (Bool-cases (ltb_ℤ x.quantity q)) [
        | inl y ↦ Ends-err _ _ _ _ _ (raise_if-raises _ _ _ y) (
            inr (
              inr refl,
              rw (k, stock-eq-quantity s.session.inventories p w x h.pairs e) (ground arith),
            ))
        | inr y ↦ Ends-ok _ _ _ _ _ (raise_if-passes _ _ _ y) (
            Decides-internal (knows w s && enough p w q s) _ _
              (Raises-flush_quantity database_IsInternal x (x.quantity -ℤ q))
              (rw (k, stock-eq-quantity s.session.inventories p w x h.pairs e) (ground arith)))
      ])
