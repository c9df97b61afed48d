-- ===== src/Repositories/Inventories.antt =====
-- app/repositories/inventory.py and app/repositories/movement.py, over the constraints of
-- app/models/inventory.py and app/models/movement.py.
use inventory_management_api.Base.{
  ⊤, Bool, true, false, not, ◌&&◌, Option, none, some, List, ◌∷◌, [], ◌==◌, if◌then◌else◌,
}
use inventory_management_api.Base.Int.{ℤ, leb_ℤ}
use inventory_management_api.Base.Rows.{any, count_rows}
use inventory_management_api.Errors.{Error, integrity, data_error}
use inventory_management_api.Models.{Uuid, Product, Warehouse, Inventory, Movement, Tables, of_pair}
use inventory_management_api.Session.{
  Env, Action, pure, read, raise_if, write, lock, one_or_none, select, fits, ◌>>=◌, ◌>>◌,
}
use inventory_management_api.Repositories.Base.{Model, page}

-- `ForeignKey("products.id")` and `ForeignKey("warehouses.id")`
abbrev pub product_exists : Uuid → Tables → Bool
product_exists p t = any (λ (r : Product). r.id == p) t.products

abbrev pub warehouse_exists : Uuid → Tables → Bool
warehouse_exists w t = any (λ (r : Warehouse). r.id == w) t.warehouses

abbrev pub optional_warehouse_exists : Option Uuid → Tables → Bool
optional_warehouse_exists none t = true
optional_warehouse_exists (some w) t = warehouse_exists w t

-- `with_for_update()` locks the row that the query finds, if it finds one.
abbrev pub lock_found : Option Inventory → Action ⊤
lock_found none = pure tt
lock_found (some r) = lock (r.product_id, r.warehouse_id)

-- `low_stock_threshold IS NOT NULL AND quantity <= low_stock_threshold`
abbrev pub below_own_threshold : Inventory → Bool
below_own_threshold r = elim r.low_stock_threshold [ none ↦ false | some n ↦ leb_ℤ r.quantity n ]

-- UPDATE inventories SET quantity = v WHERE id = i
abbrev pub set_quantity : Uuid → ℤ → List Inventory → List Inventory
set_quantity i v [] = []
set_quantity i v (r ∷ rs) =
    (if r.id == i then record r { quantity = v } else r) ∷ set_quantity i v rs

module _ ⦃env : Env⦄ where
  -- An optional value of an Integer column.
  abbrev pub optional_fits : Option ℤ → Bool
  optional_fits none = true
  optional_fits (some n) = fits n

  -- `uq_inventory_product_warehouse`, the foreign keys and the Integer columns.
  unfoldable pub inventory_violates : Inventory → Tables → Option Error
  inventory_violates r t =
      if any (of_pair r.product_id r.warehouse_id) t.inventories
      then some integrity
      else if product_exists r.product_id t && warehouse_exists r.warehouse_id t
      then (if fits r.quantity && optional_fits r.low_stock_threshold
          then none
          else some data_error)
      else some integrity

  abbrev pub inventory_model : Model Inventory
  inventory_model = record {
    rows = λ t. t.inventories;
    with_rows = λ rs t. record t { inventories = rs };
    id = λ r. r.id;
    violates = inventory_violates;
  }

  -- The foreign keys and the Integer column of a movement.
  unfoldable pub movement_violates : Movement → Tables → Option Error
  movement_violates m t =
      if product_exists m.product_id t
        && optional_warehouse_exists m.source_warehouse_id t
        && optional_warehouse_exists m.destination_warehouse_id t
      then (if fits m.quantity then none else some data_error)
      else some integrity

  abbrev pub movement_model : Model Movement
  movement_model = record {
    rows = λ t. t.movements;
    with_rows = λ rs t. record t { movements = rs };
    id = λ r. r.id;
    violates = movement_violates;
  }

  -- `InventoryRepository.get_by_product_and_warehouse`
  unfoldable pub get_by_product_and_warehouse : Uuid → Uuid → Action (Option Inventory)
  get_by_product_and_warehouse product_id warehouse_id = do
    rows ← read (λ t. t.inventories)
    one_or_none (count_rows (select (of_pair product_id warehouse_id) rows))

  -- `InventoryRepository.get_by_product_and_warehouse_for_update`
  unfoldable pub get_by_product_and_warehouse_for_update : Uuid → Uuid → Action (Option Inventory)
  get_by_product_and_warehouse_for_update product_id warehouse_id = do
    rows ← read (λ t. t.inventories)
    inventory ← one_or_none (count_rows (select (of_pair product_id warehouse_id) rows))
    lock_found inventory
    pure inventory

  -- `InventoryRepository.list_by_warehouse`
  unfoldable pub list_by_warehouse : Uuid → (skip limit : ℤ) → Action (List Inventory)
  list_by_warehouse warehouse_id skip limit = do
    rows ← read (λ t. t.inventories)
    page skip limit (select (λ (r : Inventory). r.warehouse_id == warehouse_id) rows)

  -- `InventoryRepository.list_low_stock`
  unfoldable pub list_low_stock : (skip limit : ℤ) → Action (List Inventory)
  list_low_stock skip limit = do
    rows ← read (λ t. t.inventories)
    page skip limit (select below_own_threshold rows)

  -- `inventory.quantity = v; await session.flush()`
  unfoldable pub flush_quantity : Inventory → ℤ → Action Inventory
  flush_quantity inventory v = do
    raise_if (not (fits v)) data_error
    write (λ t. record t { inventories = set_quantity inventory.id v t.inventories })
    pure (record inventory { quantity = v })
