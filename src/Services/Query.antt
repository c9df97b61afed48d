-- ===== src/Services/Query.antt =====
-- app/services/inventory_query.py: the read side of the inventory.
pub mod LowStock
use inventory_management_api.Base.{List}
use inventory_management_api.Base.Int.{ℤ}
use inventory_management_api.Errors.{app, not_found}
use inventory_management_api.Models.{Uuid, Inventory}
use inventory_management_api.Session.{Env, Action, or_raise, ◌>>=◌}
use inventory_management_api.Repositories.Base.{list_all}
use inventory_management_api.Repositories.Inventories as Inventories

module _ ⦃env : Env⦄ where
  -- `InventoryQueryService.get_stock_level`
  unfoldable pub get_stock_level : (product_id warehouse_id : Uuid) → Action Inventory
  get_stock_level product_id warehouse_id = do
    inventory ← Inventories.get_by_product_and_warehouse product_id warehouse_id
    or_raise inventory (app not_found)

  -- `InventoryQueryService.list_warehouse_stock`
  unfoldable pub list_warehouse_stock : Uuid → (skip limit : ℤ) → Action (List Inventory)
  list_warehouse_stock warehouse_id skip limit =
      Inventories.list_by_warehouse warehouse_id skip limit

  -- `InventoryQueryService.list_low_stock`
  unfoldable pub list_low_stock_rows : (skip limit : ℤ) → Action (List Inventory)
  list_low_stock_rows skip limit = Inventories.list_low_stock skip limit

  -- `InventoryQueryService.list_all_stock`
  unfoldable pub list_all_stock : (skip limit : ℤ) → Action (List Inventory)
  list_all_stock skip limit = list_all Inventories.inventory_model skip limit
