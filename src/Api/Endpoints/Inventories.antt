-- ===== src/Api/Endpoints/Inventories.antt =====
-- app/api/v1/endpoints/inventory.py
use inventory_management_api.Base.{Bool, Option, none, some, List, if◌then◌else◌}
use inventory_management_api.Base.Int.{ℤ}
use inventory_management_api.Models.{Uuid, Inventory, Movement}
use inventory_management_api.Schemas.Movement.{MovementCreate}
use inventory_management_api.Session.{Env, Action}
use inventory_management_api.Services.Command.{record_movement}
use inventory_management_api.Services.Query.{
  get_stock_level, list_warehouse_stock, list_low_stock_rows, list_all_stock,
}

module _ ⦃env : Env⦄ where
  -- `list_inventory`
  unfoldable pub list_inventory_endpoint :
      (skip limit : ℤ) → Option Uuid → (low_stock_only : Bool) → Action (List Inventory)
  list_inventory_endpoint skip limit (some warehouse_id) low_stock_only =
      list_warehouse_stock warehouse_id skip limit
  list_inventory_endpoint skip limit none low_stock_only =
      if low_stock_only then list_low_stock_rows skip limit else list_all_stock skip limit

  -- `get_stock_level`
  unfoldable pub get_stock_level_endpoint : (product_id warehouse_id : Uuid) → Action Inventory
  get_stock_level_endpoint product_id warehouse_id = get_stock_level product_id warehouse_id

  -- `record_movement`: the user who performs it is not passed on.
  unfoldable pub record_movement_endpoint : MovementCreate → Action Movement
  record_movement_endpoint payload = record_movement payload none
