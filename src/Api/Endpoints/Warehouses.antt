-- ===== src/Api/Endpoints/Warehouses.antt =====
-- app/api/v1/endpoints/warehouses.py
use inventory_management_api.Base.{Bool, List}
use inventory_management_api.Base.Int.{ℤ}
use inventory_management_api.Models.{Uuid, Warehouse}
use inventory_management_api.Schemas.Catalog.{WarehouseCreate, WarehouseUpdate}
use inventory_management_api.Session.{Env, Action}
use inventory_management_api.Services.Warehouse.{
  create_warehouse, get_warehouse, list_warehouses, update_warehouse, deactivate_warehouse,
}

module _ ⦃env : Env⦄ where
  -- `list_warehouses`
  unfoldable pub list_warehouses_endpoint :
      (skip limit : ℤ) → (active_only : Bool) → Action (List Warehouse)
  list_warehouses_endpoint skip limit active_only = list_warehouses skip limit active_only

  -- `get_warehouse`
  unfoldable pub get_warehouse_endpoint : Uuid → Action Warehouse
  get_warehouse_endpoint warehouse_id = get_warehouse warehouse_id

  -- `create_warehouse`
  unfoldable pub create_warehouse_endpoint : WarehouseCreate → Action Warehouse
  create_warehouse_endpoint payload = create_warehouse payload

  -- `update_warehouse`
  unfoldable pub update_warehouse_endpoint : Uuid → WarehouseUpdate → Action Warehouse
  update_warehouse_endpoint warehouse_id payload = update_warehouse warehouse_id payload

  -- `deactivate_warehouse`
  unfoldable pub deactivate_warehouse_endpoint : Uuid → Action Warehouse
  deactivate_warehouse_endpoint warehouse_id = deactivate_warehouse warehouse_id
