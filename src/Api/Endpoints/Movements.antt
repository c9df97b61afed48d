-- ===== src/Api/Endpoints/Movements.antt =====
-- app/api/v1/endpoints/movements.py
use inventory_management_api.Base.{Option, none, some, List}
use inventory_management_api.Base.Int.{ℤ}
use inventory_management_api.Models.{Uuid, Movement}
use inventory_management_api.Session.{Env, Action}
use inventory_management_api.Repositories.Base.{get_by_id_or_raise, list_all}
use inventory_management_api.Repositories.Inventories.{movement_model}
use inventory_management_api.Repositories.Movements.{
  list_movements_by_product, list_movements_by_warehouse,
}

module _ ⦃env : Env⦄ where
  -- `list_movements`
  unfoldable pub list_movements_endpoint :
      (skip limit : ℤ) → (product_id warehouse_id : Option Uuid) → Action (List Movement)
  list_movements_endpoint skip limit (some product_id) warehouse_id =
      list_movements_by_product product_id skip limit
  list_movements_endpoint skip limit none (some warehouse_id) =
      list_movements_by_warehouse warehouse_id skip limit
  list_movements_endpoint skip limit none none = list_all movement_model skip limit

  -- `get_movement`
  unfoldable pub get_movement_endpoint : Uuid → Action Movement
  get_movement_endpoint movement_id = get_by_id_or_raise movement_model movement_id
