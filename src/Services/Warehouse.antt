-- ===== src/Services/Warehouse.antt =====
-- app/services/warehouse.py: the list of warehouses. `refresh` reads back the row that the commit
-- before it wrote, which is the row at hand.
pub mod Catalog
pub mod Lifecycle
use Prim.Native.String.{String}
use text.Mathlib.Text.{◌==◌ as str_eq}
use inventory_management_api.Base.{
  ⊤, Bool, true, false, not, ◌&&◌, ◌||◌, Option, none, some, List, if◌then◌else◌, is_some,
}
use inventory_management_api.Base.Int.{ℤ}
use inventory_management_api.Errors.{Error, app, conflict, integrity}
use inventory_management_api.Models.{Uuid, Warehouse}
use inventory_management_api.Schemas.Catalog.{
  WarehouseCreate, WarehouseUpdate, get, is_null, assign, assign_nullable,
}
use inventory_management_api.Session.{Env, Action, pure, raise_if, commit, uuid4, ◌>>=◌, ◌>>◌}
use inventory_management_api.Repositories.Base.{get_by_id_or_raise, create, list_all}
use inventory_management_api.Repositories.Catalog.{
  warehouse_model, get_by_code, list_active_warehouses, flush_warehouse,
}

-- `Warehouse(**payload.model_dump())`, with the defaults of its columns.
unfoldable pub new_warehouse : WarehouseCreate → Uuid → Warehouse
new_warehouse payload id = record {
  id = id;
  code = payload.code;
  name = payload.name;
  address = payload.address;
  is_active = true;
}

-- The loop of `setattr`.
unfoldable pub updated_warehouse : WarehouseUpdate → Warehouse → Warehouse
updated_warehouse payload warehouse = record {
  id = warehouse.id;
  code = assign payload.code warehouse.code;
  name = assign payload.name warehouse.name;
  address = assign_nullable payload.address warehouse.address;
  is_active = assign payload.is_active warehouse.is_active;
}

-- What the flush of the changed columns runs into: a null in a column that is NOT NULL.
unfoldable pub warehouse_fault : WarehouseUpdate → Option Error
warehouse_fault payload =
    if is_null payload.name || is_null payload.code || is_null payload.is_active
    then some integrity
    else none

module _ ⦃env : Env⦄ where
  -- `existing = await self.repository.get_by_code(code)`, and the ConflictError if there is one.
  unfoldable pub refuse_code : String → Action ⊤
  unfolding get_by_code
  refuse_code code = do existing ← get_by_code code; raise_if (is_some existing) (app conflict)

  -- `WarehouseService.create_warehouse`
  unfoldable pub create_warehouse : WarehouseCreate → Action Warehouse
  unfolding refuse_code create commit new_warehouse
  create_warehouse payload = do
    refuse_code payload.code
    id ← uuid4
    warehouse ← create warehouse_model (new_warehouse payload id)
    commit
    pure warehouse

  -- `WarehouseService.get_warehouse`
  unfoldable pub get_warehouse : Uuid → Action Warehouse
  get_warehouse warehouse_id = get_by_id_or_raise warehouse_model warehouse_id

  -- `WarehouseService.list_warehouses`
  unfoldable pub list_warehouses : (skip limit : ℤ) → Bool → Action (List Warehouse)
  list_warehouses skip limit active_only =
      if active_only then list_active_warehouses skip limit else list_all warehouse_model skip limit

  -- `if new_code is not None and new_code != warehouse.code: …`
  unfoldable pub check_new_code : Option String → Warehouse → Action ⊤
  unfolding refuse_code
  check_new_code none warehouse = pure tt
  check_new_code (some new_code) warehouse =
      if not (str_eq new_code warehouse.code) then refuse_code new_code else pure tt

  -- `WarehouseService.update_warehouse`
  unfoldable pub update_warehouse : Uuid → WarehouseUpdate → Action Warehouse
  unfolding check_new_code get_by_id_or_raise flush_warehouse updated_warehouse warehouse_fault
      commit
  update_warehouse warehouse_id payload = do
    warehouse ← get_by_id_or_raise warehouse_model warehouse_id
    check_new_code (get payload.code) warehouse
    flush_warehouse (warehouse_fault payload) (updated_warehouse payload warehouse)
    commit
    pure (updated_warehouse payload warehouse)

-- `WarehouseService.deactivate_warehouse`
unfoldable pub deactivate_warehouse : Uuid → Action Warehouse
unfolding get_by_id_or_raise flush_warehouse commit
deactivate_warehouse warehouse_id = do
  warehouse ← get_by_id_or_raise warehouse_model warehouse_id
  let changed = record warehouse { is_active = false }
  flush_warehouse none changed
  commit
  pure changed
