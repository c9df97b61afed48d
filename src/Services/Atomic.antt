-- ===== src/Services/Atomic.antt =====
-- What the services commit: the queries nothing, and the commands nothing that they then refuse.
use Prim.Native.String.{String}
use inventory_management_api.Base.{refl, Bool, Option, none, some}
use inventory_management_api.Base.Int.{ℤ}
use inventory_management_api.Errors.{response_status}
use inventory_management_api.Models.{Uuid, MovementType, Product, Warehouse, Inventory}
use inventory_management_api.Schemas.Catalog.{
  ProductCreate, ProductUpdate, WarehouseCreate, WarehouseUpdate,
}
use inventory_management_api.Schemas.Movement.{MovementCreate}
use inventory_management_api.Session.{Env, World}
use inventory_management_api.Session.Raises.{AllowsDatabase, raises_rules}
use inventory_management_api.Session.Atomic.{
  IsInternal, Quiet, quiet_rules, Atomic, Atomic-late, Atomic-bind, Atomic-then,
}
use inventory_management_api.Repositories.Quiet.{
  Quiet-get, Quiet-list_all, Quiet-find_pair, Quiet-find_for_update, Quiet-flush_quantity,
  Quiet-flush_product, Quiet-flush_warehouse, Quiet-get_by_sku, Quiet-get_by_code, Quiet-products,
  Quiet-warehouses,
}
use inventory_management_api.Services.Raised.{Raises-resolve}
use inventory_management_api.Services.Product.{
  refuse_sku, create_product, list_products, check_new_sku, update_product, deactivate_product,
}
use inventory_management_api.Services.Warehouse.{
  refuse_code, create_warehouse, list_warehouses, check_new_code, update_warehouse,
  deactivate_warehouse,
}
use inventory_management_api.Services.Alert.{resolve_alert}
use inventory_management_api.Services.Command.{
  found_or_new, increase_stock, decrease_stock, transfer_stock, apply_in, apply_out, apply_transfer,
  apply_movement, apply_and_commit, record_movement,
}
use inventory_management_api.Services.Command.Faults.{AllowsChecks, Raises-announce}
use inventory_management_api.Services.Query.{get_stock_level}

pub database_IsInternal : AllowsDatabase IsInternal
unfolding response_status
database_IsInternal = record { integrity = refl; data_error = refl; multiple_results = refl }

pub checks_IsInternal : AllowsChecks IsInternal
unfolding response_status
checks_IsInternal = record { assertion = refl; index_error = refl }

module _ ⦃env : Env⦄ {o : World} where
  Quiet-refuse_sku : (sku : String) → Quiet o (refuse_sku sku)
  unfolding refuse_sku
  Quiet-refuse_sku sku = search (quiet_rules, Quiet-get_by_sku)

  Quiet-check_new_sku : (sku : Option String) (r : Product) → Quiet o (check_new_sku sku r)
  unfolding check_new_sku
  Quiet-check_new_sku none r = search quiet_rules
  Quiet-check_new_sku (some sku) r = search (quiet_rules, Quiet-refuse_sku)

  Quiet-refuse_code : (code : String) → Quiet o (refuse_code code)
  unfolding refuse_code
  Quiet-refuse_code code = search (quiet_rules, Quiet-get_by_code)

  Quiet-check_new_code : (code : Option String) (r : Warehouse) → Quiet o (check_new_code code r)
  unfolding check_new_code
  Quiet-check_new_code none r = search quiet_rules
  Quiet-check_new_code (some code) r = search (quiet_rules, Quiet-refuse_code)

  pub Quiet-list_products :
      (skip limit : ℤ) (active : Bool) → Quiet o (list_products skip limit active)
  unfolding list_products
  Quiet-list_products skip limit active = search (quiet_rules, Quiet-products, Quiet-list_all)

  pub Quiet-list_warehouses :
      (skip limit : ℤ) (active : Bool) → Quiet o (list_warehouses skip limit active)
  unfolding list_warehouses
  Quiet-list_warehouses skip limit active = search (quiet_rules, Quiet-warehouses, Quiet-list_all)

  pub Quiet-get_stock_level : (p w : Uuid) → Quiet o (get_stock_level p w)
  unfolding get_stock_level
  Quiet-get_stock_level p w = search (quiet_rules, Quiet-find_pair)

  pub Atomic-create_product : (d : ProductCreate) → Atomic o (create_product d)
  unfolding create_product
  Atomic-create_product d =
      search (Atomic-bind, Atomic-late, quiet_rules, Quiet-refuse_sku, raises_rules) depth 8

  pub Atomic-update_product : (id : Uuid) (d : ProductUpdate) → Atomic o (update_product id d)
  unfolding update_product
  Atomic-update_product id d =
      search
        (
          Atomic-bind, Atomic-late, quiet_rules, Quiet-get, Quiet-check_new_sku,
          Quiet-flush_product, raises_rules,
        )
        depth 8

  pub Atomic-deactivate_product : (id : Uuid) → Atomic o (deactivate_product id)
  unfolding deactivate_product
  Atomic-deactivate_product id =
      search (Atomic-bind, Atomic-late, quiet_rules, Quiet-get, Quiet-flush_product, raises_rules)
        depth 8

  pub Atomic-create_warehouse : (d : WarehouseCreate) → Atomic o (create_warehouse d)
  unfolding create_warehouse
  Atomic-create_warehouse d =
      search (Atomic-bind, Atomic-late, quiet_rules, Quiet-refuse_code, raises_rules) depth 8

  pub Atomic-update_warehouse : (id : Uuid) (d : WarehouseUpdate) → Atomic o (update_warehouse id d)
  unfolding update_warehouse
  Atomic-update_warehouse id d =
      search
        (
          Atomic-bind, Atomic-late, quiet_rules, Quiet-get, Quiet-check_new_code,
          Quiet-flush_warehouse, raises_rules,
        )
        depth 8

  pub Atomic-deactivate_warehouse : (id : Uuid) → Atomic o (deactivate_warehouse id)
  unfolding deactivate_warehouse
  Atomic-deactivate_warehouse id =
      search (Atomic-bind, Atomic-late, quiet_rules, Quiet-get, Quiet-flush_warehouse, raises_rules)
        depth 8

  pub Atomic-resolve_alert : (id : Uuid) → Atomic o (resolve_alert id)
  unfolding resolve_alert
  Atomic-resolve_alert id =
      search (Atomic-bind, Atomic-late, quiet_rules, Quiet-get, Raises-resolve, database_IsInternal)
        depth 8

  Quiet-found_or_new : (p w : Uuid) (r : Option Inventory) → Quiet o (found_or_new p w r)
  unfolding found_or_new
  Quiet-found_or_new p w none = search quiet_rules
  Quiet-found_or_new p w (some r) = search quiet_rules

  Quiet-increase : (p w : Uuid) (q : ℤ) → Quiet o (increase_stock p w q)
  unfolding increase_stock
  Quiet-increase p w q =
      search
        (quiet_rules, Quiet-get, Quiet-find_for_update, Quiet-found_or_new, Quiet-flush_quantity)

  Quiet-decrease : (p w : Uuid) (q : ℤ) → Quiet o (decrease_stock p w q)
  unfolding decrease_stock
  Quiet-decrease p w q =
      search (quiet_rules, Quiet-get, Quiet-find_for_update, Quiet-flush_quantity)

  Quiet-transfer : (p v w : Uuid) (q : ℤ) → Quiet o (transfer_stock p v w q)
  unfolding transfer_stock
  Quiet-transfer p v w q = search (quiet_rules, Quiet-increase, Quiet-decrease)

  Quiet-apply : (t : MovementType) (d : MovementCreate) → Quiet o (apply_movement t d)
  unfolding apply_movement apply_in apply_out apply_transfer
  Quiet-apply MovementType.in_ d = search (quiet_rules, Quiet-increase)
  Quiet-apply MovementType.out d = search (quiet_rules, Quiet-decrease)
  Quiet-apply MovementType.transfer d = search (quiet_rules, Quiet-transfer)

  Atomic-apply_and_commit :
      (d : MovementCreate) (by : Option Uuid) → Atomic o (apply_and_commit d by)
  unfolding apply_and_commit
  Atomic-apply_and_commit d by =
      search (Atomic-bind, Atomic-late, quiet_rules, Quiet-get, Quiet-apply, raises_rules) depth 10

  pub Atomic-record_movement :
      (d : MovementCreate) (by : Option Uuid) → Atomic o (record_movement d by)
  unfolding record_movement
  Atomic-record_movement d by =
      Atomic-then (apply_and_commit d by) _ (Atomic-apply_and_commit d by)
        λ r. search (raises_rules, Raises-announce, database_IsInternal, checks_IsInternal)
