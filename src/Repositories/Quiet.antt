-- ===== src/Repositories/Quiet.antt =====
-- The repositories never commit.
use Prim.Native.String.{String}
use inventory_management_api.Base.{Option, none, some, List}
use inventory_management_api.Base.Int.{ℤ}
use inventory_management_api.Errors.{Error}
use inventory_management_api.Models.{Uuid, Product, Warehouse, Inventory}
use inventory_management_api.Session.{Env, World}
use inventory_management_api.Session.Atomic.{Quiet, quiet_rules}
use inventory_management_api.Repositories.Base.{
  Model, get_by_id, get_by_id_or_raise, list_all, page,
}
use inventory_management_api.Repositories.Inventories.{
  lock_found, get_by_product_and_warehouse, get_by_product_and_warehouse_for_update,
  list_by_warehouse, list_low_stock, flush_quantity,
}
use inventory_management_api.Repositories.Movements.{
  list_movements_by_product, list_movements_by_warehouse,
}
use inventory_management_api.Repositories.Alerts.{list_active}
use inventory_management_api.Repositories.Catalog.{
  get_by_sku, get_by_code, list_active_products, search_by_name, list_active_warehouses,
  flush_product, flush_warehouse, reject,
}

module _ {o : World} where
  pub Quiet-get : {R : Type 0} (m : Model R) (id : Uuid) → Quiet o (get_by_id_or_raise m id)
  unfolding get_by_id_or_raise get_by_id
  Quiet-get m id = search quiet_rules

  Quiet-page : {A : Type 0} (skip limit : ℤ) (rows : List A) → Quiet o (page skip limit rows)
  Quiet-page skip limit rows = search quiet_rules

  Quiet-lock_found : (r : Option Inventory) → Quiet o (lock_found r)
  Quiet-lock_found none = search quiet_rules
  Quiet-lock_found (some r) = search quiet_rules

  Quiet-reject : (fault : Option Error) → Quiet o (reject fault)
  Quiet-reject none = search quiet_rules
  Quiet-reject (some e) = search quiet_rules

  pub Quiet-flush_product : (fault : Option Error) (r : Product) → Quiet o (flush_product fault r)
  unfolding flush_product
  Quiet-flush_product fault r = search (quiet_rules, Quiet-reject)

  pub Quiet-flush_warehouse :
      (fault : Option Error) (r : Warehouse) → Quiet o (flush_warehouse fault r)
  unfolding flush_warehouse
  Quiet-flush_warehouse fault r = search (quiet_rules, Quiet-reject)

module _ ⦃env : Env⦄ {o : World} where
  pub Quiet-list_all : {R : Type 0} (m : Model R) (skip limit : ℤ) → Quiet o (list_all m skip limit)
  unfolding list_all
  Quiet-list_all m skip limit = search (quiet_rules, Quiet-page)

  pub Quiet-find_pair : (p w : Uuid) → Quiet o (get_by_product_and_warehouse p w)
  unfolding get_by_product_and_warehouse
  Quiet-find_pair p w = search quiet_rules

  pub Quiet-find_for_update : (p w : Uuid) → Quiet o (get_by_product_and_warehouse_for_update p w)
  unfolding get_by_product_and_warehouse_for_update
  Quiet-find_for_update p w = search (quiet_rules, Quiet-lock_found)

  pub Quiet-flush_quantity : (r : Inventory) (v : ℤ) → Quiet o (flush_quantity r v)
  unfolding flush_quantity
  Quiet-flush_quantity r v = search quiet_rules

  pub Quiet-get_by_sku : (sku : String) → Quiet o (get_by_sku sku)
  unfolding get_by_sku
  Quiet-get_by_sku sku = search quiet_rules

  pub Quiet-get_by_code : (code : String) → Quiet o (get_by_code code)
  unfolding get_by_code
  Quiet-get_by_code code = search quiet_rules

  pub Quiet-stock : (w : Uuid) (skip limit : ℤ) → Quiet o (list_by_warehouse w skip limit)
  unfolding list_by_warehouse
  Quiet-stock w skip limit = search (quiet_rules, Quiet-page)

  pub Quiet-low : (skip limit : ℤ) → Quiet o (list_low_stock skip limit)
  unfolding list_low_stock
  Quiet-low skip limit = search (quiet_rules, Quiet-page)

  pub Quiet-trail : (id : Uuid) (skip limit : ℤ) → Quiet o (list_movements_by_product id skip limit)
  unfolding list_movements_by_product
  Quiet-trail id skip limit = search (quiet_rules, Quiet-page)

  pub Quiet-trail_of :
      (id : Uuid) (skip limit : ℤ) → Quiet o (list_movements_by_warehouse id skip limit)
  unfolding list_movements_by_warehouse
  Quiet-trail_of id skip limit = search (quiet_rules, Quiet-page)

  pub Quiet-alerts : (skip limit : ℤ) → Quiet o (list_active skip limit)
  unfolding list_active
  Quiet-alerts skip limit = search (quiet_rules, Quiet-page)

  pub Quiet-products : (skip limit : ℤ) → Quiet o (list_active_products skip limit)
  unfolding list_active_products
  Quiet-products skip limit = search (quiet_rules, Quiet-page)

  pub Quiet-search : (q : String) (skip limit : ℤ) → Quiet o (search_by_name q skip limit)
  unfolding search_by_name
  Quiet-search q skip limit = search (quiet_rules, Quiet-page)

  pub Quiet-warehouses : (skip limit : ℤ) → Quiet o (list_active_warehouses skip limit)
  unfolding list_active_warehouses
  Quiet-warehouses skip limit = search (quiet_rules, Quiet-page)
