-- ===== src/Services/Raised.antt =====
-- The errors that the services raise: those of the database, and of the domain exceptions just those
-- that each method documents.
use Prim.Native.String.{String}
use inventory_management_api.Base.{◌≡◌, ◌⊎◌, Bool, Option, none, some, arith}
use inventory_management_api.Base.Int.{ℤ}
use inventory_management_api.Errors.{Error, app, not_found, conflict, integrity, data_error}
use inventory_management_api.Models.{Uuid, Product, Warehouse, Inventory, Alert}
use inventory_management_api.Schemas.Catalog.{
  ProductCreate, ProductUpdate, WarehouseCreate, WarehouseUpdate,
}
use inventory_management_api.Session.{Env}
use inventory_management_api.Session.Raises.{Raises, AllowsDatabase, raises_rules}
use inventory_management_api.Repositories.Catalog.{product_model, warehouse_model}
use inventory_management_api.Repositories.Raised.{
  Raises-get, Raises-list_all, Raises-new_product, Raises-new_warehouse, Raises-new_alert,
  Raises-find_pair, Raises-find_alert, Raises-get_by_sku, Raises-get_by_code, Raises-products,
  Raises-search, Raises-warehouses, Raises-flush_alert, Raises-flush_product,
  Raises-flush_warehouse,
}
use inventory_management_api.Services.Product.{
  refuse_sku, create_product, get_product, list_products, search_products, check_new_sku,
  update_product, deactivate_product, product_fault,
}
use inventory_management_api.Services.Warehouse.{
  refuse_code, create_warehouse, get_warehouse, list_warehouses, check_new_code, update_warehouse,
  deactivate_warehouse, warehouse_fault,
}
use inventory_management_api.Services.Alert.{
  enqueue_notification, react_to_alert, resolve, recover, escalate, raise_alert, alarm,
  evaluate_stock_level, resolve_alert,
}
use inventory_management_api.Services.Query.{get_stock_level}

module _ ⦃env : Env⦄ {P : Error → Type 0} (db : AllowsDatabase P) where
  Raises-refuse_sku : (sku : String) → P (app conflict) → Raises P (refuse_sku sku)
  unfolding refuse_sku
  Raises-refuse_sku sku p = search (raises_rules, Raises-get_by_sku)

  pub Raises-create_product : (d : ProductCreate) → P (app conflict) → Raises P (create_product d)
  unfolding create_product
  Raises-create_product d p = search (raises_rules, Raises-refuse_sku, Raises-new_product)

  Raises-check_new_sku :
      (sku : Option String) (r : Product) → P (app conflict) → Raises P (check_new_sku sku r)
  unfolding check_new_sku
  Raises-check_new_sku none r p = search raises_rules
  Raises-check_new_sku (some sku) r p = search (raises_rules, Raises-refuse_sku)

  product_fault_lem :
      (d : ProductUpdate) (e : Error)
      → product_fault d ≡ some e
      → (e ≡ integrity) ⊎ (e ≡ data_error)
  unfolding product_fault
  product_fault_lem d e h = ground arith

  pub Raises-update_product :
      (id : Uuid) (d : ProductUpdate)
      → P (app not_found)
      → P (app conflict)
      → Raises P (update_product id d)
  unfolding update_product
  Raises-update_product id d p q =
      search
        (raises_rules, Raises-get, Raises-check_new_sku, Raises-flush_product, product_fault_lem)

  no_fault : (e : Error) → none ≡ some e → (e ≡ integrity) ⊎ (e ≡ data_error)
  no_fault e h = absurd (cc h)

  pub Raises-deactivate_product : (id : Uuid) → P (app not_found) → Raises P (deactivate_product id)
  unfolding deactivate_product
  Raises-deactivate_product id p = search (raises_rules, Raises-get, Raises-flush_product, no_fault)

  pub Raises-list_products :
      (skip limit : ℤ) (active : Bool) → Raises P (list_products skip limit active)
  unfolding list_products
  Raises-list_products skip limit active = search (raises_rules, Raises-products, Raises-list_all)

  pub Raises-search_products :
      (query : String) (skip limit : ℤ) → Raises P (search_products query skip limit)
  unfolding search_products
  Raises-search_products query skip limit = Raises-search db query skip limit

  pub Raises-get_product : (id : Uuid) → P (app not_found) → Raises P (get_product id)
  unfolding get_product
  Raises-get_product id p = Raises-get product_model id p

  Raises-refuse_code : (code : String) → P (app conflict) → Raises P (refuse_code code)
  unfolding refuse_code
  Raises-refuse_code code p = search (raises_rules, Raises-get_by_code)

  pub Raises-create_warehouse :
      (d : WarehouseCreate) → P (app conflict) → Raises P (create_warehouse d)
  unfolding create_warehouse
  Raises-create_warehouse d p = search (raises_rules, Raises-refuse_code, Raises-new_warehouse)

  Raises-check_new_code :
      (code : Option String) (r : Warehouse) → P (app conflict) → Raises P (check_new_code code r)
  unfolding check_new_code
  Raises-check_new_code none r p = search raises_rules
  Raises-check_new_code (some code) r p = search (raises_rules, Raises-refuse_code)

  warehouse_fault_lem :
      (d : WarehouseUpdate) (e : Error)
      → warehouse_fault d ≡ some e
      → (e ≡ integrity) ⊎ (e ≡ data_error)
  unfolding warehouse_fault
  warehouse_fault_lem d e h = ground arith

  pub Raises-update_warehouse :
      (id : Uuid) (d : WarehouseUpdate)
      → P (app not_found)
      → P (app conflict)
      → Raises P (update_warehouse id d)
  unfolding update_warehouse
  Raises-update_warehouse id d p q =
      search (
        raises_rules, Raises-get, Raises-check_new_code, Raises-flush_warehouse,
        warehouse_fault_lem,
      )

  pub Raises-deactivate_warehouse :
      (id : Uuid) → P (app not_found) → Raises P (deactivate_warehouse id)
  unfolding deactivate_warehouse
  Raises-deactivate_warehouse id p =
      search (raises_rules, Raises-get, Raises-flush_warehouse, no_fault)

  pub Raises-list_warehouses :
      (skip limit : ℤ) (active : Bool) → Raises P (list_warehouses skip limit active)
  unfolding list_warehouses
  Raises-list_warehouses skip limit active =
      search (raises_rules, Raises-warehouses, Raises-list_all)

  pub Raises-get_warehouse : (id : Uuid) → P (app not_found) → Raises P (get_warehouse id)
  unfolding get_warehouse
  Raises-get_warehouse id p = Raises-get warehouse_model id p

  pub Raises-get_stock_level : (p w : Uuid) → P (app not_found) → Raises P (get_stock_level p w)
  unfolding get_stock_level
  Raises-get_stock_level p w h = search (raises_rules, Raises-find_pair)

  Raises-enqueue : (a : Alert) → Raises P (enqueue_notification a)
  unfolding enqueue_notification
  Raises-enqueue a = record { at = λ s. record { outcome = tt } }

  Raises-react : (a : Alert) → Raises P (react_to_alert a)
  unfolding react_to_alert
  Raises-react a = search (raises_rules, Raises-enqueue)

  pub Raises-resolve : (a : Alert) → Raises P (resolve a)
  unfolding resolve
  Raises-resolve a = search raises_rules

  Raises-recover : (a : Option Alert) → Raises P (recover a)
  unfolding recover
  Raises-recover none = search raises_rules
  Raises-recover (some a) = search (raises_rules, Raises-resolve)

  Raises-escalate : (r : Inventory) (a : Alert) → Raises P (escalate r a)
  unfolding escalate
  Raises-escalate r a = search (raises_rules, Raises-flush_alert, Raises-react)

  Raises-raise_alert : (r : Inventory) → Raises P (raise_alert r)
  unfolding raise_alert
  Raises-raise_alert r = search (raises_rules, Raises-new_alert, Raises-react)

  Raises-alarm : (r : Inventory) (a : Option Alert) → Raises P (alarm r a)
  unfolding alarm
  Raises-alarm r none = search (raises_rules, Raises-raise_alert)
  Raises-alarm r (some a) = search (raises_rules, Raises-escalate)

  -- Not even a lookup of the alert service has a domain exception.
  pub Raises-evaluate : (r : Inventory) → Raises P (evaluate_stock_level r)
  unfolding evaluate_stock_level
  Raises-evaluate r = search (raises_rules, Raises-find_alert, Raises-recover, Raises-alarm)

  pub Raises-resolve_alert :
      (id : Uuid) → P (app not_found) → P (app conflict) → Raises P (resolve_alert id)
  unfolding resolve_alert
  Raises-resolve_alert id p q = search (raises_rules, Raises-get, Raises-resolve)
