-- ===== src/Repositories/Raised.antt =====
-- The errors that the repositories raise.
use Prim.Native.String.{String}
use inventory_management_api.Base.{
  ◌≡◌, refl, sym, subst, ◌⊎◌, Option, none, some, List, arith, inl, inr,
}
use inventory_management_api.Base.Int.{ℤ}
use inventory_management_api.Errors.{Error, app, not_found, integrity, data_error}
use inventory_management_api.Models.{Uuid, Product, Warehouse, Inventory, Movement, Alert}
use inventory_management_api.Session.{Env}
use inventory_management_api.Session.Raises.{
  Raises, AllowsDatabase, raises_rules, Raises-create, Raises-raise,
}
use inventory_management_api.Repositories.Base.{
  Model, get_by_id, get_by_id_or_raise, list_all, page, create,
}
use inventory_management_api.Repositories.Inventories.{
  inventory_model, inventory_violates, movement_model, movement_violates, lock_found,
  get_by_product_and_warehouse, get_by_product_and_warehouse_for_update, list_by_warehouse,
  list_low_stock, flush_quantity,
}
use inventory_management_api.Repositories.Movements.{
  list_movements_by_product, list_movements_by_warehouse,
}
use inventory_management_api.Repositories.Alerts.{
  alert_model, alert_violates, get_active_by_product_and_warehouse, list_active, flush_alert,
}
use inventory_management_api.Repositories.Catalog.{
  product_model, product_violates, warehouse_model, warehouse_violates, get_by_sku, get_by_code,
  list_active_products, search_by_name, list_active_warehouses, flush_product, flush_warehouse,
  reject,
}

module _ {P : Error → Type 0} where
  pub Raises-get :
      {R : Type 0} (m : Model R) (id : Uuid)
      → P (app not_found)
      → Raises P (get_by_id_or_raise m id)
  unfolding get_by_id_or_raise get_by_id
  Raises-get m id p = search raises_rules

  pub Raises-page :
      {A : Type 0} (skip limit : ℤ) (rows : List A) → P data_error → Raises P (page skip limit rows)
  Raises-page skip limit rows p = search raises_rules

module _ ⦃env : Env⦄ {P : Error → Type 0} (db : AllowsDatabase P) where
  pub Raises-list_all :
      {R : Type 0} (m : Model R) (skip limit : ℤ) → Raises P (list_all m skip limit)
  unfolding list_all
  Raises-list_all m skip limit = search (raises_rules, Raises-page, db.data_error)

  of_database : (e : Error) → (e ≡ integrity) ⊎ (e ≡ data_error) → P e
  of_database e (inl h) = subst P (sym h) db.integrity
  of_database e (inr h) = subst P (sym h) db.data_error

  pub Raises-new_product : (r : Product) → Raises P (create product_model r)
  unfolding product_violates
  Raises-new_product r =
      Raises-create product_model r db.integrity λ t e h. of_database e (ground arith)

  pub Raises-new_warehouse : (r : Warehouse) → Raises P (create warehouse_model r)
  unfolding warehouse_violates
  Raises-new_warehouse r =
      Raises-create warehouse_model r db.integrity λ t e h. of_database e (ground arith)

  pub Raises-new_inventory : (r : Inventory) → Raises P (create inventory_model r)
  unfolding inventory_violates
  Raises-new_inventory r =
      Raises-create inventory_model r db.integrity λ t e h. of_database e (ground arith)

  pub Raises-new_movement : (r : Movement) → Raises P (create movement_model r)
  unfolding movement_violates
  Raises-new_movement r =
      Raises-create movement_model r db.integrity λ t e h. of_database e (ground arith)

  pub Raises-new_alert : (r : Alert) → Raises P (create alert_model r)
  unfolding alert_violates
  Raises-new_alert r =
      Raises-create alert_model r db.integrity λ t e h. of_database e (ground arith)

  Raises-lock_found : (r : Option Inventory) → Raises P (lock_found r)
  Raises-lock_found none = search raises_rules
  Raises-lock_found (some r) = search raises_rules

  pub Raises-find_pair : (p w : Uuid) → Raises P (get_by_product_and_warehouse p w)
  unfolding get_by_product_and_warehouse
  Raises-find_pair p w = search (raises_rules, db.multiple_results)

  pub Raises-find_for_update : (p w : Uuid) → Raises P (get_by_product_and_warehouse_for_update p w)
  unfolding get_by_product_and_warehouse_for_update
  Raises-find_for_update p w = search (raises_rules, db.multiple_results, Raises-lock_found)

  pub Raises-find_alert : (p w : Uuid) → Raises P (get_active_by_product_and_warehouse p w)
  unfolding get_active_by_product_and_warehouse
  Raises-find_alert p w = search (raises_rules, db.multiple_results)

  pub Raises-get_by_sku : (sku : String) → Raises P (get_by_sku sku)
  unfolding get_by_sku
  Raises-get_by_sku sku = search (raises_rules, db.multiple_results)

  pub Raises-get_by_code : (code : String) → Raises P (get_by_code code)
  unfolding get_by_code
  Raises-get_by_code code = search (raises_rules, db.multiple_results)

  pub Raises-stock : (w : Uuid) (skip limit : ℤ) → Raises P (list_by_warehouse w skip limit)
  unfolding list_by_warehouse
  Raises-stock w skip limit = search (raises_rules, Raises-page, db.data_error)

  pub Raises-low : (skip limit : ℤ) → Raises P (list_low_stock skip limit)
  unfolding list_low_stock
  Raises-low skip limit = search (raises_rules, Raises-page, db.data_error)

  pub Raises-trail :
      (id : Uuid) (skip limit : ℤ) → Raises P (list_movements_by_product id skip limit)
  unfolding list_movements_by_product
  Raises-trail id skip limit = search (raises_rules, Raises-page, db.data_error)

  pub Raises-trail_of :
      (id : Uuid) (skip limit : ℤ) → Raises P (list_movements_by_warehouse id skip limit)
  unfolding list_movements_by_warehouse
  Raises-trail_of id skip limit = search (raises_rules, Raises-page, db.data_error)

  pub Raises-alerts : (skip limit : ℤ) → Raises P (list_active skip limit)
  unfolding list_active
  Raises-alerts skip limit = search (raises_rules, Raises-page, db.data_error)

  pub Raises-products : (skip limit : ℤ) → Raises P (list_active_products skip limit)
  unfolding list_active_products
  Raises-products skip limit = search (raises_rules, Raises-page, db.data_error)

  pub Raises-search : (q : String) (skip limit : ℤ) → Raises P (search_by_name q skip limit)
  unfolding search_by_name
  Raises-search q skip limit = search (raises_rules, Raises-page, db.data_error)

  pub Raises-warehouses : (skip limit : ℤ) → Raises P (list_active_warehouses skip limit)
  unfolding list_active_warehouses
  Raises-warehouses skip limit = search (raises_rules, Raises-page, db.data_error)

  pub Raises-flush_quantity : (r : Inventory) (v : ℤ) → Raises P (flush_quantity r v)
  unfolding flush_quantity
  Raises-flush_quantity r v = search (raises_rules, db.data_error)

  pub Raises-flush_alert : (a : Alert) → Raises P (flush_alert a)
  unfolding flush_alert
  Raises-flush_alert a = search (raises_rules, db.data_error)

  -- What a column refuses is an error of the database.
  pub Raises-reject :
      (fault : Option Error)
      → ((e : Error) → fault ≡ some e → (e ≡ integrity) ⊎ (e ≡ data_error))
      → Raises P (reject fault)
  Raises-reject none h = search raises_rules
  Raises-reject (some e) h = Raises-raise e (of_database e (h e refl))

  pub Raises-flush_product :
      (fault : Option Error) (r : Product)
      → ((e : Error) → fault ≡ some e → (e ≡ integrity) ⊎ (e ≡ data_error))
      → Raises P (flush_product fault r)
  unfolding flush_product
  Raises-flush_product fault r h = search (raises_rules, db.integrity, Raises-reject)

  pub Raises-flush_warehouse :
      (fault : Option Error) (r : Warehouse)
      → ((e : Error) → fault ≡ some e → (e ≡ integrity) ⊎ (e ≡ data_error))
      → Raises P (flush_warehouse fault r)
  unfolding flush_warehouse
  Raises-flush_warehouse fault r h = search (raises_rules, db.integrity, Raises-reject)
