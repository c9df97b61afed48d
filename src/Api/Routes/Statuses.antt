-- ===== src/Api/Routes/Statuses.antt =====
-- The routes answer with just the statuses that they document.
use Prim.Native.String.{String}
use inventory_management_api.Base.{
  ℕ, ⊤, ◌≡◌, refl, ◌⊎◌, inl, inr, Bool, true, false, Option, none, some, ◌∷◌, ◌==◌, Bool-cases,
}
use inventory_management_api.Base.Int.{ℤ}
use inventory_management_api.Base.Rows.{any}
use inventory_management_api.Errors.{Error, Result, ok, err, response_status, status_code}
use inventory_management_api.Models.{Uuid}
use inventory_management_api.Session.{Env, Action, World, with_session, begin, close}
use inventory_management_api.Session.Ends.{Ends}
use inventory_management_api.Session.Raises.{Raises, AllowsDatabase, raises_rules}
use inventory_management_api.Repositories.Inventories.{movement_model}
use inventory_management_api.Repositories.Alerts.{alert_model}
use inventory_management_api.Repositories.Raised.{
  Raises-get, Raises-list_all, Raises-stock, Raises-low, Raises-trail, Raises-trail_of,
  Raises-alerts,
}
use inventory_management_api.Services.Raised.{
  Raises-create_product, Raises-get_product, Raises-list_products, Raises-search_products,
  Raises-update_product, Raises-deactivate_product, Raises-create_warehouse, Raises-get_warehouse,
  Raises-list_warehouses, Raises-update_warehouse, Raises-deactivate_warehouse,
  Raises-get_stock_level, Raises-resolve_alert,
}
use inventory_management_api.Services.Alert.{list_active_alerts}
use inventory_management_api.Services.Command.Faults.{AllowsChecks, Raises-record_movement}
use inventory_management_api.Services.Query.{
  list_warehouse_stock, list_low_stock_rows, list_all_stock,
}
use inventory_management_api.Api.Endpoints.Health.{health_check_endpoint}
use inventory_management_api.Api.Endpoints.Products.{
  search_term, list_or_search, list_products_endpoint, get_product_endpoint,
  create_product_endpoint, update_product_endpoint, deactivate_product_endpoint,
}
use inventory_management_api.Api.Endpoints.Warehouses.{
  list_warehouses_endpoint, get_warehouse_endpoint, create_warehouse_endpoint,
  update_warehouse_endpoint, deactivate_warehouse_endpoint,
}
use inventory_management_api.Api.Endpoints.Inventories.{
  list_inventory_endpoint, get_stock_level_endpoint, record_movement_endpoint,
}
use inventory_management_api.Api.Endpoints.Movements.{
  list_movements_endpoint, get_movement_endpoint,
}
use inventory_management_api.Api.Endpoints.Alerts.{
  list_alerts_endpoint, get_alert_endpoint, resolve_alert_endpoint,
}
use inventory_management_api.Api.Routes.{
  Request, Body, success_status, documented, is_valid, wrap, answer, endpoint, respond,
}

-- The status is a 500, or the route documents it.
abbrev pub IsDocumented : Request → ℕ → Type 0
IsDocumented q status = any (λ n. n == status) (500 ∷ documented q) ≡ true

abbrev Documents : Request → Error → Type 0
Documents q e = IsDocumented q (response_status e)

database_documented : (q : Request) → AllowsDatabase (Documents q)
unfolding response_status
database_documented q = record { integrity = refl; data_error = refl; multiple_results = refl }

checks_documented : (q : Request) → AllowsChecks (Documents q)
unfolding response_status
checks_documented q = record { assertion = refl; index_error = refl }

module _ ⦃env : Env⦄ where
  Raises-list_inventory :
      {P : Error → Type 0} (db : AllowsDatabase P) (skip limit : ℤ) (w : Option Uuid) (low : Bool)
      → Raises P (list_inventory_endpoint skip limit w low)
  unfolding list_inventory_endpoint list_warehouse_stock list_low_stock_rows list_all_stock
  Raises-list_inventory db skip limit (some w) low = Raises-stock db w skip limit
  Raises-list_inventory db skip limit none low = search (raises_rules, Raises-low, Raises-list_all)

  Raises-list_movements :
      {P : Error → Type 0} (db : AllowsDatabase P) (skip limit : ℤ) (p w : Option Uuid)
      → Raises P (list_movements_endpoint skip limit p w)
  unfolding list_movements_endpoint
  Raises-list_movements db skip limit (some p) w = Raises-trail db p skip limit
  Raises-list_movements db skip limit none (some w) = Raises-trail_of db w skip limit
  Raises-list_movements db skip limit none none = Raises-list_all db _ skip limit

  Raises-list_alerts :
      {P : Error → Type 0} (db : AllowsDatabase P) (skip limit : ℤ) (active : Bool)
      → Raises P (list_alerts_endpoint skip limit active)
  unfolding list_alerts_endpoint list_active_alerts
  Raises-list_alerts db skip limit active = search (raises_rules, Raises-alerts, Raises-list_all)

  Raises-list_or_search :
      {P : Error → Type 0} (db : AllowsDatabase P) (term : Option String) (skip limit : ℤ)
      (active : Bool)
      → Raises P (list_or_search term skip limit active)
  unfolding list_or_search
  Raises-list_or_search db none skip limit active = Raises-list_products db skip limit active
  Raises-list_or_search db (some query) skip limit active =
      Raises-search_products db query skip limit

  Raises-wrap :
      {P : Error → Type 0} {A : Type 0} (body : A → Body) (act : Action A)
      → Raises P act
      → Raises P (wrap body act)
  Raises-wrap body act h = search raises_rules

  Raises-endpoint : (q : Request) → Raises (Documents q) (endpoint q)
  unfolding list_products_endpoint endpoint documented response_status status_code
      get_product_endpoint create_product_endpoint update_product_endpoint
      deactivate_product_endpoint list_warehouses_endpoint get_warehouse_endpoint
      create_warehouse_endpoint update_warehouse_endpoint deactivate_warehouse_endpoint
      get_stock_level_endpoint record_movement_endpoint get_movement_endpoint get_alert_endpoint
      health_check_endpoint resolve_alert_endpoint
  Raises-endpoint (Request.list_products skip limit active text) = Raises-wrap _ _ (
      Raises-list_or_search (database_documented (Request.list_products skip limit active text))
        (search_term text) skip limit active)
  Raises-endpoint (Request.get_product id) =
      Raises-wrap _ _ (Raises-get_product (database_documented (Request.get_product id)) id refl)
  Raises-endpoint (Request.create_product d) =
      Raises-wrap _ _
        (Raises-create_product (database_documented (Request.create_product d)) d refl)
  Raises-endpoint (Request.update_product id d) =
      Raises-wrap _ _
        (Raises-update_product (database_documented (Request.update_product id d)) id d refl refl)
  Raises-endpoint (Request.deactivate_product id) =
      Raises-wrap _ _
        (Raises-deactivate_product (database_documented (Request.deactivate_product id)) id refl)
  Raises-endpoint (Request.list_warehouses skip limit active) = Raises-wrap _ _ (
      Raises-list_warehouses (database_documented (Request.list_warehouses skip limit active)) skip
        limit active)
  Raises-endpoint (Request.get_warehouse id) =
      Raises-wrap _ _
        (Raises-get_warehouse (database_documented (Request.get_warehouse id)) id refl)
  Raises-endpoint (Request.create_warehouse d) =
      Raises-wrap _ _
        (Raises-create_warehouse (database_documented (Request.create_warehouse d)) d refl)
  Raises-endpoint (Request.update_warehouse id d) =
      Raises-wrap _ _ (
        Raises-update_warehouse (database_documented (Request.update_warehouse id d)) id d refl
          refl)
  Raises-endpoint (Request.deactivate_warehouse id) =
      Raises-wrap _ _ (
        Raises-deactivate_warehouse (database_documented (Request.deactivate_warehouse id)) id refl)
  Raises-endpoint (Request.list_inventory skip limit w low) = Raises-wrap _ _ (
      Raises-list_inventory (database_documented (Request.list_inventory skip limit w low)) skip
        limit w low)
  Raises-endpoint (Request.get_stock_level p w) =
      Raises-wrap _ _
        (Raises-get_stock_level (database_documented (Request.get_stock_level p w)) p w refl)
  Raises-endpoint (Request.record_movement d) = Raises-wrap _ _ (
      Raises-record_movement (database_documented (Request.record_movement d))
        (checks_documented (Request.record_movement d))
        (record { not_found = refl; insufficient_stock = refl }) d none)
  Raises-endpoint (Request.list_movements skip limit p w) = Raises-wrap _ _ (
      Raises-list_movements (database_documented (Request.list_movements skip limit p w)) skip limit
        p w)
  Raises-endpoint (Request.get_movement id) = Raises-wrap _ _ (Raises-get movement_model id refl)
  Raises-endpoint (Request.list_alerts skip limit active) = Raises-wrap _ _ (
      Raises-list_alerts (database_documented (Request.list_alerts skip limit active)) skip limit
        active)
  Raises-endpoint (Request.get_alert id) = Raises-wrap _ _ (Raises-get alert_model id refl)
  Raises-endpoint Request.health_check = Raises-wrap _ _ (search raises_rules)
  Raises-endpoint (Request.resolve_alert id) =
      Raises-wrap _ _
        (Raises-resolve_alert (database_documented (Request.resolve_alert id)) id refl refl)

  -- What a route answers with.
  pub record Answered (q : Request) (status : ℕ) : Type 0 where
    pub cause :
        (status ≡ success_status q)
        ⊎ (((is_valid q ≡ false) × (status ≡ 422)) ⊎ IsDocumented q status)

  -- A request gets the success status of its route, or a 422 where its payload is refused before
  -- the route runs, or a status that its route documents, or a 500.
  pub respond-Answered : (q : Request) (s : World) → Answered q (respond q s).0.status
  unfolding respond with_session
  respond-Answered q s = elim (Bool-cases (is_valid q)) [
    | inr n ↦ rw n (record { cause = inr (inl (n, refl)) })
    | inl y ↦
        rw y
          (let (r, s') = endpoint q (begin s) in answered r s' ((Raises-endpoint q).at (begin s)))
  ]
    where
      answered :
          (r : Result Body) (t : World)
          → Ends (λ _ _. ⊤) (λ e _. Documents q e) (r, t)
          → Answered q (answer (success_status q) (close (r, t))).0.status
      answered (ok b) t h = record { cause = inl refl }
      answered (err e) t h = record { cause = inr (inr h.outcome) }
