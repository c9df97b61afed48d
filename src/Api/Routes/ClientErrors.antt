-- ===== src/Api/Routes/ClientErrors.antt =====
-- What the answers say of what was done.
use Prim.Native.String.{String}
use inventory_management_api.Base.{
  ℕ, ⊤, ◌≤◌, ◌≡◌, refl, ◌⊎◌, inl, inr, Bool, true, Option, none, some, Bool-cases, arith,
}
use inventory_management_api.Base.Int.{ℤ}
use inventory_management_api.Errors.{Result, ok, err}
use inventory_management_api.Models.{Uuid}
use inventory_management_api.Session.{Env, Action, World, with_session, begin, close}
use inventory_management_api.Session.Ends.{Ends, Uncommitted, Uncommitted-refl}
use inventory_management_api.Session.Raises.{raises_rules}
use inventory_management_api.Session.Atomic.{
  IsInternal, Quiet, quiet_rules, Atomic, Atomic-then, Atomic-Quiet,
}
use inventory_management_api.Repositories.Inventories.{movement_model}
use inventory_management_api.Repositories.Alerts.{alert_model}
use inventory_management_api.Repositories.Catalog.{product_model, warehouse_model}
use inventory_management_api.Repositories.Quiet.{
  Quiet-get, Quiet-list_all, Quiet-stock, Quiet-low, Quiet-trail, Quiet-trail_of, Quiet-alerts,
  Quiet-search,
}
use inventory_management_api.Services.Atomic.{
  Quiet-list_products, Quiet-list_warehouses, Quiet-get_stock_level, Atomic-create_product,
  Atomic-update_product, Atomic-deactivate_product, Atomic-create_warehouse,
  Atomic-update_warehouse, Atomic-deactivate_warehouse, Atomic-resolve_alert,
  Atomic-record_movement,
}
use inventory_management_api.Services.Alert.{list_active_alerts}
use inventory_management_api.Services.Product.{get_product, search_products}
use inventory_management_api.Services.Warehouse.{get_warehouse}
use inventory_management_api.Services.Query.{
  list_warehouse_stock, list_low_stock_rows, list_all_stock,
}
use inventory_management_api.Api.Endpoints.Health.{health_check_endpoint}
use inventory_management_api.Api.Endpoints.Products.{
  search_term, list_or_search, list_products_endpoint, get_product_endpoint,
  create_product_endpoint, update_product_endpoint, deactivate_product_endpoint,
}
use inventory_management_api.Api.Endpoints.Warehouses.{
  list_warehouses_endpoint, get_warehouse_endpoint, create_warehouse_endpoint,
  update_warehouse_endpoint, deactivate_warehouse_endpoint,
}
use inventory_management_api.Api.Endpoints.Inventories.{
  list_inventory_endpoint, get_stock_level_endpoint, record_movement_endpoint,
}
use inventory_management_api.Api.Endpoints.Movements.{
  list_movements_endpoint, get_movement_endpoint,
}
use inventory_management_api.Api.Endpoints.Alerts.{
  list_alerts_endpoint, get_alert_endpoint, resolve_alert_endpoint,
}
use inventory_management_api.Api.Routes.{
  Request, Body, success_status, is_read, is_valid, wrap, answer, endpoint, respond,
}

module _ ⦃env : Env⦄ {o : World} where
  Quiet-list_inventory :
      (skip limit : ℤ) (w : Option Uuid) (low : Bool)
      → Quiet o (list_inventory_endpoint skip limit w low)
  unfolding list_inventory_endpoint list_warehouse_stock list_low_stock_rows list_all_stock
  Quiet-list_inventory skip limit (some w) low = Quiet-stock w skip limit
  Quiet-list_inventory skip limit none low = search (quiet_rules, Quiet-low, Quiet-list_all)

  Quiet-list_movements :
      (skip limit : ℤ) (p w : Option Uuid) → Quiet o (list_movements_endpoint skip limit p w)
  unfolding list_movements_endpoint
  Quiet-list_movements skip limit (some p) w = Quiet-trail p skip limit
  Quiet-list_movements skip limit none (some w) = Quiet-trail_of w skip limit
  Quiet-list_movements skip limit none none = Quiet-list_all movement_model skip limit

  Quiet-list_alerts :
      (skip limit : ℤ) (active : Bool) → Quiet o (list_alerts_endpoint skip limit active)
  unfolding list_alerts_endpoint list_active_alerts
  Quiet-list_alerts skip limit active = search (quiet_rules, Quiet-alerts, Quiet-list_all)

  Quiet-list_or_search :
      (term : Option String) (skip limit : ℤ) (active : Bool)
      → Quiet o (list_or_search term skip limit active)
  unfolding list_or_search search_products
  Quiet-list_or_search none skip limit active = Quiet-list_products skip limit active
  Quiet-list_or_search (some query) skip limit active = Quiet-search query skip limit

  Quiet-wrap :
      {A : Type 0} (body : A → Body) (act : Action A) → Quiet o act → Quiet o (wrap body act)
  Quiet-wrap body act h = search quiet_rules

  Atomic-wrap :
      {A : Type 0} (body : A → Body) (act : Action A) → Atomic o act → Atomic o (wrap body act)
  Atomic-wrap body act h = Atomic-then act _ h λ a. search raises_rules

  Quiet-endpoint : (q : Request) → is_read q ≡ true → Quiet o (endpoint q)
  unfolding is_read endpoint list_products_endpoint get_product get_warehouse get_product_endpoint
      list_warehouses_endpoint get_warehouse_endpoint get_stock_level_endpoint get_movement_endpoint
      get_alert_endpoint health_check_endpoint
  Quiet-endpoint (Request.list_products skip limit active text) h =
      Quiet-wrap _ _ (Quiet-list_or_search (search_term text) skip limit active)
  Quiet-endpoint (Request.get_product id) h = Quiet-wrap _ _ (Quiet-get product_model id)
  Quiet-endpoint (Request.create_product d) h = absurd (cc h)
  Quiet-endpoint (Request.update_product id d) h = absurd (cc h)
  Quiet-endpoint (Request.deactivate_product id) h = absurd (cc h)
  Quiet-endpoint (Request.list_warehouses skip limit active) h =
      Quiet-wrap _ _ (Quiet-list_warehouses skip limit active)
  Quiet-endpoint (Request.get_warehouse id) h = Quiet-wrap _ _ (Quiet-get warehouse_model id)
  Quiet-endpoint (Request.create_warehouse d) h = absurd (cc h)
  Quiet-endpoint (Request.update_warehouse id d) h = absurd (cc h)
  Quiet-endpoint (Request.deactivate_warehouse id) h = absurd (cc h)
  Quiet-endpoint (Request.list_inventory skip limit w low) h =
      Quiet-wrap _ _ (Quiet-list_inventory skip limit w low)
  Quiet-endpoint (Request.get_stock_level p w) h = Quiet-wrap _ _ (Quiet-get_stock_level p w)
  Quiet-endpoint (Request.record_movement d) h = absurd (cc h)
  Quiet-endpoint (Request.list_movements skip limit p w) h =
      Quiet-wrap _ _ (Quiet-list_movements skip limit p w)
  Quiet-endpoint (Request.get_movement id) h = Quiet-wrap _ _ (Quiet-get movement_model id)
  Quiet-endpoint (Request.list_alerts skip limit active) h =
      Quiet-wrap _ _ (Quiet-list_alerts skip limit active)
  Quiet-endpoint (Request.get_alert id) h = Quiet-wrap _ _ (Quiet-get alert_model id)
  Quiet-endpoint Request.health_check h = Quiet-wrap _ _ (search quiet_rules)
  Quiet-endpoint (Request.resolve_alert id) h = absurd (cc h)

  Atomic-endpoint : (q : Request) → Atomic o (endpoint q)
  unfolding is_read endpoint create_product_endpoint update_product_endpoint
      deactivate_product_endpoint create_warehouse_endpoint update_warehouse_endpoint
      deactivate_warehouse_endpoint record_movement_endpoint resolve_alert_endpoint
  Atomic-endpoint (Request.list_products skip limit active text) =
      Atomic-Quiet _ (Quiet-endpoint (Request.list_products skip limit active text) refl)
  Atomic-endpoint (Request.get_product id) =
      Atomic-Quiet _ (Quiet-endpoint (Request.get_product id) refl)
  Atomic-endpoint (Request.create_product d) = Atomic-wrap _ _ (Atomic-create_product d)
  Atomic-endpoint (Request.update_product id d) = Atomic-wrap _ _ (Atomic-update_product id d)
  Atomic-endpoint (Request.deactivate_product id) = Atomic-wrap _ _ (Atomic-deactivate_product id)
  Atomic-endpoint (Request.list_warehouses skip limit active) =
      Atomic-Quiet _ (Quiet-endpoint (Request.list_warehouses skip limit active) refl)
  Atomic-endpoint (Request.get_warehouse id) =
      Atomic-Quiet _ (Quiet-endpoint (Request.get_warehouse id) refl)
  Atomic-endpoint (Request.create_warehouse d) = Atomic-wrap _ _ (Atomic-create_warehouse d)
  Atomic-endpoint (Request.update_warehouse id d) = Atomic-wrap _ _ (Atomic-update_warehouse id d)
  Atomic-endpoint (Request.deactivate_warehouse id) =
      Atomic-wrap _ _ (Atomic-deactivate_warehouse id)
  Atomic-endpoint (Request.list_inventory skip limit w low) =
      Atomic-Quiet _ (Quiet-endpoint (Request.list_inventory skip limit w low) refl)
  Atomic-endpoint (Request.get_stock_level p w) =
      Atomic-Quiet _ (Quiet-endpoint (Request.get_stock_level p w) refl)
  Atomic-endpoint (Request.record_movement d) = Atomic-wrap _ _ (Atomic-record_movement d none)
  Atomic-endpoint (Request.list_movements skip limit p w) =
      Atomic-Quiet _ (Quiet-endpoint (Request.list_movements skip limit p w) refl)
  Atomic-endpoint (Request.get_movement id) =
      Atomic-Quiet _ (Quiet-endpoint (Request.get_movement id) refl)
  Atomic-endpoint (Request.list_alerts skip limit active) =
      Atomic-Quiet _ (Quiet-endpoint (Request.list_alerts skip limit active) refl)
  Atomic-endpoint (Request.get_alert id) =
      Atomic-Quiet _ (Quiet-endpoint (Request.get_alert id) refl)
  Atomic-endpoint Request.health_check = Atomic-Quiet _ (Quiet-endpoint Request.health_check refl)
  Atomic-endpoint (Request.resolve_alert id) = Atomic-wrap _ _ (Atomic-resolve_alert id)

-- A 4xx, as a number.
abbrev pub IsClientError : ℕ → Type 0
IsClientError status = (400 ≤ status) × (status ≤ 499)

success_lem : (q : Request) → (success_status q ≡ 200) ⊎ (success_status q ≡ 201)
unfolding success_status
success_lem q = ground arith

Uncommitted-begin : (s : World) → Uncommitted s (begin s)
Uncommitted-begin s = record { committed = refl; published = refl; queued = refl }

module _ ⦃env : Env⦄ where
  -- A GET request commits, publishes and queues nothing, whatever it is answered with.
  pub respond-read : (q : Request) (s : World) → is_read q ≡ true → Uncommitted s (respond q s).1
  unfolding respond with_session
  respond-read q s h = elim (Bool-cases (is_valid q)) [
    | inr n ↦ rw n (Uncommitted-refl s)
    | inl y ↦ rw y (
        let (r, s') = endpoint q (begin s) in
        after r s' ((Quiet-endpoint q h).at (begin s) (Uncommitted-begin s)))
  ]
    where
      after :
          (r : Result Body) (t : World)
          → Uncommitted s t
          → Uncommitted s (answer (success_status q) (close (r, t))).1
      after (ok b) t u = record {
        committed = u.committed;
        published = u.published;
        queued = u.queued;
      }
      after (err e) t u = record {
        committed = u.committed;
        published = u.published;
        queued = u.queued;
      }

  -- Nor does any request that is answered with a client error.
  pub respond_client_error :
      (q : Request) (s : World)
      → IsClientError (respond q s).0.status
      → Uncommitted s (respond q s).1
  unfolding respond with_session
  respond_client_error q s = elim (Bool-cases (is_valid q)) [
    | inr n ↦ rw n (λ h. Uncommitted-refl s)
    | inl y ↦ rw y (
        let (r, s') = endpoint q (begin s) in
        answered r s' ((Atomic-endpoint q).at (begin s) (Uncommitted-begin s)))
  ]
    where
      answered :
          (r : Result Body) (t : World)
          → Ends (λ _ _. ⊤) (λ e s'. IsInternal e ⊎ Uncommitted s s') (r, t)
          → IsClientError (answer (success_status q) (close (r, t))).0.status
          → Uncommitted s (answer (success_status q) (close (r, t))).1
      answered (ok b) t h c =
          absurd
            (elim (success_lem q) [ inl e ↦ omega (arith, e, c.0) | inr e ↦ omega (arith, e, c.0) ])
      answered (err e) t h c = elim h.outcome [
        | inl x ↦ absurd (omega (arith, x, c.1))
        | inr u ↦ record { committed = u.committed; published = u.published; queued = u.queued }
      ]
