-- ===== src/Api/Routes.antt =====
-- The REST routes of app/api/v1/router.py and the answers that they give. A request is one whose path
-- and query FastAPI has parsed; the fields of the payloads are checked here.
pub mod Statuses
pub mod Served
pub mod ClientErrors
use Prim.Native.String.{String}
use inventory_management_api.Base.{
  ℕ, Bool, true, false, Option, none, some, List, [], ◌∷◌, if◌then◌else◌,
}
use inventory_management_api.Base.Int.{ℤ}
use inventory_management_api.Errors.{Result, ok, err, response_status}
use inventory_management_api.Models.{Uuid, Product, Warehouse, Inventory, Movement, Alert}
use inventory_management_api.Schemas.Catalog.{
  ProductCreate, ProductUpdate, WarehouseCreate, WarehouseUpdate,
}
use inventory_management_api.Schemas.Catalog.Limits.{
  product_create_accepts, product_update_accepts, warehouse_create_accepts,
  warehouse_update_accepts,
}
use inventory_management_api.Schemas.Movement.{MovementCreate, accepts}
use inventory_management_api.Session.{Env, Action, World, pure, with_session, ◌>>=◌}
use inventory_management_api.Api.Endpoints.Health.{Health, health_check_endpoint}
use inventory_management_api.Api.Endpoints.Products.{
  list_products_endpoint, get_product_endpoint, create_product_endpoint, update_product_endpoint,
  deactivate_product_endpoint,
}
use inventory_management_api.Api.Endpoints.Warehouses.{
  list_warehouses_endpoint, get_warehouse_endpoint, create_warehouse_endpoint,
  update_warehouse_endpoint, deactivate_warehouse_endpoint,
}
use inventory_management_api.Api.Endpoints.Inventories.{
  list_inventory_endpoint, get_stock_level_endpoint, record_movement_endpoint,
}
use inventory_management_api.Api.Endpoints.Movements.{
  list_movements_endpoint, get_movement_endpoint,
}
use inventory_management_api.Api.Endpoints.Alerts.{
  list_alerts_endpoint, get_alert_endpoint, resolve_alert_endpoint,
}

pub data Request : Type 0 where
  list_products : (skip limit : ℤ) (active_only : Bool) (search : Option String) → Request
  get_product : (product_id : Uuid) → Request
  create_product : (payload : ProductCreate) → Request
  update_product : (product_id : Uuid) (payload : ProductUpdate) → Request
  deactivate_product : (product_id : Uuid) → Request
  list_warehouses : (skip limit : ℤ) (active_only : Bool) → Request
  get_warehouse : (warehouse_id : Uuid) → Request
  create_warehouse : (payload : WarehouseCreate) → Request
  update_warehouse : (warehouse_id : Uuid) (payload : WarehouseUpdate) → Request
  deactivate_warehouse : (warehouse_id : Uuid) → Request
  list_inventory : (skip limit : ℤ) (warehouse_id : Option Uuid) (low_stock_only : Bool) → Request
  get_stock_level : (product_id warehouse_id : Uuid) → Request
  record_movement : (payload : MovementCreate) → Request
  list_movements : (skip limit : ℤ) (product_id warehouse_id : Option Uuid) → Request
  get_movement : (movement_id : Uuid) → Request
  list_alerts : (skip limit : ℤ) (active_only : Bool) → Request
  get_alert : (alert_id : Uuid) → Request
  resolve_alert : (alert_id : Uuid) → Request
  health_check : Request

-- The body of an answer that is not an error.
pub data Body : Type 0 where
  product_body : Product → Body
  warehouse_body : Warehouse → Body
  inventory_body : Inventory → Body
  movement_body : Movement → Body
  alert_body : Alert → Body
  products_body : List Product → Body
  warehouses_body : List Warehouse → Body
  inventories_body : List Inventory → Body
  movements_body : List Movement → Body
  alerts_body : List Alert → Body
  health_body : Health → Body

pub record Response : Type 0 where
  pub status : ℕ
  pub body : Option Body

-- `status_code=` of the decorators.
unfoldable pub success_status : Request → ℕ
success_status (create_product _) = 201
success_status (create_warehouse _) = 201
success_status (record_movement _) = 201
success_status _ = 200

-- `NOT_FOUND`, and `CONFLICT` or `INSUFFICIENT_STOCK`: the statuses that responses.py documents.
abbrev documents_not_found : List ℕ
documents_not_found = 404 ∷ []

abbrev documents_conflict : List ℕ
documents_conflict = 409 ∷ []

abbrev documents_both : List ℕ
documents_both = 404 ∷ 409 ∷ []

-- `responses=` of the decorators.
unfoldable pub documented : Request → List ℕ
documented (get_product _) = documents_not_found
documented (create_product _) = documents_conflict
documented (update_product _ _) = documents_both
documented (deactivate_product _) = documents_not_found
documented (get_warehouse _) = documents_not_found
documented (create_warehouse _) = documents_conflict
documented (update_warehouse _ _) = documents_both
documented (deactivate_warehouse _) = documents_not_found
documented (get_stock_level _ _) = documents_not_found
documented (record_movement _) = documents_both
documented (get_movement _) = documents_not_found
documented (get_alert _) = documents_not_found
documented (resolve_alert _) = documents_both
documented _ = []

-- `@router.get`
unfoldable pub is_read : Request → Bool
is_read (list_products _ _ _ _) = true
is_read (get_product _) = true
is_read (list_warehouses _ _ _) = true
is_read (get_warehouse _) = true
is_read (list_inventory _ _ _ _) = true
is_read (get_stock_level _ _) = true
is_read (list_movements _ _ _ _) = true
is_read (get_movement _) = true
is_read (list_alerts _ _ _) = true
is_read (get_alert _) = true
is_read health_check = true
is_read _ = false

-- What the validators of the payload let through: a 422 otherwise.
unfoldable pub is_valid : Request → Bool
is_valid (create_product payload) = product_create_accepts payload
is_valid (update_product _ payload) = product_update_accepts payload
is_valid (create_warehouse payload) = warehouse_create_accepts payload
is_valid (update_warehouse _ payload) = warehouse_update_accepts payload
is_valid (record_movement payload) = accepts payload
is_valid _ = true

abbrev pub wrap : {A : Type 0} → (A → Body) → Action A → Action Body
wrap body act = act >>= λ a. pure (body a)

abbrev pub answer : ℕ → Result Body × World → Response × World
answer status (ok b, s) = (record { status = status; body = some b }, s)
answer status (err e, s) = (record { status = response_status e; body = none }, s)

module _ ⦃env : Env⦄ where
  -- The function that a route calls.
  unfoldable pub endpoint : Request → Action Body
  endpoint (list_products skip limit active_only search) =
      wrap products_body (list_products_endpoint skip limit active_only search)
  endpoint (get_product product_id) = wrap product_body (get_product_endpoint product_id)
  endpoint (create_product payload) = wrap product_body (create_product_endpoint payload)
  endpoint (update_product product_id payload) =
      wrap product_body (update_product_endpoint product_id payload)
  endpoint (deactivate_product product_id) =
      wrap product_body (deactivate_product_endpoint product_id)
  endpoint (list_warehouses skip limit active_only) =
      wrap warehouses_body (list_warehouses_endpoint skip limit active_only)
  endpoint (get_warehouse warehouse_id) = wrap warehouse_body (get_warehouse_endpoint warehouse_id)
  endpoint (create_warehouse payload) = wrap warehouse_body (create_warehouse_endpoint payload)
  endpoint (update_warehouse warehouse_id payload) =
      wrap warehouse_body (update_warehouse_endpoint warehouse_id payload)
  endpoint (deactivate_warehouse warehouse_id) =
      wrap warehouse_body (deactivate_warehouse_endpoint warehouse_id)
  endpoint (list_inventory skip limit warehouse_id low_stock_only) =
      wrap inventories_body (list_inventory_endpoint skip limit warehouse_id low_stock_only)
  endpoint (get_stock_level product_id warehouse_id) =
      wrap inventory_body (get_stock_level_endpoint product_id warehouse_id)
  endpoint (record_movement payload) = wrap movement_body (record_movement_endpoint payload)
  endpoint (list_movements skip limit product_id warehouse_id) =
      wrap movements_body (list_movements_endpoint skip limit product_id warehouse_id)
  endpoint (get_movement movement_id) = wrap movement_body (get_movement_endpoint movement_id)
  endpoint (list_alerts skip limit active_only) =
      wrap alerts_body (list_alerts_endpoint skip limit active_only)
  endpoint (get_alert alert_id) = wrap alert_body (get_alert_endpoint alert_id)
  endpoint health_check = wrap health_body health_check_endpoint
  endpoint (resolve_alert alert_id) = wrap alert_body (resolve_alert_endpoint alert_id)

  -- A request, and its answer.
  unfoldable pub respond : Request → World → Response × World
  respond request s =
      if is_valid request
      then answer (success_status request) (with_session (endpoint request) s)
      else (record { status = 422; body = none }, s)
