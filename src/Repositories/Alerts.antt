-- ===== src/Repositories/Alerts.antt =====
-- app/repositories/alert.py, over the constraints of app/models/alert.py.
pub mod Update
use inventory_management_api.Base.{
  ⊤, Bool, not, ◌&&◌, Option, none, some, List, ◌∷◌, [], ◌==◌, if◌then◌else◌,
}
use inventory_management_api.Base.Int.{ℤ}
use inventory_management_api.Base.Rows.{count_rows}
use inventory_management_api.Errors.{Error, integrity, data_error}
use inventory_management_api.Models.{Uuid, Alert, Tables, is_active_status}
use inventory_management_api.Session.{
  Env, Action, read, raise_if, write, one_or_none, select, fits, ◌>>=◌, ◌>>◌,
}
use inventory_management_api.Repositories.Base.{Model, page}
use inventory_management_api.Repositories.Inventories.{product_exists, warehouse_exists}

-- The alert is active, and of the product and the warehouse.
abbrev pub active_of_pair : Uuid → Uuid → Alert → Bool
active_of_pair p w a = a.product_id == p && a.warehouse_id == w && is_active_status a.status

-- An UPDATE of one row.
abbrev pub replace_alert : Alert → List Alert → List Alert
replace_alert a [] = []
replace_alert a (x ∷ xs) = (if x.id == a.id then a else x) ∷ replace_alert a xs

module _ ⦃env : Env⦄ where
  -- The foreign keys and the Integer columns.
  unfoldable pub alert_violates : Alert → Tables → Option Error
  alert_violates a t =
      if product_exists a.product_id t && warehouse_exists a.warehouse_id t
      then (if fits a.threshold && fits a.quantity_at_trigger then none else some data_error)
      else some integrity

  abbrev pub alert_model : Model Alert
  alert_model = record {
    rows = λ t. t.alerts;
    with_rows = λ rs t. record t { alerts = rs };
    id = λ r. r.id;
    violates = alert_violates;
  }

  -- `AlertRepository.get_active_by_product_and_warehouse`
  unfoldable pub get_active_by_product_and_warehouse : Uuid → Uuid → Action (Option Alert)
  get_active_by_product_and_warehouse product_id warehouse_id = do
    rows ← read (λ t. t.alerts)
    one_or_none (count_rows (select (active_of_pair product_id warehouse_id) rows))

  -- `AlertRepository.list_active`
  unfoldable pub list_active : (skip limit : ℤ) → Action (List Alert)
  list_active skip limit = do
    rows ← read (λ t. t.alerts)
    page skip limit (select (λ (a : Alert). is_active_status a.status) rows)

  -- The flush of a changed alert.
  unfoldable pub flush_alert : Alert → Action ⊤
  flush_alert a = do
    raise_if (not (fits a.quantity_at_trigger)) data_error
    write (λ t. record t { alerts = replace_alert a t.alerts })
