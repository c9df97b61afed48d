-- ===== src/Services/Alert.antt =====
-- app/services/alert.py: alerts follow the stock levels.
pub mod Frame
pub mod Outcome
pub mod Recovery
pub mod Alarm
pub mod Reflects
pub mod Resolution
pub mod Race
use inventory_management_api.Base.{
  ⊤, Bool, true, false, not, ◌≡◌, refl, Option, none, some, List, [], ◌∷◌, ◌+◌, ◌==◌, if◌then◌else◌,
}
use inventory_management_api.Base.Int.{ℤ, pos, ltb_ℤ, eqb_ℤ}
use inventory_management_api.Errors.{Result, ok, app, conflict}
use inventory_management_api.Models.{
  Uuid, AlertType, AlertStatus, Alert, Inventory, type_eq, is_active_status,
}
use inventory_management_api.Events.{Event, low_stock_detected, out_of_stock_detected}
use inventory_management_api.Session.{
  Env, Action, World, pure, raise_if, write, commit, publish, uuid4, now, ◌>>=◌, ◌>>◌,
}
use inventory_management_api.Repositories.Base.{get_by_id_or_raise, create}
use inventory_management_api.Repositories.Alerts.{
  alert_model, get_active_by_product_and_warehouse, list_active, flush_alert, replace_alert,
}

-- The event of `_react_to_alert`.
unfoldable pub alert_event : Alert → Event
alert_event a =
    if type_eq a.alert_type AlertType.out_of_stock
    then out_of_stock_detected a.product_id a.warehouse_id
    else low_stock_detected a.product_id a.warehouse_id a.quantity_at_trigger a.threshold

-- The kind of alert that a stock level at or below its threshold calls for.
unfoldable pub alert_type_of : Inventory → AlertType
alert_type_of inventory =
    if eqb_ℤ inventory.quantity (pos 0) then AlertType.out_of_stock else AlertType.low_stock

module _ ⦃env : Env⦄ where
  -- The threshold of a record, or the default of the settings.
  unfoldable pub threshold_of : Inventory → ℤ
  threshold_of inventory = elim inventory.low_stock_threshold [
    | none ↦ env.low_stock_alert_threshold_default
    | some n ↦ n
  ]

  -- `_enqueue_notification`: a broker that refuses the task is logged and swallowed.
  unfoldable pub enqueue_notification : Alert → Action ⊤
  enqueue_notification alert s = (
    ok tt,
    record s {
      queued = if env.broker_accepts s.answers then alert.id ∷ s.queued else s.queued;
      answers = s.answers + 1;
    },
  )

  -- `_react_to_alert`
  unfoldable pub react_to_alert : Alert → Action ⊤
  unfolding publish enqueue_notification alert_event
  react_to_alert alert = do publish (alert_event alert); enqueue_notification alert

  -- `_resolve`: its UPDATE writes the status and the time of the resolution.
  unfoldable pub resolve : Alert → Action Alert
  unfolding commit
  resolve alert = do
    time ← now
    let resolved = record alert { status = AlertStatus.resolved; resolved_at = some time }
    write (λ t. record t { alerts = replace_alert resolved t.alerts })
    commit
    pure resolved

  -- Above the threshold: an active alert is resolved.
  unfoldable pub recover : Option Alert → Action (Option Alert)
  unfolding resolve
  recover none = pure none
  recover (some existing) = do resolve existing; pure none

  -- `existing.alert_type = …; existing.quantity_at_trigger = …; commit; react`
  unfoldable pub escalate : Inventory → Alert → Action (Option Alert)
  unfolding flush_alert commit react_to_alert alert_type_of
  escalate inventory existing = do
    let changed = record existing {
      alert_type = alert_type_of inventory;
      quantity_at_trigger = inventory.quantity;
    }
    flush_alert changed
    commit
    react_to_alert changed
    pure (some changed)

  -- `Alert(product_id=…, …)`, with the defaults of its columns.
  unfoldable pub new_alert : Inventory → Uuid → Alert
  unfolding threshold_of alert_type_of
  new_alert inventory id = record {
    id = id;
    product_id = inventory.product_id;
    warehouse_id = inventory.warehouse_id;
    alert_type = alert_type_of inventory;
    status = AlertStatus.active;
    threshold = threshold_of inventory;
    quantity_at_trigger = inventory.quantity;
    resolved_at = none;
  }

  unfoldable pub raise_alert : Inventory → Action (Option Alert)
  unfolding new_alert create commit react_to_alert
  raise_alert inventory = do
    id ← uuid4
    alert ← create alert_model (new_alert inventory id)
    commit
    react_to_alert alert
    pure (some alert)

  -- At or below the threshold: an alert is created, or one of the other kind is changed.
  unfoldable pub alarm : Inventory → Option Alert → Action (Option Alert)
  unfolding raise_alert escalate
  alarm inventory none = raise_alert inventory
  alarm inventory (some existing) =
      if not (type_eq existing.alert_type (alert_type_of inventory))
      then escalate inventory existing
      else pure (some existing)

  unfoldable pub is_above : Inventory → Bool
  unfolding threshold_of
  is_above inventory = ltb_ℤ (threshold_of inventory) inventory.quantity

  -- `AlertService.evaluate_stock_level`
  unfoldable pub evaluate_stock_level : Inventory → Action (Option Alert)
  unfolding get_active_by_product_and_warehouse is_above recover alarm
  evaluate_stock_level inventory = do
    existing ← get_active_by_product_and_warehouse inventory.product_id inventory.warehouse_id
    if is_above inventory then recover existing else alarm inventory existing

  -- `AlertService.resolve_alert`
  unfoldable pub resolve_alert : Uuid → Action Alert
  unfolding get_by_id_or_raise resolve
  resolve_alert alert_id = do
    alert ← get_by_id_or_raise alert_model alert_id
    raise_if (not (is_active_status alert.status)) (app conflict)
    resolve alert

  -- `AlertService.list_active_alerts`
  unfoldable pub list_active_alerts : (skip limit : ℤ) → Action (List Alert)
  list_active_alerts skip limit = list_active skip limit
