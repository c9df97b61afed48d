-- ===== src/Api/Endpoints/Alerts.antt =====
-- app/api/v1/endpoints/alerts.py
use inventory_management_api.Base.{Bool, List, if◌then◌else◌}
use inventory_management_api.Base.Int.{ℤ}
use inventory_management_api.Models.{Uuid, Alert}
use inventory_management_api.Session.{Env, Action}
use inventory_management_api.Repositories.Base.{get_by_id_or_raise, list_all}
use inventory_management_api.Repositories.Alerts.{alert_model}
use inventory_management_api.Services.Alert.{list_active_alerts, resolve_alert}

module _ ⦃env : Env⦄ where
  -- `list_alerts`
  unfoldable pub list_alerts_endpoint :
      (skip limit : ℤ) → (active_only : Bool) → Action (List Alert)
  list_alerts_endpoint skip limit active_only =
      if active_only then list_active_alerts skip limit else list_all alert_model skip limit

  -- `get_alert`
  unfoldable pub get_alert_endpoint : Uuid → Action Alert
  get_alert_endpoint alert_id = get_by_id_or_raise alert_model alert_id

  -- `resolve_alert`
  unfoldable pub resolve_alert_endpoint : Uuid → Action Alert
  resolve_alert_endpoint alert_id = resolve_alert alert_id
