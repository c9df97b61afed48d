-- ===== src/Tests/Alerts.antt =====
-- Evaluations of stock levels on the sample rows.
use inventory_management_api.Base.{◌≡◌, refl, false, none, some}
use inventory_management_api.Base.Int.{pos}
use inventory_management_api.Errors.{ok, err, multiple_results}
use inventory_management_api.Models.{Alert, AlertType, AlertStatus, Inventory}
use inventory_management_api.Session.{World, ◌>>=◌, commit, publish, with_session, begin}
use inventory_management_api.Session.Ends.{Ends}
use inventory_management_api.Repositories.Base.{create}
use inventory_management_api.Repositories.Alerts.{
  get_active_by_product_and_warehouse, flush_alert, alert_violates,
}
use inventory_management_api.Repositories.Alerts.Update.{IsConsistent}
use inventory_management_api.Services.Alert.{
  evaluate_stock_level, recover, alarm, raise_alert, escalate, resolve, react_to_alert, new_alert,
  alert_event, alert_type_of, threshold_of, is_above, enqueue_notification,
}
use inventory_management_api.Services.Alert.Outcome.{Reflected, Refused}
use inventory_management_api.Services.Alert.Reflects.{evaluate-Reflected, evaluate_again}
use inventory_management_api.Services.Alert.Race.{evaluate_race}
use inventory_management_api.Tests.Samples.{tables, world, sample_env, shelf}

program : Unit {0}
unfolding get_active_by_product_and_warehouse flush_alert alert_violates create evaluate_stock_level
    recover alarm raise_alert escalate resolve react_to_alert new_alert alert_event alert_type_of
    threshold_of is_above enqueue_notification ◌>>=◌ commit publish with_session
program = tt

no_alerts-IsConsistent : IsConsistent tables.alerts
no_alerts-IsConsistent = record { ids = tt; single = λ p w. tt }

abbrev low : Inventory
low = shelf 20 7 5

evaluate-Reflected_example :
    Ends (Reflected low world) (Refused world) (evaluate_stock_level low world)
evaluate-Reflected_example = evaluate-Reflected low world no_alerts-IsConsistent

abbrev raised : Alert
raised = record {
  id = 100;
  product_id = 1;
  warehouse_id = 7;
  alert_type = AlertType.low_stock;
  status = AlertStatus.active;
  threshold = pos 10;
  quantity_at_trigger = pos 5;
  resolved_at = none;
}

abbrev after : World
after = (evaluate_stock_level low world).1

low_raises : evaluate_stock_level low world ≡ (ok (some raised), after)
unfolding program
low_raises = refl

evaluate_again_example : evaluate_stock_level low after ≡ (ok (some raised), after)
evaluate_again_example =
    evaluate_again low world (some raised) after no_alerts-IsConsistent low_raises

-- Two sessions, of which the second does not know of the first one's alert.
abbrev once : World
once = (with_session (evaluate_stock_level low) world).1

abbrev twice : World
twice = (with_session (alarm low none) once).1

abbrev second : Alert
second = record raised { id = 102 }

once_raises : with_session (evaluate_stock_level low) world ≡ (ok (some raised), once)
unfolding program
once_raises = refl

twice_raises : with_session (alarm low none) once ≡ (ok (some second), twice)
unfolding program
twice_raises = refl

low_is_low : is_above low ≡ false
unfolding program
low_is_low = refl

evaluate_race_example :
    with_session (evaluate_stock_level (shelf 20 7 500)) twice ≡ (err multiple_results, begin twice)
evaluate_race_example =
    evaluate_race low (shelf 20 7 500) world once twice (some raised) (some second)
      no_alerts-IsConsistent low_is_low once_raises twice_raises refl refl
