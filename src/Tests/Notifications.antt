-- ===== src/Tests/Notifications.antt =====
-- The email about an alert, to the one superuser, and the resolution of the alert.
use inventory_management_api.Base.{true, none, [], ◌∷◌}
use inventory_management_api.Base.Int.{pos}
use inventory_management_api.Models.{AlertType, AlertStatus, Alert, Tables}
use inventory_management_api.Session.{with_session}
use inventory_management_api.Session.Ends.{Ends}
use inventory_management_api.Services.Alert.{resolve_alert}
use inventory_management_api.Services.Alert.Resolution.{
  Resolved, NotResolved, resolve_alert_outcome,
}
use inventory_management_api.Core.Email.{Mailing, Post}
use inventory_management_api.Tasks.Notifications.{send_low_stock_alert_email}
use inventory_management_api.Tasks.Notifications.Recipients.{Ran, send_low_stock_alert_email-Ran}
use inventory_management_api.Tests.Access.{staffed_tables}
use inventory_management_api.Tests.Samples.{world, sample_env}
use inventory_management_api.Tests.Texts.{sample_texts}

instance abbrev sample_mailing : Mailing
sample_mailing = record { smtp_accepts = λ n. true; str_int = λ n. "n"; created_at = λ alert. 4000 }

abbrev sold_out : Alert
sold_out = record {
  id = 50;
  product_id = 1;
  warehouse_id = 7;
  alert_type = AlertType.out_of_stock;
  status = AlertStatus.active;
  threshold = pos 10;
  quantity_at_trigger = pos 0;
  resolved_at = none;
}

abbrev alerted : Tables
alerted = record staffed_tables { alerts = sold_out ∷ [] }

abbrev post : Post
post = record {
  world = record world { session = alerted; committed = alerted };
  outbox = [];
  exchanges = 0;
}

send_low_stock_alert_email-Ran_example :
    Ran 50 post (send_low_stock_alert_email 50 post).0 (send_low_stock_alert_email 50 post).1
send_low_stock_alert_email-Ran_example = send_low_stock_alert_email-Ran 50 post

resolve_alert_outcome_example :
    Ends
      (Resolved 50 post.world)
      (NotResolved 50 post.world)
      (with_session (resolve_alert 50) post.world)
resolve_alert_outcome_example = resolve_alert_outcome 50 post.world
