-- ===== src/Tasks/Notifications.antt =====
-- app/tasks/notifications.py: the email about an alert. One run of the task; its retries are Celery's.
pub mod Recipients
use Prim.Native.String.{String, ◌++◌}
use inventory_management_api.Base.{
  ⊤, ℕ, Bool, Option, none, some, List, [], ◌∷◌, map, if◌then◌else◌,
}
use inventory_management_api.Errors.{Result, ok, err}
use inventory_management_api.Models.{Uuid, AlertType, Alert, Product, Warehouse, User, type_eq}
use inventory_management_api.Session.{Env, Action, World, pure, with_session, ◌>>=◌}
use inventory_management_api.Repositories.Base.{get_by_id_or_raise}
use inventory_management_api.Repositories.Alerts.{alert_model}
use inventory_management_api.Repositories.Catalog.{product_model, warehouse_model}
use inventory_management_api.Repositories.Users.{list_active_superusers}
use inventory_management_api.Websockets.Listeners.{Texts}
use inventory_management_api.Core.Email.{Mailing, Post, send_email}

-- `alert_type.value`
abbrev pub alert_type_value : AlertType → String
alert_type_value AlertType.low_stock = "low_stock"
alert_type_value AlertType.out_of_stock = "out_of_stock"

-- What the session gives.
pub record Context : Type 0 where
  pub alert : Alert
  pub product : Product
  pub warehouse : Warehouse
  pub recipients : List String

-- `_build_subject`
unfoldable pub build_subject : Alert → (product_name : String) → String
build_subject alert product_name =
    "[Inventory Alert] "
    ++ (if type_eq alert.alert_type AlertType.out_of_stock then "OUT OF STOCK" else "Low Stock")
    ++ ": "
    ++ product_name

module _ ⦃mailing : Mailing⦄ ⦃texts : Texts⦄ where
  -- `_build_body`
  unfoldable pub build_body : Alert → (product_name warehouse_name : String) → String
  build_body alert product_name warehouse_name =
      "Product: "
      ++ product_name
      ++ "\nWarehouse: "
      ++ warehouse_name
      ++ "\nAlert type: "
      ++ alert_type_value alert.alert_type
      ++ "\nCurrent quantity: "
      ++ mailing.str_int alert.quantity_at_trigger
      ++ "\nThreshold: "
      ++ mailing.str_int alert.threshold
      ++ "\nTriggered at: "
      ++ texts.isoformat (mailing.created_at alert)
      ++ "\n"

  -- Behind the session: no recipients, no mail.
  abbrev pub mail_to : List String → Context → Post → Result ⊤ × Post
  mail_to [] c p = (ok tt, p)
  mail_to (address ∷ addresses) c p =
      send_email (address ∷ addresses) (build_subject c.alert c.product.name)
        (build_body c.alert c.product.name c.warehouse.name) p

  abbrev pub notify : Result Context × World → Post → Result ⊤ × Post
  notify (err e, s) p = (err e, record p { world = s })
  notify (ok c, s) p = mail_to c.recipients c (record p { world = s })

module _ ⦃env : Env⦄ where
  -- `async with TaskSessionLocal() as session: …`
  unfoldable pub load_context : Uuid → Action Context
  load_context alert_id = do
    alert ← get_by_id_or_raise alert_model alert_id
    product ← get_by_id_or_raise product_model alert.product_id
    warehouse ← get_by_id_or_raise warehouse_model alert.warehouse_id
    superusers ← list_active_superusers
    pure (record {
      alert = alert;
      product = product;
      warehouse = warehouse;
      recipients = map (λ (user : User). user.email) superusers;
    })

  -- `_send_low_stock_alert_email`
  unfoldable pub send_low_stock_alert_email :
      ⦃mailing : Mailing⦄ ⦃texts : Texts⦄ → Uuid → Post → Result ⊤ × Post
  send_low_stock_alert_email alert_id p = notify (with_session (load_context alert_id) p.world) p
