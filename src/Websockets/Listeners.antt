-- ===== src/Websockets/Listeners.antt =====
-- app/websockets/listeners.py: the messages and channels of events. The string forms of UUIDs and
-- of times are Python's, the fields of `Texts`.
pub mod Registration
use Prim.Native.String.{String}
use inventory_management_api.Base.{◌≡◌, ◌≢◌, Option, some, List, [], ◌∷◌}
use inventory_management_api.Base.Int.{ℤ}
use inventory_management_api.Models.{Uuid, Timestamp}
use inventory_management_api.Events.{
  Event, event_type, stock_received, stock_removed, stock_transferred, low_stock_detected,
  out_of_stock_detected,
}
use inventory_management_api.Events.Publisher.{Handler, Handlers, subscribe}

pub record Texts : Type 0 where
  pub str_uuid : Uuid → String
  pub isoformat : Timestamp → String
  pub not_global : (u : Uuid) → str_uuid u ≢ "global"
  -- `uuid.UUID(text)`: `none` is its ValueError.
  pub uuid_of : String → Option Uuid
  pub uuid_of-str_uuid : (u : Uuid) → uuid_of (str_uuid u) ≡ some u

-- The envelope fields of `DomainEvent`.
pub record Published : Type 0 where
  pub event_id : Uuid
  pub occurred_at : Timestamp
  pub event : Event

-- A JSON object with its fields in order.
pub data Value : Type 0 where
  text : String → Value
  number : ℤ → Value

abbrev pub Message : Type 0
Message = List (String × Value)

-- The values of `_BROADCAST_EVENT_TYPES`
abbrev pub broadcast_event_types : List String
broadcast_event_types =
    "inventory.stock_received" ∷ "inventory.stock_removed" ∷ "inventory.stock_transferred"
    ∷ "inventory.low_stock_detected" ∷ "inventory.out_of_stock_detected" ∷ []

-- `for event_type in …: event_publisher.subscribe(event_type, broadcast_event)`
abbrev pub subscribe_each : List String → Handler → Handlers → Handlers
subscribe_each [] h handlers = handlers
subscribe_each (k ∷ ks) h handlers = subscribe_each ks h (subscribe k h handlers)

-- `register_websocket_listeners`: `h` is the handler `broadcast_event`.
unfoldable pub register_websocket_listeners : Handler → Handlers → Handlers
register_websocket_listeners h handlers = subscribe_each broadcast_event_types h handlers

-- What importing app/main.py leaves: it registers the listeners itself, and the services that its
-- routers import have app/tasks/celery_app.py imported, which registers them too. Each call has a
-- handler of its own.
unfoldable pub import_main : (from_tasks from_main : Handler) → Handlers
unfolding register_websocket_listeners
import_main from_tasks from_main =
    register_websocket_listeners from_main (register_websocket_listeners from_tasks [])

-- What importing app/tasks/celery_app.py leaves, in a worker.
unfoldable pub import_celery_app : (from_tasks : Handler) → Handlers
unfolding register_websocket_listeners
import_celery_app from_tasks = register_websocket_listeners from_tasks []

module _ ⦃texts : Texts⦄ where
  -- `_channels_for`
  unfoldable pub channels_for : Event → List String
  channels_for (stock_transferred _ source destination _) =
      texts.str_uuid source ∷ texts.str_uuid destination ∷ []
  channels_for (stock_received _ warehouse_id _ _) = texts.str_uuid warehouse_id ∷ []
  channels_for (stock_removed _ warehouse_id _ _) = texts.str_uuid warehouse_id ∷ []
  channels_for (low_stock_detected _ warehouse_id _ _) = texts.str_uuid warehouse_id ∷ []
  channels_for (out_of_stock_detected _ warehouse_id) = texts.str_uuid warehouse_id ∷ []

  abbrev uuid_field : String → Uuid → String × Value
  uuid_field name u = (name, text (texts.str_uuid u))

  -- The fields that each subclass adds, in their order.
  unfoldable pub payload_of : Event → Message
  payload_of (stock_received p w q r) =
      uuid_field "product_id" p
      ∷ uuid_field "warehouse_id" w
      ∷ ("quantity", number q)
      ∷ ("resulting_quantity", number r)
      ∷ []
  payload_of (stock_removed p w q r) =
      uuid_field "product_id" p
      ∷ uuid_field "warehouse_id" w
      ∷ ("quantity", number q)
      ∷ ("resulting_quantity", number r)
      ∷ []
  payload_of (stock_transferred p v w q) =
      uuid_field "product_id" p
      ∷ uuid_field "source_warehouse_id" v
      ∷ uuid_field "destination_warehouse_id" w
      ∷ ("quantity", number q)
      ∷ []
  payload_of (low_stock_detected p w q t) =
      uuid_field "product_id" p
      ∷ uuid_field "warehouse_id" w
      ∷ ("quantity", number q)
      ∷ ("threshold", number t)
      ∷ []
  payload_of (out_of_stock_detected p w) =
      uuid_field "product_id" p ∷ uuid_field "warehouse_id" w ∷ []

  -- `_serialize_event`
  unfoldable pub serialize_event : Published → Message
  unfolding payload_of
  serialize_event e =
      ("event_type", text (event_type e.event))
      ∷ uuid_field "event_id" e.event_id
      ∷ ("occurred_at", text (texts.isoformat e.occurred_at))
      ∷ payload_of e.event
