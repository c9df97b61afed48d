-- ===== src/Websockets/Listeners/Registration.antt =====
-- Which handlers the events reach once the listeners are registered.
use Prim.Native.String.{String}
use text.Mathlib.Text.{◌==◌ as str_eq}
use mathlib.Core.List.{append_assoc}
use inventory_management_api.Base.{
  ◌≡◌, refl, ◌∙◌, ap, sym, Bool, List, [], ◌∷◌, ◌++◌, if◌then◌else◌,
}
use inventory_management_api.Events.{
  Event, event_type, stock_received, stock_removed, stock_transferred, low_stock_detected,
  out_of_stock_detected,
}
use inventory_management_api.Events.Publisher.{
  Handler, Handlers, handlers_of, publish_event, dispatch, handlers_of-subscribe, append_nil,
  dispatch_lem,
}
use inventory_management_api.Websockets.Listeners.{
  subscribe_each, broadcast_event_types, register_websocket_listeners, import_main,
  import_celery_app,
}

-- How often a list of types names one.
abbrev copies : String → List String → Handler → List Handler
copies k [] h = []
copies k (j ∷ js) h = (if str_eq j k then h ∷ [] else []) ++ copies k js h

handlers_of-subscribe_each :
    (k : String) (ks : List String) (h : Handler) (handlers : Handlers)
    → handlers_of k (subscribe_each ks h handlers) ≡ handlers_of k handlers ++ copies k ks h
handlers_of-subscribe_each k [] h handlers = sym (append_nil (handlers_of k handlers))
handlers_of-subscribe_each k (j ∷ js) h handlers =
    handlers_of-subscribe_each k js h _
    ∙ ap (λ hs. hs ++ copies k js h) (handlers_of-subscribe k j h handlers)
    ∙ append_assoc (handlers_of k handlers) _ (copies k js h)

-- Each type of event is listed, and once.
listed_once :
    (event : Event) (h : Handler) → copies (event_type event) broadcast_event_types h ≡ h ∷ []
unfolding event_type
listed_once (stock_received _ _ _ _) h = refl
listed_once (stock_removed _ _ _ _) h = refl
listed_once (stock_transferred _ _ _ _) h = refl
listed_once (low_stock_detected _ _ _ _) h = refl
listed_once (out_of_stock_detected _ _) h = refl

pub handlers_of-register :
    (event : Event) (h : Handler) (handlers : Handlers)
    → handlers_of (event_type event) (register_websocket_listeners h handlers)
      ≡ handlers_of (event_type event) handlers ++ (h ∷ [])
unfolding register_websocket_listeners
handlers_of-register event h handlers =
    handlers_of-subscribe_each (event_type event) broadcast_event_types h handlers
    ∙ ap (λ hs. handlers_of (event_type event) handlers ++ hs) (listed_once event h)

-- A worker forwards every event to the WebSocket clients once. The API process forwards every event
-- twice: importing app/main.py registers the listeners a second time.
pub import-handlers :
    (fails : Handler → Bool) (event : Event) (from_tasks from_main : Handler)
    → ((publish_event fails event (import_celery_app from_tasks)).ran ≡ from_tasks ∷ [])
      × ((publish_event fails event (import_main from_tasks from_main)).ran
          ≡ from_tasks ∷ from_main ∷ [])
unfolding publish_event import_main import_celery_app
import-handlers fails event a b = (
  ap (λ hs. (dispatch fails hs).ran) (handlers_of-register event a [])
      ∙ ap (λ d. d.ran) (dispatch_lem fails (a ∷ [])),
  ap (λ hs. (dispatch fails hs).ran)
        (handlers_of-register event b (register_websocket_listeners a [])
          ∙ ap (λ hs. hs ++ (b ∷ [])) (handlers_of-register event a []))
      ∙ ap (λ d. d.ran) (dispatch_lem fails (a ∷ b ∷ [])),
)
