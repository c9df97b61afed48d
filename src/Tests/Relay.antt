-- ===== src/Tests/Relay.antt =====
-- A process with two WebSocket clients: one of them listens to warehouse 7, the other to all.
use inventory_management_api.Base.{◌≡◌, refl, Bool, true, Option, some, none, List, [], ◌∷◌, map}
use inventory_management_api.Events.{out_of_stock_detected}
use inventory_management_api.Events.Publisher.{publish_event}
use inventory_management_api.Websockets.Manager.{Socket, connect, global_channel}
use inventory_management_api.Websockets.Manager.Delivery.{IsTidy}
use inventory_management_api.Websockets.Listeners.{
  Published, Message, channels_for, serialize_event, import_main, import_celery_app,
}
use inventory_management_api.Websockets.Listeners.Registration.{import-handlers}
use inventory_management_api.Websockets.Pubsub.{
  Json, Envelope, Raw, confirmation, message, Process, publish_envelope, relay_one,
  relay_to_local_clients,
}
use inventory_management_api.Websockets.Pubsub.Relay.{
  relayed, relay_to_local_clients_outcome, Announced, relay-Announced,
}
use inventory_management_api.Tests.Texts.{dashes, sample_texts}

-- Envelopes travel as they are, and `none` is a text that is no envelope.
instance abbrev sample_json : Json
sample_json = record {
  Wire = Option Envelope;
  dumps = λ e. some e;
  loads = λ w. w;
  loads-dumps = λ e. refl;
}

abbrev process : Process
process = record {
  connections = connect 2 (dashes 7) (connect 1 global_channel []);
  sent = [];
  failures = 0;
}

process-IsTidy : IsTidy process.connections
unfolding dashes
process-IsTidy = record { channels = (refl, (refl, tt)); nonempty = (refl, (refl, tt)) }

abbrev sold_out : Published
sold_out = record { event_id = 3; occurred_at = 9; event = out_of_stock_detected 1 7 }

abbrev receives : Socket → Bool
receives w = true

relay-Announced_example : Announced sold_out process (
    relay_one receives
      (publish_envelope (serialize_event sold_out) (channels_for sold_out.event))
      process)
relay-Announced_example = relay-Announced receives sold_out process process-IsTidy

abbrev stream : List (Raw sample_json.Wire)
stream =
    confirmation
    ∷ message none
    ∷ publish_envelope (serialize_event sold_out) (channels_for sold_out.event)
    ∷ []

relay_to_local_clients_outcome_example :
    IsTidy (relay_to_local_clients (λ _. receives) 0 stream process).connections
    × (map
          (λ (x : List Socket × Message). x.1)
          (relay_to_local_clients (λ _. receives) 0 stream process).sent
        ≡ relayed stream [])
relay_to_local_clients_outcome_example =
    relay_to_local_clients_outcome (λ _. receives) 0 stream process process-IsTidy

import-handlers_example :
    ((publish_event (λ h. true) sold_out.event (import_celery_app 1)).ran ≡ 1 ∷ [])
    × ((publish_event (λ h. true) sold_out.event (import_main 1 2)).ran ≡ 1 ∷ 2 ∷ [])
import-handlers_example = import-handlers (λ h. true) sold_out.event 1 2
