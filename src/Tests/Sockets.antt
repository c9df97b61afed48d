-- ===== src/Tests/Sockets.antt =====
-- A process with two WebSocket clients.
use inventory_management_api.Base.{◌≡◌, refl, not, [], ◌∷◌, Bool, ◌==◌}
use inventory_management_api.Websockets.Manager.{
  Socket, Connections, global_channel, connect, broadcast,
}
use inventory_management_api.Websockets.Manager.Delivery.{IsTidy, IsTidy-connect}
use inventory_management_api.Websockets.Lifetime.{broadcast_heartbeat, websocket_endpoint}
use inventory_management_api.Websockets.Lifetime.Scope.{
  Beaten, broadcast_heartbeat_outcome, Gone, websocket_endpoint-Gone,
}
use inventory_management_api.Websockets.Manager.Broadcast.{
  start, connected, broadcasted, Delivered, broadcast_outcome, Reachable-IsTidy,
}

-- Client 1 listens to all, and client 2 to warehouse "7" and to all.
abbrev clients : Connections
clients = connect 2 global_channel (connect 2 "7" (connect 1 global_channel []))

-- Client 2 is gone.
abbrev receives : Socket → Bool
receives w = not (w == 2)

both_once_and_2_dropped :
    broadcast receives ("7" ∷ []) clients ≡ (1 ∷ 2 ∷ [], (global_channel, 1 ∷ []) ∷ [])
unfolding broadcast
both_once_and_2_dropped = refl

clients-IsTidy : IsTidy clients
clients-IsTidy = record { channels = (refl, (refl, tt)); nonempty = (refl, (refl, tt)) }

broadcast_outcome_example :
    Delivered receives
      ("7" ∷ [])
      clients
      (broadcast receives ("7" ∷ []) clients).0
      (broadcast receives ("7" ∷ []) clients).1
broadcast_outcome_example = broadcast_outcome receives ("7" ∷ []) clients clients-IsTidy

Reachable-IsTidy_example : IsTidy (broadcast receives ("7" ∷ []) clients).1
Reachable-IsTidy_example = Reachable-IsTidy (broadcast receives ("7" ∷ []) clients).1 (
    broadcasted receives ("7" ∷ [])
      (connected 2 global_channel (connected 2 "7" (connected 1 global_channel start))))

broadcast_heartbeat_outcome_example :
    Beaten receives clients
      (broadcast_heartbeat receives clients).0
      (broadcast_heartbeat receives clients).1
broadcast_heartbeat_outcome_example = broadcast_heartbeat_outcome receives clients clients-IsTidy

-- Meanwhile another client listens to warehouse "8".
websocket_endpoint-Gone_example :
    Gone 3 "8"
      (connect 4 "8" (connect 3 "8" clients))
      (websocket_endpoint (connect 4 "8") 3 "8" clients)
websocket_endpoint-Gone_example =
    websocket_endpoint-Gone (connect 4 "8") 3 "8" clients clients-IsTidy (IsTidy-connect "8" 4)
