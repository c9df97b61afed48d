-- ===== src/Websockets/Lifetime.antt =====
-- app/core/scheduler.py and app/api/v1/endpoints/websockets.py: the heartbeat, and the life of one
-- connection.
pub mod Scope
use Prim.Native.String.{String}
use inventory_management_api.Base.{Bool, List, [], ◌∷◌}
use inventory_management_api.Websockets.Manager.{
  Socket, Connections, global_channel, connect, disconnect, broadcast,
}

-- `_broadcast_heartbeat`: `broadcast` without channels means the global one.
unfoldable pub broadcast_heartbeat :
    (receives : Socket → Bool) → Connections → List Socket × Connections
broadcast_heartbeat receives c = broadcast receives (global_channel ∷ []) c

-- `websocket_endpoint`: the client connects, the process does what else it does, and when the client
-- is gone, its subscription goes, whatever ended the loop.
unfoldable pub websocket_endpoint :
    (meanwhile : Connections → Connections) → Socket → String → Connections → Connections
websocket_endpoint meanwhile websocket channel c =
    disconnect websocket channel (meanwhile (connect websocket channel c))
