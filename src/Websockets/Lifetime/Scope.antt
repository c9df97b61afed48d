-- ===== src/Websockets/Lifetime/Scope.antt =====
-- Whom a heartbeat reaches, and what a connection leaves behind.
use Prim.Native.String.{String}
use text.Mathlib.Text.{◌==◌ as str_eq}
use text.Mathlib.TextEquality.{eq_iff}
use inventory_management_api.Base.{◌≡◌, ◌∙◌, Bool, false, ◌&&◌, List, [], ◌∷◌, ◌==◌, ==_iff, arith}
use inventory_management_api.Websockets.Manager.{
  Socket, Connections, global_channel, mem, connect, broadcast,
}
use inventory_management_api.Websockets.Manager.Delivery.{
  registered, IsTidy, IsTidy-connect, IsTidy-disconnect, registered-disconnect,
}
use inventory_management_api.Websockets.Manager.Broadcast.{Delivered, broadcast_outcome}
use inventory_management_api.Websockets.Lifetime.{broadcast_heartbeat, websocket_endpoint}

-- What a heartbeat has done.
pub record Beaten (receives : Socket → Bool) (c : Connections) (sent : List Socket)
    (c' : Connections) : Type 0 where
  pub reached : (v : Socket) → mem v sent ≡ registered global_channel v c
  pub pruned :
      (v : Socket) → registered global_channel v c' ≡ (registered global_channel v c && receives v)
  pub others :
      (k : String) (v : Socket)
      → str_eq global_channel k ≡ false
      → registered k v c' ≡ registered k v c
  pub tidy : IsTidy c'

-- Where channels have one entry each, a heartbeat is sent to the subscribers of the global channel,
-- of which it drops those that fail. A client of a warehouse's channel alone is sent none, and stays
-- subscribed whether it is there or not.
pub broadcast_heartbeat_outcome :
    (receives : Socket → Bool) (c : Connections)
    → IsTidy c
    → Beaten receives c (broadcast_heartbeat receives c).0 (broadcast_heartbeat receives c).1
unfolding broadcast_heartbeat
broadcast_heartbeat_outcome receives c h =
    beaten (broadcast_outcome receives (global_channel ∷ []) c h)
  where
    beaten :
        Delivered receives
          (global_channel ∷ [])
          c
          (broadcast receives (global_channel ∷ []) c).0
          (broadcast receives (global_channel ∷ []) c).1
        → Beaten receives c
            (broadcast receives (global_channel ∷ []) c).0
            (broadcast receives (global_channel ∷ []) c).1
    beaten d = record {
      reached = λ v. d.reached v ∙ ground arith;
      pruned = λ v. d.kept global_channel v ∙ ground arith;
      others = λ k v n. d.kept k v ∙ ground (arith, n);
      tidy = d.tidy;
    }

-- What a connection leaves behind.
pub record Gone (websocket : Socket) (channel : String) (before after : Connections) : Type 0 where
  pub gone : registered channel websocket after ≡ false
  pub others :
      (k : String) (v : Socket)
      → (str_eq channel k && (websocket == v)) ≡ false
      → registered k v after ≡ registered k v before
  pub tidy : IsTidy after

-- Where channels have one entry each and what goes on meanwhile keeps that, a connection that ends
-- leaves no subscription of its client to its channel, and changes no other subscription by ending.
pub websocket_endpoint-Gone :
    (meanwhile : Connections → Connections) (websocket : Socket) (channel : String)
    (c : Connections)
    → IsTidy c
    → ((d : Connections) → IsTidy d → IsTidy (meanwhile d))
    → Gone websocket channel
        (meanwhile (connect websocket channel c))
        (websocket_endpoint meanwhile websocket channel c)
unfolding websocket_endpoint
websocket_endpoint-Gone meanwhile w channel c h keep =
    let tidy = keep (connect w channel c) (IsTidy-connect channel w c h) in
    record {
      gone =
          registered-disconnect channel channel w w _ tidy
          ∙ ground (arith, eq_iff channel channel, ==_iff w w);
      others = λ k v n. registered-disconnect k channel v w _ tidy ∙ ground (arith, n);
      tidy = IsTidy-disconnect channel w _ tidy;
    }
