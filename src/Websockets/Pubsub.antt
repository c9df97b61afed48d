-- ===== src/Websockets/Pubsub.antt =====
-- app/websockets/pubsub.py: broadcasts go through Redis, and every process relays them to its own
-- clients. Redis delivers what is published to each subscription in order; `json.dumps` and
-- `json.loads` are the fields of `Json`.
pub mod Relay
use Prim.Native.String.{String}
use inventory_management_api.Base.{ℕ, suc, ◌≡◌, Bool, Option, none, some, List, [], ◌∷◌, ◌++◌}
use inventory_management_api.Websockets.Manager.{Socket, Connections, broadcast}
use inventory_management_api.Websockets.Listeners.{Message}

-- `{"message": message, "channels": list(channels)}`
pub record Envelope : Type 0 where
  pub message : Message
  pub channels : List String

-- The texts that travel, and what `loads` makes of one: `none` where it is not JSON, or not an
-- envelope.
pub record Json : Type 1 where
  pub Wire : Type 0
  pub dumps : Envelope → Wire
  pub loads : Wire → Option Envelope
  pub loads-dumps : (e : Envelope) → loads (dumps e) ≡ some e

-- What `pubsub.listen()` yields: confirmations, and messages with their data.
pub data Raw (Wire : Type 0) : Type 0 where
  confirmation : Raw Wire
  message : Wire → Raw Wire

-- A process that relays: its connections, and what it has sent to whom, the latest first.
pub record Process : Type 0 where
  pub connections : Connections
  pub sent : List (List Socket × Message)
  -- How many messages of the subscription were skipped with a logged exception.
  pub failures : ℕ

module _ ⦃json : Json⦄ where
  -- `RedisBroadcaster.publish`: what goes to the channel.
  unfoldable pub publish_envelope : Message → List String → Raw json.Wire
  publish_envelope m channels = message (json.dumps (record { message = m; channels = channels }))

  unfoldable pub relay_envelope : (receives : Socket → Bool) → Option Envelope → Process → Process
  relay_envelope receives none p = record p { failures = suc p.failures }
  relay_envelope receives (some e) p =
      let (targets, connections) = broadcast receives e.channels p.connections in
      record p { connections = connections; sent = (targets, e.message) ∷ p.sent }

  -- One round of `async for raw in pubsub.listen()`
  unfoldable pub relay_one : (receives : Socket → Bool) → Raw json.Wire → Process → Process
  unfolding relay_envelope
  relay_one receives confirmation p = p
  relay_one receives (message data_text) p = relay_envelope receives (json.loads data_text) p

  -- `relay_to_local_clients`, on what the subscription has yielded so far. `receives n w` says whether
  -- the client `w` can be sent to during the `n`-th round.
  unfoldable pub relay_to_local_clients :
      (receives : ℕ → Socket → Bool) → (round : ℕ) → List (Raw json.Wire) → Process → Process
  unfolding relay_one
  relay_to_local_clients receives round [] p = p
  relay_to_local_clients receives round (raw ∷ raws) p =
      relay_to_local_clients receives (suc round) raws (relay_one (receives round) raw p)
