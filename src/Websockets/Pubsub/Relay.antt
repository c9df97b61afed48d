-- ===== src/Websockets/Pubsub/Relay.antt =====
-- What the relay makes of the messages of its subscription.
use Prim.Native.String.{String}
use text.Mathlib.Text.{◌==◌ as str_eq}
use text.Mathlib.TextEquality.{eq_iff}
use inventory_management_api.Base.{
  ℕ, suc, ◌≡◌, refl, ◌∙◌, ap, inl, inr, Bool, true, false, Option, none, some, List, [], ◌∷◌, ◌==◌,
  map, arith, Bool-cases,
}
use inventory_management_api.Base.Rows.{any, Distinct}
use inventory_management_api.Models.{Uuid}
use inventory_management_api.Events.{
  Event, stock_received, stock_removed, stock_transferred, low_stock_detected,
  out_of_stock_detected,
}
use inventory_management_api.Websockets.Manager.{
  Socket, broadcast, mem, with_global, global_channel,
}
use inventory_management_api.Websockets.Manager.Delivery.{IsTidy, registered}
use inventory_management_api.Websockets.Manager.Broadcast.{Delivered, broadcast_outcome}
use inventory_management_api.Websockets.Listeners.{
  Texts, Message, Published, channels_for, serialize_event,
}
use inventory_management_api.Websockets.Pubsub.{
  Json, Envelope, Raw, confirmation, message, Process, publish_envelope, relay_envelope, relay_one,
  relay_to_local_clients,
}

module _ ⦃json : Json⦄ where
  -- The messages that a subscription has yielded and that are envelopes, the latest first.
  abbrev prepend : Option Envelope → List Message → List Message
  prepend none ms = ms
  prepend (some e) ms = e.message ∷ ms

  abbrev pub relayed : List (Raw json.Wire) → List Message → List Message
  relayed [] ms = ms
  relayed (confirmation ∷ raws) ms = relayed raws ms
  relayed (message txt ∷ raws) ms = relayed raws (prepend (json.loads txt) ms)

  decoded :
      (receives : Socket → Bool) (o : Option Envelope) (p : Process)
      → IsTidy p.connections
      → IsTidy (relay_envelope receives o p).connections
        × (map (λ (x : List Socket × Message). x.1) (relay_envelope receives o p).sent
            ≡ prepend o (map (λ (x : List Socket × Message). x.1) p.sent))
  unfolding relay_envelope
  decoded receives none p h = (h, refl)
  decoded receives (some e) p h =
      ((broadcast_outcome receives e.channels p.connections h).tidy, refl)

  relay_one_lem :
      (receives : Socket → Bool) (raw : Raw json.Wire) (p : Process)
      → IsTidy p.connections
      → IsTidy (relay_one receives raw p).connections
        × (map (λ (x : List Socket × Message). x.1) (relay_one receives raw p).sent
            ≡ relayed (raw ∷ []) (map (λ (x : List Socket × Message). x.1) p.sent))
  unfolding relay_one
  relay_one_lem receives confirmation p h = (h, refl)
  relay_one_lem receives (message txt) p h = decoded receives (json.loads txt) p h

  -- The relay attempts every envelope that its subscription yields, in order, whatever stands between
  -- them and whoever fails to receive it, and its connections stay well formed.
  pub relay_to_local_clients_outcome :
      (receives : ℕ → Socket → Bool) (round : ℕ) (raws : List (Raw json.Wire)) (p : Process)
      → IsTidy p.connections
      → IsTidy (relay_to_local_clients receives round raws p).connections
        × (map
              (λ (x : List Socket × Message). x.1)
              (relay_to_local_clients receives round raws p).sent
            ≡ relayed raws (map (λ (x : List Socket × Message). x.1) p.sent))
  unfolding relay_to_local_clients
  relay_to_local_clients_outcome receives round [] p h = (h, refl)
  relay_to_local_clients_outcome receives round (raw ∷ raws) p h =
      let first = relay_one_lem (receives round) raw p h in
      let rest =
        relay_to_local_clients_outcome receives (suc round) raws (relay_one (receives round) raw p)
          first.0 in
      (rest.0, rest.1 ∙ ap (relayed raws) first.1 ∙ relayed_once raw raws _)
    where
      relayed_once :
          (raw : Raw json.Wire) (raws : List (Raw json.Wire)) (ms : List Message)
          → relayed raws (relayed (raw ∷ []) ms) ≡ relayed (raw ∷ raws) ms
      relayed_once confirmation raws ms = refl
      relayed_once (message txt) raws ms = refl

-- The warehouses that an event concerns.
abbrev pub warehouses_of : Event → List Uuid
warehouses_of (stock_received _ w _ _) = w ∷ []
warehouses_of (stock_removed _ w _ _) = w ∷ []
warehouses_of (stock_transferred _ v w _) = v ∷ w ∷ []
warehouses_of (low_stock_detected _ w _ _) = w ∷ []
warehouses_of (out_of_stock_detected _ w) = w ∷ []

any-with_global :
    (f : String → Bool) (ks : List String)
    → f global_channel ≡ false
    → any f (with_global ks) ≡ any f ks
any-with_global f ks n = elim (Bool-cases (any (λ k. str_eq k global_channel) ks)) [
  | inl y ↦ rw y
  | inr m ↦ rw (m, n)
]

module _ ⦃json : Json⦄ ⦃texts : Texts⦄ where
  channels_lem : (e : Event) → channels_for e ≡ map texts.str_uuid (warehouses_of e)
  unfolding channels_for
  channels_lem (stock_received _ w _ _) = refl
  channels_lem (stock_removed _ w _ _) = refl
  channels_lem (stock_transferred _ v w _) = refl
  channels_lem (low_stock_detected _ w _ _) = refl
  channels_lem (out_of_stock_detected _ w) = refl

  str_uuid_injective : (w u : Uuid) → texts.str_uuid w ≡ texts.str_uuid u → w ≡ u
  str_uuid_injective w u e =
      cc (texts.uuid_of-str_uuid w, texts.uuid_of-str_uuid u, ap texts.uuid_of e)

  same_text : (w u : Uuid) → str_eq (texts.str_uuid w) (texts.str_uuid u) ≡ (w == u)
  same_text w u =
      ground (arith, eq_iff (texts.str_uuid w) (texts.str_uuid u), str_uuid_injective w u)

  no_uuid : (u : Uuid) → str_eq global_channel (texts.str_uuid u) ≡ false
  no_uuid u = ground (arith, eq_iff global_channel (texts.str_uuid u), texts.not_global u)

  any_channel :
      (f : String → Bool) (u : Uuid) (ws : List Uuid)
      → ((k : String) → f k ≡ str_eq k (texts.str_uuid u))
      → any f (map texts.str_uuid ws) ≡ any (λ w. w == u) ws
  any_channel f u [] h = refl
  any_channel f u (w ∷ ws) h = rw (h (texts.str_uuid w), same_text w u, any_channel f u ws h)

  -- What is published about an event is relayed as its one message. A client whose only subscription
  -- is to the channel of a warehouse is sent it just if the event concerns that warehouse, and a
  -- client of the global channel is sent it whatever the event; nobody is sent it twice.
  pub record Announced (e : Published) (p p' : Process) : Type 0 where
    pub targets : List Socket
    pub sent : p'.sent ≡ (targets, serialize_event e) ∷ p.sent
    pub failures : p'.failures ≡ p.failures
    pub once : Distinct (λ x y. y == x) targets
    pub everyone :
        (v : Socket) → registered global_channel v p.connections ≡ true → mem v targets ≡ true
    pub scoped :
        (v : Socket) (u : Uuid)
        → ((k : String) → registered k v p.connections ≡ str_eq k (texts.str_uuid u))
        → mem v targets ≡ any (λ w. w == u) (warehouses_of e.event)

  pub relay-Announced :
      (receives : Socket → Bool) (e : Published) (p : Process)
      → IsTidy p.connections
      → Announced e p
          (relay_one receives (publish_envelope (serialize_event e) (channels_for e.event)) p)
  unfolding relay_one publish_envelope
  relay-Announced receives e p h =
      rw (json.loads-dumps _)
        (announced (broadcast_outcome receives (channels_for e.event) p.connections h))
    where
      announced :
          Delivered receives
            (channels_for e.event)
            p.connections
            (broadcast receives (channels_for e.event) p.connections).0
            (broadcast receives (channels_for e.event) p.connections).1
          → Announced e p (
              relay_envelope receives
                (some (record { message = serialize_event e; channels = channels_for e.event }))
                p)
      announced d =
          unfold relay_envelope in
          record {
            targets = (broadcast receives (channels_for e.event) p.connections).0;
            sent = refl;
            failures = refl;
            once = d.once;
            everyone = d.everyone;
            scoped = λ v u only.
                d.reached v
                ∙ any-with_global (λ k. registered k v p.connections) (channels_for e.event)
                    (only global_channel ∙ no_uuid u)
                ∙ ap (any (λ k. registered k v p.connections)) (channels_lem e.event)
                ∙ any_channel (λ k. registered k v p.connections) u (warehouses_of e.event) only;
          }
