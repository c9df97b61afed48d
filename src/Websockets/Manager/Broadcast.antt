-- ===== src/Websockets/Manager/Broadcast.antt =====
-- What a broadcast delivers, and what it leaves, for all states that a process can reach.
use Prim.Native.String.{String}
use text.Mathlib.Text.{◌==◌ as str_eq}
use text.Mathlib.TextEquality.{eq_iff}
use inventory_management_api.Base.{
  ◌≡◌, refl, ◌∙◌, inl, inr, Bool, true, not, ◌&&◌, ◌||◌, List, [], ◌∷◌, ◌==◌, ==_iff, arith,
  Bool-cases, ap,
}
use inventory_management_api.Base.Rows.{any, keep, Distinct}
use inventory_management_api.Websockets.Manager.{
  Socket, Connections, global_channel, mem, connect, disconnect, collect, drop_all, with_global,
  broadcast,
}
use inventory_management_api.Websockets.Manager.Delivery.{
  registered, IsTidy, IsTidy-connect, IsTidy-disconnect, mem-collect, Distinct-collect,
  drop_all_lem,
}

-- The states that connections, disconnections and broadcasts lead to.
pub data Reachable : Connections → Type 0 where
  start : Reachable []
  connected : {c : Connections} (w : Socket) (k : String) → Reachable c → Reachable (connect w k c)
  disconnected :
      {c : Connections} (w : Socket) (k : String) → Reachable c → Reachable (disconnect w k c)
  broadcasted :
      {c : Connections} (receives : Socket → Bool) (channels : List String)
      → Reachable c
      → Reachable (broadcast receives channels c).1

-- What a broadcast has done.
pub record Delivered (receives : Socket → Bool) (channels : List String) (c : Connections)
    (sent : List Socket) (c' : Connections) : Type 0 where
  -- No connection is sent the message twice.
  pub once : Distinct (λ x y. y == x) sent
  -- The message goes to the subscribers of the channels and of the global one, and to no other.
  pub reached : (v : Socket) → mem v sent ≡ any (λ k. registered k v c) (with_global channels)
  pub everyone : (v : Socket) → registered global_channel v c ≡ true → mem v sent ≡ true
  -- A subscription goes just if its connection failed and its channel was one of these.
  pub kept :
      (k : String) (v : Socket)
      → registered k v c'
        ≡ (registered k v c && (receives v || not (any (λ j. str_eq j k) (with_global channels))))
  pub tidy : IsTidy c'

mem-keep :
    (p : Socket → Bool) (v : Socket) (xs : List Socket) → mem v (keep p xs) ≡ (mem v xs && p v)
mem-keep p v [] = refl
mem-keep p v (x ∷ xs) = elim (Bool-cases (x == v)) [
  | inl y ↦ ground (arith, mem-keep p v xs, ap p ((==_iff x v).0 y))
  | inr n ↦ ground (arith, mem-keep p v xs)
]

any-registered :
    (k : String) (v : Socket) (ks : List String) (c : Connections)
    → any (λ j. str_eq j k) ks ≡ true
    → registered k v c ≡ true
    → any (λ j. registered j v c) ks ≡ true
any-registered k v [] c h r = absurd (cc h)
any-registered k v (j ∷ js) c h r = elim (Bool-cases (str_eq j k)) [
  | inl y ↦ rw ((eq_iff j k).0 y, r)
  | inr n ↦ ground (arith, any-registered k v js c)
]

has_global : (ks : List String) → any (λ j. str_eq j global_channel) (with_global ks) ≡ true
has_global ks = elim (Bool-cases (any (λ j. str_eq j global_channel) ks)) [
  | inl y ↦ rw (y, y)
  | inr n ↦ rw n
]

-- Where channels have one entry each, a broadcast sends its message once to each subscriber of the
-- given channels and of the global one and to no other connection; behind it, just those that
-- failed to receive it have lost their subscriptions to these channels.
pub broadcast_outcome :
    (receives : Socket → Bool) (channels : List String) (c : Connections)
    → IsTidy c
    → Delivered receives channels c
        (broadcast receives channels c).0
        (broadcast receives channels c).1
unfolding broadcast
broadcast_outcome receives channels c h = record {
  once = Distinct-collect (with_global channels) c [] tt;
  reached = λ v. mem-collect v (with_global channels) c [];
  everyone = λ v r.
      mem-collect v (with_global channels) c []
      ∙ any-registered global_channel v (with_global channels) c (has_global channels) r;
  kept = kept;
  tidy = (drop_all_lem global_channel 0 stale (with_global channels) c h).0;
}
  where
    stale : List Socket
    stale = keep (λ w. not (receives w)) (collect (with_global channels) c [])

    kept :
        (k : String) (v : Socket)
        → registered k v (drop_all stale (with_global channels) c)
          ≡ (registered k v c && (receives v || not (any (λ j. str_eq j k) (with_global channels))))
    kept k v =
        (drop_all_lem k v stale (with_global channels) c h).1
        ∙ ground (
          arith,
          mem-keep (λ w. not (receives w)) v (collect (with_global channels) c []),
          mem-collect v (with_global channels) c [],
          any-registered k v (with_global channels) c,
        )

-- In every state that a process reaches, each channel has one entry, and none of them is empty: the
-- map does not grow beyond the channels that have a subscriber.
pub Reachable-IsTidy : (c : Connections) → Reachable c → IsTidy c
Reachable-IsTidy c start = record { channels = tt; nonempty = tt }
Reachable-IsTidy c (connected w k r) = IsTidy-connect k w _ (Reachable-IsTidy _ r)
Reachable-IsTidy c (disconnected w k r) = IsTidy-disconnect k w _ (Reachable-IsTidy _ r)
Reachable-IsTidy c (broadcasted receives channels r) =
    (broadcast_outcome receives channels _ (Reachable-IsTidy _ r)).tidy
