-- ===== src/Websockets/Manager.antt =====
-- app/websockets/manager.py: the connections of one process, by channel. A dict is an association
-- list in insertion order, and a set a list without repetition. A connection is known by its
-- identity. The tasks of the event loop are not interleaved within a call.
pub mod Delivery
pub mod Broadcast
use Prim.Native.String.{String}
use text.Mathlib.Text.{◌==◌ as str_eq}
use inventory_management_api.Base.{ℕ, Bool, true, false, not, List, [], ◌∷◌, ◌==◌, if◌then◌else◌}
use inventory_management_api.Base.Rows.{any, keep}

abbrev pub Socket : Type 0
Socket = ℕ

-- `_connections`
abbrev pub Connections : Type 0
Connections = List (String × List Socket)

abbrev pub global_channel : String
global_channel = "global"

abbrev pub mem : Socket → List Socket → Bool
mem w xs = any (λ x. x == w) xs

-- `set.add` and `set.discard`
abbrev pub add : Socket → List Socket → List Socket
add w xs = if mem w xs then xs else w ∷ xs

abbrev pub discard : Socket → List Socket → List Socket
discard w xs = keep (λ x. not (x == w)) xs

abbrev pub is_empty : List Socket → Bool
is_empty [] = true
is_empty (_ ∷ _) = false

-- `_connections.get(channel, set())`
abbrev pub subscribers : String → Connections → List Socket
subscribers channel [] = []
subscribers channel ((k, ws) ∷ rest) = if str_eq k channel then ws else subscribers channel rest

-- `ConnectionManager.connect`, behind the handshake.
abbrev pub connect : Socket → String → Connections → Connections
connect w channel [] = (channel, w ∷ []) ∷ []
connect w channel ((k, ws) ∷ rest) =
    if str_eq k channel then (k, add w ws) ∷ rest else (k, ws) ∷ connect w channel rest

-- `ConnectionManager.disconnect`
abbrev pub disconnect : Socket → String → Connections → Connections
disconnect w channel [] = []
disconnect w channel ((k, ws) ∷ rest) =
    if str_eq k channel
    then (if is_empty (discard w ws) then rest else (k, discard w ws) ∷ rest)
    else (k, ws) ∷ disconnect w channel rest

-- `targets |= …`
abbrev pub union : List Socket → List Socket → List Socket
union acc [] = acc
union acc (w ∷ ws) = union (add w acc) ws

-- The loop that collects the targets.
abbrev pub collect : List String → Connections → List Socket → List Socket
collect [] c acc = acc
collect (channel ∷ channels) c acc = collect channels c (union acc (subscribers channel c))

-- The loops that drop the stale connections.
abbrev pub drop_from : Socket → List String → Connections → Connections
drop_from w [] c = c
drop_from w (channel ∷ channels) c = drop_from w channels (disconnect w channel c)

abbrev pub drop_all : List Socket → List String → Connections → Connections
drop_all [] channels c = c
drop_all (w ∷ ws) channels c = drop_all ws channels (drop_from w channels c)

-- `channels | {GLOBAL_CHANNEL}`
abbrev pub with_global : List String → List String
with_global channels =
    if any (λ k. str_eq k global_channel) channels then channels else global_channel ∷ channels

-- `ConnectionManager.broadcast`: the connections whose `send_json` is called, in turn, and the state
-- behind. `receives` says for which of them the call goes through.
unfoldable pub broadcast :
    (receives : Socket → Bool) → List String → Connections → List Socket × Connections
broadcast receives channels c =
    let channels' = with_global channels in
    let targets = collect channels' c [] in
    (targets, drop_all (keep (λ w. not (receives w)) targets) channels' c)
