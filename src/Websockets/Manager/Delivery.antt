-- ===== src/Websockets/Manager/Delivery.antt =====
-- A broadcast reaches each connection of its channels once, and drops those that fail.
use Prim.Native.String.{String}
use text.Mathlib.Text.{◌==◌ as str_eq}
use text.Mathlib.TextEquality.{eq_iff}
use inventory_management_api.Base.{
  ◌≡◌, refl, ◌∙◌, inl, inr, Bool, true, false, not, ◌&&◌, ◌||◌, List, [], ◌∷◌, ◌==◌, arith,
  Bool-cases,
}
use inventory_management_api.Base.Rows.{any, Distinct, All}
use inventory_management_api.Websockets.Manager.{
  Socket, Connections, mem, add, discard, is_empty, subscribers, connect, disconnect, union,
  collect, drop_from, drop_all,
}

-- Whether a connection is subscribed to a channel.
abbrev pub registered : String → Socket → Connections → Bool
registered channel v c = mem v (subscribers channel c)

-- One entry for each channel, none of them empty.
pub record IsTidy (c : Connections) : Type 0 where
  pub channels : Distinct (λ (x y : String × List Socket). str_eq y.0 x.0) c
  pub nonempty : All (λ (x : String × List Socket). is_empty x.1 ≡ false) c

mem_same : (v w : Socket) (xs : List Socket) → (w == v) ≡ true → mem v xs ≡ mem w xs
mem_same v w [] e = refl
mem_same v w (x ∷ xs) e = ground (arith, mem_same v w xs e)

mem-add : (v w : Socket) (xs : List Socket) → mem v (add w xs) ≡ (w == v || mem v xs)
mem-add v w xs = elim (Bool-cases (mem w xs)) [
  | inl y ↦ ground (arith, mem_same v w xs)
  | inr n ↦ ground arith
]

mem-discard : (v w : Socket) (xs : List Socket) → mem v (discard w xs) ≡ (mem v xs && not (w == v))
mem-discard v w [] = refl
mem-discard v w (x ∷ xs) = ground (arith, mem-discard v w xs)

mem-union : (v : Socket) (acc ys : List Socket) → mem v (union acc ys) ≡ (mem v acc || mem v ys)
mem-union v acc [] = ground arith
mem-union v acc (y ∷ ys) = ground (arith, mem-union v (add y acc) ys, mem-add v y acc)

pub mem-collect :
    (v : Socket) (channels : List String) (c : Connections) (acc : List Socket)
    → mem v (collect channels c acc) ≡ (mem v acc || any (λ k. registered k v c) channels)
mem-collect v [] c acc = ground arith
mem-collect v (k ∷ ks) c acc =
    ground
      (arith, mem-collect v ks c (union acc (subscribers k c)), mem-union v acc (subscribers k c))

Distinct-add :
    (w : Socket) (xs : List Socket)
    → Distinct (λ x y. y == x) xs
    → Distinct (λ x y. y == x) (add w xs)
Distinct-add w xs d = ground arith

Distinct-union :
    (acc ys : List Socket) → Distinct (λ x y. y == x) acc → Distinct (λ x y. y == x) (union acc ys)
Distinct-union acc [] d = d
Distinct-union acc (y ∷ ys) d = Distinct-union (add y acc) ys (Distinct-add y acc d)

pub Distinct-collect :
    (channels : List String) (c : Connections) (acc : List Socket)
    → Distinct (λ x y. y == x) acc
    → Distinct (λ x y. y == x) (collect channels c acc)
Distinct-collect [] c acc d = d
Distinct-collect (k ∷ ks) c acc d =
    Distinct-collect ks c (union acc (subscribers k c)) (Distinct-union acc (subscribers k c) d)

registered_absent :
    (k : String) (v : Socket) (c : Connections)
    → any (λ (y : String × List Socket). str_eq y.0 k) c ≡ false
    → registered k v c ≡ false
registered_absent k v [] h = refl
registered_absent k v ((j, us) ∷ c) h = ground (arith, registered_absent k v c)

-- A connection is subscribed to just one channel more.
pub registered-connect :
    (k channel : String) (v w : Socket) (c : Connections)
    → registered k v (connect w channel c) ≡ ((str_eq channel k && (w == v)) || registered k v c)
registered-connect k channel v w [] = ground (arith, eq_iff channel k)
registered-connect k channel v w ((j, us) ∷ c) = ground (
  arith,
  registered-connect k channel v w c,
  eq_iff channel k,
  eq_iff j k,
  eq_iff j channel,
  mem-add v w us,
)

any_key_disconnect :
    (k channel : String) (w : Socket) (c : Connections)
    → any (λ (y : String × List Socket). str_eq y.0 k) c ≡ false
    → any (λ (y : String × List Socket). str_eq y.0 k) (disconnect w channel c) ≡ false
any_key_disconnect k channel w [] h = refl
any_key_disconnect k channel w ((j, us) ∷ c) h = ground (arith, any_key_disconnect k channel w c)

any_key_connect :
    (k channel : String) (w : Socket) (c : Connections)
    → any (λ (y : String × List Socket). str_eq y.0 k) c ≡ false
    → str_eq channel k ≡ false
    → any (λ (y : String × List Socket). str_eq y.0 k) (connect w channel c) ≡ false
any_key_connect k channel w [] h n = ground arith
any_key_connect k channel w ((j, us) ∷ c) h n = ground (arith, any_key_connect k channel w c)

tail : {e : String × List Socket} {c : Connections} → IsTidy (e ∷ c) → IsTidy c
tail h = record { channels = h.channels.1; nonempty = h.nonempty.1 }

IsTidy-cons :
    (k : String) (ws : List Socket) (c : Connections)
    → any (λ (y : String × List Socket). str_eq y.0 k) c ≡ false
    → is_empty ws ≡ false
    → IsTidy c
    → IsTidy ((k, ws) ∷ c)
IsTidy-cons k ws c new some_left h = record {
  channels = (new, h.channels);
  nonempty = (some_left, h.nonempty);
}

add_nonempty : (w : Socket) (xs : List Socket) → is_empty xs ≡ false → is_empty (add w xs) ≡ false
add_nonempty w xs h = ground arith

pub IsTidy-connect :
    (channel : String) (w : Socket) (c : Connections) → IsTidy c → IsTidy (connect w channel c)
IsTidy-connect channel w [] h = record { channels = (refl, tt); nonempty = (refl, tt) }
IsTidy-connect channel w ((j, us) ∷ c) h = elim (Bool-cases (str_eq j channel)) [
  | inl y ↦ rw y (IsTidy-cons j (add w us) c h.channels.0 (add_nonempty w us h.nonempty.0) (tail h))
  | inr n ↦ rw n (
      IsTidy-cons j us (connect w channel c)
        (any_key_connect j channel w c h.channels.0
          (ground (arith, eq_iff j channel, eq_iff channel j)))
        h.nonempty.0 (IsTidy-connect channel w c (tail h)))
]

pub IsTidy-disconnect :
    (channel : String) (w : Socket) (c : Connections) → IsTidy c → IsTidy (disconnect w channel c)
IsTidy-disconnect channel w [] h = h
IsTidy-disconnect channel w ((j, us) ∷ c) h = elim (Bool-cases (str_eq j channel)) [
  | inl y ↦ elim (Bool-cases (is_empty (discard w us))) [
    | inl gone ↦ rw (y, gone) (tail h)
    | inr left ↦ rw (y, left) (IsTidy-cons j (discard w us) c h.channels.0 left (tail h))
  ]
  | inr n ↦ rw n (
      IsTidy-cons j us (disconnect w channel c) (any_key_disconnect j channel w c h.channels.0)
        h.nonempty.0 (IsTidy-disconnect channel w c (tail h)))
]

mem_empty : (v : Socket) (xs : List Socket) → is_empty xs ≡ true → mem v xs ≡ false
mem_empty v [] e = refl
mem_empty v (x ∷ xs) e = absurd (cc e)

-- A connection is subscribed to just that channel less.
pub registered-disconnect :
    (k channel : String) (v w : Socket) (c : Connections)
    → IsTidy c
    → registered k v (disconnect w channel c)
      ≡ (registered k v c && not (str_eq channel k && (w == v)))
registered-disconnect k channel v w [] h = refl
registered-disconnect k channel v w ((j, us) ∷ c) h =
    let ih = registered-disconnect k channel v w c (tail h) in
    ground (
      arith,
      ih,
      mem-discard v w us,
      mem_empty v (discard w us),
      registered_absent k v c,
      eq_iff j channel,
      eq_iff channel k,
      eq_iff j k,
    )

drop_from_lem :
    (k : String) (v w : Socket) (channels : List String) (c : Connections)
    → IsTidy c
    → IsTidy (drop_from w channels c)
      × (registered k v (drop_from w channels c)
          ≡ (registered k v c && not (any (λ j. str_eq j k) channels && (w == v))))
drop_from_lem k v w [] c h = (h, ground arith)
drop_from_lem k v w (j ∷ js) c h =
    let rest = drop_from_lem k v w js (disconnect w j c) (IsTidy-disconnect j w c h) in
    (rest.0, rest.1 ∙ rw (registered-disconnect k j v w c h) (ground arith))

pub drop_all_lem :
    (k : String) (v : Socket) (ws : List Socket) (channels : List String) (c : Connections)
    → IsTidy c
    → IsTidy (drop_all ws channels c)
      × (registered k v (drop_all ws channels c)
          ≡ (registered k v c && not (any (λ j. str_eq j k) channels && mem v ws)))
drop_all_lem k v [] channels c h = (h, ground arith)
drop_all_lem k v (w ∷ ws) channels c h =
    let one = drop_from_lem k v w channels c h in
    let rest = drop_all_lem k v ws channels (drop_from w channels c) one.0 in
    (rest.0, rest.1 ∙ rw one.1 (ground arith))
