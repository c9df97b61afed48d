-- ===== src/Events/Publisher.antt =====
-- app/events/publisher.py: the in-process publisher. A handler is known by its identity. The
-- handlers of an event run concurrently, so their list says which run, not in what order they end.
use Prim.Native.String.{String}
use text.Mathlib.Text.{◌==◌ as str_eq}
use text.Mathlib.TextEquality.{eq_iff}
use mathlib.Core.List.{append_assoc}
use inventory_management_api.Base.{
  ℕ, ◌≡◌, refl, ◌∙◌, ap, sym, inl, inr, Bool, true, false, List, [], ◌∷◌, ◌++◌, arith,
  if◌then◌else◌, Bool-cases,
}
use inventory_management_api.Base.Rows.{keep}
use inventory_management_api.Events.{Event, event_type}

abbrev pub Handler : Type 0
Handler = ℕ

-- `_handlers`
abbrev pub Handlers : Type 0
Handlers = List (String × List Handler)

-- `self._handlers.get(event_type, [])`
abbrev pub handlers_of : String → Handlers → List Handler
handlers_of k [] = []
handlers_of k ((j, hs) ∷ rest) = if str_eq j k then hs else handlers_of k rest

-- `InProcessEventPublisher.subscribe`
abbrev pub subscribe : String → Handler → Handlers → Handlers
subscribe k h [] = (k, h ∷ []) ∷ []
subscribe k h ((j, hs) ∷ rest) =
    if str_eq j k then (j, hs ++ (h ∷ [])) ∷ rest else (j, hs) ∷ subscribe k h rest

-- The handlers that were run, and those whose failure was logged.
pub record Dispatch : Type 0 where
  pub ran : List Handler
  pub logged : List Handler

-- `InProcessEventPublisher.publish`: `fails` says which handlers raise an Exception.
unfoldable pub dispatch : (fails : Handler → Bool) → List Handler → Dispatch
dispatch fails [] = record { ran = []; logged = [] }
dispatch fails (h ∷ hs) = record { ran = h ∷ hs; logged = keep fails (h ∷ hs) }

unfoldable pub publish_event : (fails : Handler → Bool) → Event → Handlers → Dispatch
unfolding dispatch
publish_event fails event handlers = dispatch fails (handlers_of (event_type event) handlers)

-- A run of subscriptions, in their order.
abbrev pub subscribe_all : List (String × Handler) → Handlers → Handlers
subscribe_all [] handlers = handlers
subscribe_all ((k, h) ∷ subs) handlers = subscribe_all subs (subscribe k h handlers)

-- The handlers that a run of subscriptions names for one type of event.
abbrev pub subscribed : String → List (String × Handler) → List Handler
subscribed k [] = []
subscribed k ((j, h) ∷ subs) = if str_eq j k then h ∷ subscribed k subs else subscribed k subs

pub append_nil : (hs : List Handler) → hs ++ [] ≡ hs
append_nil [] = refl
append_nil (h ∷ hs) = ap (λ r. h ∷ r) (append_nil hs)

pub handlers_of-subscribe :
    (k j : String) (h : Handler) (handlers : Handlers)
    → handlers_of k (subscribe j h handlers)
      ≡ handlers_of k handlers ++ (if str_eq j k then h ∷ [] else [])
handlers_of-subscribe k j h [] = refl
handlers_of-subscribe k j h ((i, hs) ∷ rest) = elim (Bool-cases (str_eq i j)) [
  | inl y ↦ elim (Bool-cases (str_eq i k)) [
    | inl z ↦ rw (y, z, same_key y z)
    | inr z ↦ rw (y, z, other_key y z) (sym (append_nil (handlers_of k rest)))
  ]
  | inr n ↦ elim (Bool-cases (str_eq i k)) [
    | inl z ↦ rw (n, z, not_its_key n z) (sym (append_nil hs))
    | inr z ↦ rw (n, z) (handlers_of-subscribe k j h rest)
  ]
]
  where
    same_key : str_eq i j ≡ true → str_eq i k ≡ true → str_eq j k ≡ true
    same_key y z = ground (arith, eq_iff i j, eq_iff i k, eq_iff j k)

    other_key : str_eq i j ≡ true → str_eq i k ≡ false → str_eq j k ≡ false
    other_key y z = ground (arith, eq_iff i j, eq_iff i k, eq_iff j k)

    not_its_key : str_eq i j ≡ false → str_eq i k ≡ true → str_eq j k ≡ false
    not_its_key n z = ground (arith, eq_iff i j, eq_iff i k, eq_iff j k)

handlers_of-subscribe_all :
    (k : String) (subs : List (String × Handler)) (handlers : Handlers)
    → handlers_of k (subscribe_all subs handlers) ≡ handlers_of k handlers ++ subscribed k subs
handlers_of-subscribe_all k [] handlers = sym (append_nil (handlers_of k handlers))
handlers_of-subscribe_all k ((j, h) ∷ subs) handlers =
    handlers_of-subscribe_all k subs (subscribe j h handlers)
    ∙ ap (λ hs. hs ++ subscribed k subs) (handlers_of-subscribe k j h handlers)
    ∙ append_assoc (handlers_of k handlers) (if str_eq j k then h ∷ [] else []) (subscribed k subs)
    ∙ ap (λ hs. handlers_of k handlers ++ hs) one_more
  where
    one_more :
        (if str_eq j k then h ∷ [] else []) ++ subscribed k subs ≡ subscribed k ((j, h) ∷ subs)
    one_more = elim (Bool-cases (str_eq j k)) [ inl y ↦ rw y | inr n ↦ rw n ]

pub dispatch_lem :
    (fails : Handler → Bool) (hs : List Handler)
    → dispatch fails hs ≡ record { ran = hs; logged = keep fails hs }
unfolding dispatch
dispatch_lem fails [] = refl
dispatch_lem fails (h ∷ hs) = refl

-- An event runs just the handlers that were subscribed to its type, each as often as it was, in the
-- order of the subscriptions; a handler that fails is logged, and the others run all the same.
pub publish_event-subscribe_all :
    (fails : Handler → Bool) (event : Event) (subs : List (String × Handler))
    → publish_event fails event (subscribe_all subs []) ≡ record {
      ran = subscribed (event_type event) subs;
      logged = keep fails (subscribed (event_type event) subs);
    }
unfolding publish_event
publish_event-subscribe_all fails event subs =
    ap (dispatch fails) (handlers_of-subscribe_all (event_type event) subs [])
    ∙ dispatch_lem fails (subscribed (event_type event) subs)
