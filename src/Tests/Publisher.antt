-- ===== src/Tests/Publisher.antt =====
-- A publisher with three subscriptions, of which one is to another type of event.
use Prim.Native.String.{String}
use inventory_management_api.Base.{◌≡◌, List, [], ◌∷◌, ◌==◌}
use inventory_management_api.Base.Rows.{keep}
use inventory_management_api.Events.{Event, out_of_stock_detected, event_type}
use inventory_management_api.Events.Publisher.{
  Handler, publish_event, subscribe_all, subscribed, publish_event-subscribe_all,
}

abbrev subscriptions : List (String × Handler)
subscriptions =
    ("inventory.out_of_stock_detected", 1)
    ∷ ("inventory.stock_received", 2)
    ∷ ("inventory.out_of_stock_detected", 3)
    ∷ []

abbrev sold_out : Event
sold_out = out_of_stock_detected 1 7

publish_event-subscribe_all_example :
    publish_event (λ h. h == 1) sold_out (subscribe_all subscriptions []) ≡ record {
      ran = subscribed (event_type sold_out) subscriptions;
      logged = keep (λ h. h == 1) (subscribed (event_type sold_out) subscriptions);
    }
publish_event-subscribe_all_example =
    publish_event-subscribe_all (λ h. h == 1) sold_out subscriptions
