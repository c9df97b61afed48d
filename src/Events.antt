-- ===== src/Events.antt =====
-- app/events/inventory.py: the domain events, with their routing keys. The envelope of
-- `DomainEvent` (`event_id`, `occurred_at`) is left out: no code reads it but the serialiser.
pub mod Publisher
use Prim.Native.String.{String}
use inventory_management_api.Base.Int.{ℤ}
use inventory_management_api.Models.{Uuid}

pub data Event : Type 0 where
  stock_received stock_removed :
      (product_id warehouse_id : Uuid) → (quantity resulting_quantity : ℤ) → Event
  stock_transferred :
      (product_id source_warehouse_id destination_warehouse_id : Uuid) → (quantity : ℤ) → Event
  low_stock_detected : (product_id warehouse_id : Uuid) → (quantity threshold : ℤ) → Event
  out_of_stock_detected : (product_id warehouse_id : Uuid) → Event

unfoldable pub event_type : Event → String
event_type (stock_received _ _ _ _) = "inventory.stock_received"
event_type (stock_removed _ _ _ _) = "inventory.stock_removed"
event_type (stock_transferred _ _ _ _) = "inventory.stock_transferred"
event_type (low_stock_detected _ _ _ _) = "inventory.low_stock_detected"
event_type (out_of_stock_detected _ _) = "inventory.out_of_stock_detected"
