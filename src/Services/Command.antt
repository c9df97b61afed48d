-- ===== src/Services/Command.antt =====
-- app/services/inventory_command.py: the write side of the inventory.
pub mod Changes
pub mod Increase
pub mod Moves
pub mod Transaction
pub mod Record
pub mod Faults
pub mod Causes
pub mod Decisions
pub mod Refines
pub mod Runs
pub mod LegLocks
pub mod RowsStay
pub mod Locks
pub mod Plan
use inventory_management_api.Base.{
  ⊤, Bool, true, false, Option, none, some, List, [], ◌∷◌, ◌==◌, leb, if◌then◌else◌,
}
use inventory_management_api.Base.Int.{ℤ, pos, ◌+ℤ◌, ◌-ℤ◌, ltb_ℤ}
use inventory_management_api.Errors.{app, assertion, index_error, not_found, insufficient_stock}
use inventory_management_api.Models.{Uuid, MovementType, Inventory, Movement, Timestamp}
use inventory_management_api.Events.{Event, stock_received, stock_removed, stock_transferred}
use inventory_management_api.Schemas.Movement.{MovementCreate}
use inventory_management_api.Session.{
  Env, Action, pure, or_raise, raise_if, commit, publish, uuid4, now, ◌>>=◌, ◌>>◌,
}
use inventory_management_api.Repositories.Base.{get_by_id_or_raise, create}
use inventory_management_api.Repositories.Catalog.{product_model, warehouse_model}
use inventory_management_api.Repositories.Inventories.{
  inventory_model, movement_model, get_by_product_and_warehouse_for_update, flush_quantity,
}
use inventory_management_api.Services.Alert.{evaluate_stock_level}

abbrev head? : {A : Type 0} → List A → Option A
head? [] = none
head? (x ∷ xs) = some x

-- What a call that changed two inventory objects holds of the one changed first: the object itself,
-- so its last state if the two are one.
unfoldable pub alias : (first last : Inventory) → Inventory
alias first last = if first.id == last.id then last else first

-- `Inventory(product_id=…, warehouse_id=…, quantity=0)`
unfoldable pub new_inventory : (product_id warehouse_id id : Uuid) → Inventory
new_inventory product_id warehouse_id id = record {
  id = id;
  product_id = product_id;
  warehouse_id = warehouse_id;
  quantity = pos 0;
  low_stock_threshold = none;
}

-- `sorted((source, destination), key=str)[0] == source`
unfoldable pub source_first : (source destination : Uuid) → Bool
source_first source destination =
    let first_id = if leb source destination then source else destination in first_id == source

-- `Movement(product_id=…, …)`
unfoldable pub new_movement : MovementCreate → Option Uuid → Uuid → Timestamp → Movement
new_movement d performed_by id created_at = record {
  id = id;
  product_id = d.product_id;
  movement_type = d.movement_type;
  quantity = d.quantity;
  source_warehouse_id = d.source_warehouse_id;
  destination_warehouse_id = d.destination_warehouse_id;
  reason = d.reason;
  performed_by = performed_by;
  created_at = created_at;
}

-- `_build_movement_event`
unfoldable pub build_movement_event : MovementType → MovementCreate → List Inventory → Action Event
build_movement_event MovementType.in_ d affected = do
  destination ← or_raise d.destination_warehouse_id assertion
  inventory ← or_raise (head? affected) index_error
  pure (stock_received d.product_id destination d.quantity inventory.quantity)
build_movement_event MovementType.out d affected = do
  source ← or_raise d.source_warehouse_id assertion
  inventory ← or_raise (head? affected) index_error
  pure (stock_removed d.product_id source d.quantity inventory.quantity)
build_movement_event MovementType.transfer d affected = do
  source ← or_raise d.source_warehouse_id assertion
  destination ← or_raise d.destination_warehouse_id assertion
  pure (stock_transferred d.product_id source destination d.quantity)

module _ ⦃env : Env⦄ where
  -- `if inventory is None: inventory = await create(…)`
  unfoldable pub found_or_new : Uuid → Uuid → Option Inventory → Action Inventory
  found_or_new product_id warehouse_id (some inventory) = pure inventory
  found_or_new product_id warehouse_id none = do
    id ← uuid4
    create inventory_model (new_inventory product_id warehouse_id id)

  -- `_increase_stock`
  unfoldable pub increase_stock : (product_id warehouse_id : Uuid) → ℤ → Action Inventory
  increase_stock product_id warehouse_id quantity = do
    get_by_id_or_raise warehouse_model warehouse_id
    existing ← get_by_product_and_warehouse_for_update product_id warehouse_id
    inventory ← found_or_new product_id warehouse_id existing
    flush_quantity inventory (inventory.quantity +ℤ quantity)

  -- `_decrease_stock`
  unfoldable pub decrease_stock : (product_id warehouse_id : Uuid) → ℤ → Action Inventory
  decrease_stock product_id warehouse_id quantity = do
    get_by_id_or_raise warehouse_model warehouse_id
    existing ← get_by_product_and_warehouse_for_update product_id warehouse_id
    inventory ← or_raise existing (app not_found)
    raise_if (ltb_ℤ inventory.quantity quantity) (app insufficient_stock)
    flush_quantity inventory (inventory.quantity -ℤ quantity)

  -- `_transfer_stock`
  unfoldable pub transfer_stock :
      (product_id source destination : Uuid) → ℤ → Action (Inventory × Inventory)
  transfer_stock product_id source destination quantity =
      if source_first source destination
      then (do
        source_inventory ← decrease_stock product_id source quantity
        destination_inventory ← increase_stock product_id destination quantity
        pure (alias source_inventory destination_inventory, destination_inventory))
      else (do
        destination_inventory ← increase_stock product_id destination quantity
        source_inventory ← decrease_stock product_id source quantity
        pure (source_inventory, alias destination_inventory source_inventory))

  -- The branch of an IN movement, and so on for the other types. Each returns the affected records.
  unfoldable pub apply_in : MovementCreate → Action (List Inventory)
  apply_in d = do
    destination ← or_raise d.destination_warehouse_id assertion
    inventory ← increase_stock d.product_id destination d.quantity
    pure (inventory ∷ [])

  unfoldable pub apply_out : MovementCreate → Action (List Inventory)
  apply_out d = do
    source ← or_raise d.source_warehouse_id assertion
    inventory ← decrease_stock d.product_id source d.quantity
    pure (inventory ∷ [])

  unfoldable pub apply_transfer : MovementCreate → Action (List Inventory)
  apply_transfer d = do
    source ← or_raise d.source_warehouse_id assertion
    destination ← or_raise d.destination_warehouse_id assertion
    (source_inventory, destination_inventory) ←
        transfer_stock d.product_id source destination d.quantity
    pure (source_inventory ∷ destination_inventory ∷ [])

  unfoldable pub apply_movement : MovementType → MovementCreate → Action (List Inventory)
  apply_movement MovementType.in_ d = apply_in d
  apply_movement MovementType.out d = apply_out d
  apply_movement MovementType.transfer d = apply_transfer d

  -- `for inventory in affected: await self.alert_service.evaluate_stock_level(inventory)`
  unfoldable pub evaluate_all : List Inventory → Action ⊤
  evaluate_all [] = pure tt
  evaluate_all (r ∷ rs) = evaluate_stock_level r >> evaluate_all rs

  -- The part of `record_movement` up to its commit.
  unfoldable pub apply_and_commit :
      MovementCreate → Option Uuid → Action (Movement × List Inventory)
  apply_and_commit d performed_by = do
    get_by_id_or_raise product_model d.product_id
    affected ← apply_movement d.movement_type d
    id ← uuid4
    time ← now
    movement ← create movement_model (new_movement d performed_by id time)
    commit
    pure (movement, affected)

  -- The part behind the commit: the alerts, and then the event.
  unfoldable pub announce : MovementCreate → List Inventory → Action ⊤
  announce d affected = do
    evaluate_all affected
    event ← build_movement_event d.movement_type d affected
    publish event

  -- `InventoryCommandService.record_movement`
  unfoldable pub record_movement : MovementCreate → Option Uuid → Action Movement
  record_movement d performed_by = do
    (movement, affected) ← apply_and_commit d performed_by
    announce d affected
    pure movement
