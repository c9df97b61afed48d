-- ===== src/Tests/Command.antt =====
-- Stock movements on the sample rows.
use inventory_management_api.Base.{◌≡◌, ◌↔◌, refl, Option, none, some, List, [], ◌∷◌, arith}
use inventory_management_api.Base.Int.{pos, ◌+ℤ◌, ◌-ℤ◌}
use inventory_management_api.Events.{stock_transferred, low_stock_detected}
use inventory_management_api.Session.{World, with_session, ◌>>=◌, commit, publish}
use inventory_management_api.Stock.{IsStocked, IsSound, stock, delta, audited}
use inventory_management_api.Repositories.Base.{get_by_id_or_raise, create}
use inventory_management_api.Repositories.Inventories.{
  get_by_product_and_warehouse_for_update, flush_quantity, inventory_violates, movement_violates,
}
use inventory_management_api.Repositories.Alerts.{alert_violates, flush_alert}
use inventory_management_api.Services.Alert.{evaluate_stock_level}
use inventory_management_api.Services.Command.{
  alias, new_inventory, found_or_new, increase_stock, decrease_stock, source_first, transfer_stock,
  apply_in, apply_out, apply_transfer, apply_movement, new_movement, build_movement_event,
  evaluate_all, apply_and_commit, announce, record_movement,
}
use inventory_management_api.Models.{Uuid}
use inventory_management_api.Schemas.Movement.{MovementCreate, validate_warehouses_for_type}
use inventory_management_api.Schemas.Movement.Shape.{IsShaped, IsAccepted, validate-iff-IsShaped}
use inventory_management_api.Services.Command.Record.{
  record_movement_outcome, record_movement-IsSound, Failed,
}
use inventory_management_api.Services.Command.Refines.{record_movement_refines, Moves, Refuses}
use inventory_management_api.Services.Command.Runs.{Tells, record_all, answers_to, record_all-Tells}
use inventory_management_api.Stock.Ledger.{view}
use inventory_management_api.Services.Command.Transaction.{Recorded}
use inventory_management_api.Session.Ends.{Ends}
use inventory_management_api.Tests.Samples.{tables, world, transfer_25, sample_env, shelf}

-- All that a run calls.
program : Unit {0}
unfolding with_session ◌>>=◌ commit publish get_by_id_or_raise create
    get_by_product_and_warehouse_for_update flush_quantity inventory_violates movement_violates
    alert_violates flush_alert evaluate_stock_level alias new_inventory found_or_new increase_stock
    decrease_stock source_first transfer_stock apply_in apply_out apply_transfer apply_movement
    new_movement build_movement_event evaluate_all apply_and_commit announce record_movement ◌+ℤ◌
    ◌-ℤ◌
program = tt

abbrev after : World
after = (with_session (record_movement transfer_25 none) world).1

-- 5 widgets are left at warehouse 7, which raises an alert before the movement's event.
transfer_25_runs :
    (after.committed.inventories ≡ shelf 100 8 25 ∷ shelf 20 7 5 ∷ [])
    × (after.published
        ≡ stock_transferred 1 7 8 (pos 25) ∷ low_stock_detected 1 7 (pos 5) (pos 10) ∷ [])
unfolding program
transfer_25_runs = (refl, refl)

pub tables-IsStocked : IsStocked tables.inventories
tables-IsStocked = record { nonneg = omega arith; ids = (refl, tt); pairs = (refl, tt) }

pub transfer_25-IsAccepted : IsAccepted transfer_25
transfer_25-IsAccepted = record { positive = omega arith; shaped = (7, 8, refl, refl, omega arith) }

validate-iff-IsShaped_example :
    (validate_warehouses_for_type transfer_25 ≡ none)
    ↔ IsShaped transfer_25.movement_type (some 7) (some 8)
validate-iff-IsShaped_example = validate-iff-IsShaped transfer_25

record_movement_outcome_example :
    Ends
      (λ m s'. Recorded transfer_25 none tables m s'.committed)
      (λ e s'. Failed transfer_25 none world s')
      (with_session (record_movement transfer_25 none) world)
record_movement_outcome_example =
    record_movement_outcome transfer_25 none world transfer_25-IsAccepted tables-IsStocked

tables-IsSound : IsSound tables
unfolding stock audited delta ◌+ℤ◌ ◌-ℤ◌
tables-IsSound = record { stocked = tables-IsStocked; audit = λ p w. ground arith }

record_movement-IsSound_example : IsSound after.committed
record_movement-IsSound_example =
    record_movement-IsSound transfer_25 none world transfer_25-IsAccepted tables-IsSound

record_movement_refines_example :
    Ends
      (λ m s'. Moves transfer_25 none world s')
      (Refuses transfer_25 none world)
      (with_session (record_movement transfer_25 none) world)
record_movement_refines_example =
    record_movement_refines transfer_25 none world transfer_25-IsAccepted tables-IsStocked

-- Twice the same transfer: 5 widgets are left at the second, which is refused.
abbrev twice : List (MovementCreate × Option Uuid)
twice = (transfer_25, none) ∷ (transfer_25, none) ∷ []

record_all-Tells_example :
    IsSound (record_all twice world).committed
    × Tells twice (answers_to twice world) (view tables) (view (record_all twice world).committed)
record_all-Tells_example =
    record_all-Tells twice world (transfer_25-IsAccepted, (transfer_25-IsAccepted, tt))
      tables-IsSound
