-- ===== src/Tests/Locking.antt =====
-- Locks on the sample rows.
use inventory_management_api.Base.{ℕ, zero, suc, ◌<◌, refl, some, arith}
use inventory_management_api.Schemas.Movement.{MovementCreate}
use inventory_management_api.Schemas.Movement.Shape.{IsAccepted}
use inventory_management_api.Locking.{init}
use inventory_management_api.Locking.Finish.{Finishes, init-Finishes}
use inventory_management_api.Tests.Samples.{transfer_25, sample_env}
use inventory_management_api.Tests.Command.{transfer_25-IsAccepted}

-- The way back.
abbrev transfer_back : MovementCreate
transfer_back = record transfer_25 {
  source_warehouse_id = some 8;
  destination_warehouse_id = some 7;
}

transfer_back-IsAccepted : IsAccepted transfer_back
transfer_back-IsAccepted = record {
  positive = omega arith;
  shaped = (8, 7, refl, refl, omega arith);
}

-- Two transfers at the same time, in opposite directions.
abbrev opposite : ℕ → MovementCreate
opposite zero = transfer_25
opposite (suc i) = transfer_back

opposite-IsAccepted : (i : ℕ) → i < 2 → IsAccepted (opposite i)
opposite-IsAccepted zero l = transfer_25-IsAccepted
opposite-IsAccepted (suc i) l = transfer_back-IsAccepted

init-Finishes_example : Finishes 2 (init opposite)
init-Finishes_example = init-Finishes 2 opposite opposite-IsAccepted
