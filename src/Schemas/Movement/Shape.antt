-- ===== src/Schemas/Movement/Shape.antt =====
-- The warehouses that a movement of each type has, and that the validator accepts just these.
use inventory_management_api.Base.{◌≡◌, ◌≢◌, ◌↔◌, refl, true, Option, none, some, arith}
use inventory_management_api.Base.Int.{pos, ◌≤ℤ◌}
use inventory_management_api.Models.{Uuid, MovementType}
use inventory_management_api.Schemas.Movement.{
  MovementCreate, warehouse_error, validate_warehouses_for_type, accepts,
}

abbrev pub IsShaped : MovementType → (source destination : Option Uuid) → Type 0
IsShaped MovementType.in_ source destination = (w : Uuid) × (destination ≡ some w) × (source ≡ none)
IsShaped MovementType.out source destination = (w : Uuid) × (source ≡ some w) × (destination ≡ none)
IsShaped MovementType.transfer source destination =
    (v w : Uuid) × (source ≡ some v) × (destination ≡ some w) × (v ≢ w)

IsShaped-of_no_error :
    (ty : MovementType) (o p : Option Uuid) → warehouse_error ty o p ≡ none → IsShaped ty o p
IsShaped-of_no_error MovementType.in_ none none h = cc
IsShaped-of_no_error MovementType.in_ none (some w) h = (w, refl, refl)
IsShaped-of_no_error MovementType.in_ (some v) none h = cc
IsShaped-of_no_error MovementType.in_ (some v) (some w) h = cc
IsShaped-of_no_error MovementType.out none none h = cc
IsShaped-of_no_error MovementType.out none (some w) h = cc
IsShaped-of_no_error MovementType.out (some v) none h = (v, refl, refl)
IsShaped-of_no_error MovementType.out (some v) (some w) h = cc
IsShaped-of_no_error MovementType.transfer none none h = cc
IsShaped-of_no_error MovementType.transfer none (some w) h = cc
IsShaped-of_no_error MovementType.transfer (some v) none h = cc
IsShaped-of_no_error MovementType.transfer (some v) (some w) h = (v, w, refl, refl, ground arith)

no_error_of_IsShaped :
    (ty : MovementType) (o p : Option Uuid) → IsShaped ty o p → warehouse_error ty o p ≡ none
no_error_of_IsShaped MovementType.in_ o p (w, e, f) = rw (e, f)
no_error_of_IsShaped MovementType.out o p (w, e, f) = rw (e, f)
no_error_of_IsShaped MovementType.transfer o p (v, w, e, f, n) = rw (e, f) (ground arith)

-- The validator raises nothing exactly if the movement names the warehouses that its type needs and
-- no other: a destination for IN, a source for OUT, two different ones for TRANSFER.
pub validate-iff-IsShaped :
    (d : MovementCreate)
    → (validate_warehouses_for_type d ≡ none)
      ↔ IsShaped d.movement_type d.source_warehouse_id d.destination_warehouse_id
unfolding validate_warehouses_for_type
validate-iff-IsShaped d = (
  IsShaped-of_no_error d.movement_type d.source_warehouse_id d.destination_warehouse_id,
  no_error_of_IsShaped d.movement_type d.source_warehouse_id d.destination_warehouse_id,
)

-- What the services may assume of a payload.
pub record IsAccepted (d : MovementCreate) : Type 0 where
  pub positive : pos 1 ≤ℤ d.quantity
  pub shaped : IsShaped d.movement_type d.source_warehouse_id d.destination_warehouse_id

pub IsAccepted-accepts : (d : MovementCreate) → accepts d ≡ true → IsAccepted d
unfolding accepts validate_warehouses_for_type
IsAccepted-accepts d h = record {
  positive = ground arith;
  shaped =
      IsShaped-of_no_error d.movement_type d.source_warehouse_id d.destination_warehouse_id
        (ground arith);
}
