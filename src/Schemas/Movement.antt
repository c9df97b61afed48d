-- ===== src/Schemas/Movement.antt =====
-- app/schemas/movement.py: the payload of a stock movement.
pub mod Shape
use Prim.Native.String.{String, count}
use inventory_management_api.Base.{
  Bool, true, false, not, ◌&&◌, leb, Option, none, some, ◌==◌, if◌then◌else◌,
}
use inventory_management_api.Base.Int.{ℤ, pos, ltb_ℤ}
use inventory_management_api.Models.{Uuid, MovementType}

pub record MovementCreate : Type 0 where
  pub product_id : Uuid
  pub movement_type : MovementType
  pub quantity : ℤ
  pub source_warehouse_id : Option Uuid
  pub destination_warehouse_id : Option Uuid
  pub reason : Option String

-- The messages of the `ValueError` that the validator raises.
pub data WarehouseError : Type 0 where
  destination_required source_forbidden source_required destination_forbidden : WarehouseError
  both_required must_differ : WarehouseError

abbrev is_given : Option Uuid → Bool
is_given none = false
is_given (some _) = true

abbrev in_error : Option Uuid → Option Uuid → Option WarehouseError
in_error source destination =
    if not (is_given destination)
    then some destination_required
    else if is_given source
    then some source_forbidden
    else none

abbrev out_error : Option Uuid → Option Uuid → Option WarehouseError
out_error source destination =
    if not (is_given source)
    then some source_required
    else if is_given destination
    then some destination_forbidden
    else none

abbrev transfer_error : Option Uuid → Option Uuid → Option WarehouseError
transfer_error (some source) (some destination) =
    if source == destination then some must_differ else none
transfer_error _ _ = some both_required

abbrev pub warehouse_error :
    MovementType → (source destination : Option Uuid) → Option WarehouseError
warehouse_error MovementType.in_ source destination = in_error source destination
warehouse_error MovementType.out source destination = out_error source destination
warehouse_error MovementType.transfer source destination = transfer_error source destination

-- `MovementCreate.validate_warehouses_for_type`: the error that it raises, if it raises one.
unfoldable pub validate_warehouses_for_type : MovementCreate → Option WarehouseError
validate_warehouses_for_type d =
    warehouse_error d.movement_type d.source_warehouse_id d.destination_warehouse_id

-- What FastAPI lets through to the endpoint: `quantity` is greater than zero, `reason` has at most
-- 500 characters, and the validator does not raise.
abbrev reason_fits : Option String → Bool
reason_fits none = true
reason_fits (some text) = leb (count text) 500

unfoldable pub accepts : MovementCreate → Bool
unfolding validate_warehouses_for_type
accepts d =
    ltb_ℤ (pos 0) d.quantity
    && reason_fits d.reason
    && elim (validate_warehouses_for_type d) [ none ↦ true | some _ ↦ false ]
