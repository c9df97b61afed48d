-- ===== src/Schemas/Catalog.antt =====
-- app/schemas/product.py and app/schemas/warehouse.py: the payloads of the catalogue's endpoints.
-- The length limits of the texts (Limits) are those of the columns, so no flush depends on them.
pub mod Limits
pub mod Assigned
use Prim.Native.String.{String}
use inventory_management_api.Base.{Bool, true, false, Option, none, some}
use inventory_management_api.Base.Int.{ℤ}

-- A field of a partial update: left out of the payload, an explicit null, or a value.
pub data Patch (A : Type 0) : Type 0 where
  unset null : Patch A
  set : A → Patch A

pub record ProductCreate : Type 0 where
  pub sku : String
  pub name : String
  pub description : Option String
  pub price : ℤ

pub record ProductUpdate : Type 0 where
  pub sku : Patch String
  pub name : Patch String
  pub description : Patch String
  pub price : Patch ℤ
  pub is_active : Patch Bool

pub record WarehouseCreate : Type 0 where
  pub name : String
  pub code : String
  pub address : Option String

pub record WarehouseUpdate : Type 0 where
  pub name : Patch String
  pub code : Patch String
  pub address : Patch String
  pub is_active : Patch Bool

-- `updates.get(field)`: None also where the field is not in the payload.
abbrev pub get : {A : Type 0} → Patch A → Option A
get unset = none
get null = none
get (set a) = some a

abbrev pub is_null : {A : Type 0} → Patch A → Bool
is_null unset = false
is_null null = true
is_null (set a) = false

-- Whether the value of a field, if there is one, passes a test.
abbrev pub all_set : {A : Type 0} → Patch A → (A → Bool) → Bool
all_set unset p = true
all_set null p = true
all_set (set a) p = p a

-- `setattr(row, field, value)`, of a column that is NOT NULL: a null is on the object until the
-- flush refuses it, so the value here does not matter.
abbrev pub assign : {A : Type 0} → Patch A → A → A
assign unset old = old
assign null old = old
assign (set a) old = a

-- `setattr(row, field, value)`, of a column that takes nulls.
abbrev pub assign_nullable : {A : Type 0} → Patch A → Option A → Option A
assign_nullable unset old = old
assign_nullable null old = none
assign_nullable (set a) old = some a
