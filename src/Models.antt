-- ===== src/Models.antt =====
-- app/models/: the rows of the tables. A UUID is its 128-bit integer, whose order is that of the
-- string forms (32 hexadecimal digits at fixed places). Columns that only the database fills and
-- the code only passes on (`updated_at`, and `created_at` where nothing orders by it) are left out.
use Prim.Native.String.{String}
use inventory_management_api.Base.{ℕ, Bool, true, false, Option, List, ◌&&◌, ◌==◌}
use inventory_management_api.Base.Int.{ℤ}

abbrev pub Uuid : Type 0
Uuid = ℕ

-- Seconds since the epoch: times are compared and stored only.
abbrev pub Timestamp : Type 0
Timestamp = ℕ

pub data MovementType : Type 0 where
  in_ out transfer : MovementType

pub data AlertType : Type 0 where
  low_stock out_of_stock : AlertType

pub data AlertStatus : Type 0 where
  active resolved : AlertStatus

pub record Product : Type 0 where
  pub id : Uuid
  pub sku : String
  pub name : String
  pub description : Option String
  pub price : ℤ
  pub is_active : Bool

pub record Warehouse : Type 0 where
  pub id : Uuid
  pub name : String
  pub code : String
  pub address : Option String
  pub is_active : Bool

pub record Inventory : Type 0 where
  pub id : Uuid
  pub product_id : Uuid
  pub warehouse_id : Uuid
  pub quantity : ℤ
  pub low_stock_threshold : Option ℤ

pub record Movement : Type 0 where
  pub id : Uuid
  pub product_id : Uuid
  pub movement_type : MovementType
  pub quantity : ℤ
  pub source_warehouse_id : Option Uuid
  pub destination_warehouse_id : Option Uuid
  pub reason : Option String
  pub performed_by : Option Uuid
  pub created_at : Timestamp

pub record Alert : Type 0 where
  pub id : Uuid
  pub product_id : Uuid
  pub warehouse_id : Uuid
  pub alert_type : AlertType
  pub status : AlertStatus
  pub threshold : ℤ
  pub quantity_at_trigger : ℤ
  pub resolved_at : Option Timestamp

pub record User : Type 0 where
  pub id : Uuid
  pub email : String
  pub hashed_password : String
  pub full_name : Option String
  pub is_active : Bool
  pub is_superuser : Bool

-- Python's `==` on the members of the enums.
abbrev pub type_eq : AlertType → AlertType → Bool
type_eq AlertType.low_stock AlertType.low_stock = true
type_eq AlertType.out_of_stock AlertType.out_of_stock = true
type_eq AlertType.low_stock AlertType.out_of_stock = false
type_eq AlertType.out_of_stock AlertType.low_stock = false

abbrev pub is_active_status : AlertStatus → Bool
is_active_status AlertStatus.active = true
is_active_status AlertStatus.resolved = false

-- The tables of the database.
pub record Tables : Type 0 where
  pub products : List Product
  pub warehouses : List Warehouse
  pub inventories : List Inventory
  pub movements : List Movement
  pub alerts : List Alert
  pub users : List User

-- The condition of a query by product and warehouse.
abbrev pub of_pair : Uuid → Uuid → Inventory → Bool
of_pair p w r = r.product_id == p && r.warehouse_id == w
