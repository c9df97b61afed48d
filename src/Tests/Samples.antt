-- ===== src/Tests/Samples.antt =====
-- A database that answers in stored order, with 32-bit columns, and a few rows.
use Prim.Native.String.{String}
use mathlib.Core.List.{Permᴰ}
use mathlib.Core.List.Permᴰ
use text.Mathlib.Text.{◌==◌ as str_eq}
use inventory_management_api.Base.{
  ℕ, ◌+◌, Bool, true, ◌&&◌, none, some, List, [], ◌∷◌, leb, refl, arith, inl, inr, Bool-cases,
  if◌then◌else◌,
}
use inventory_management_api.Base.Int.{pos, negsuc, leb_ℤ}
use inventory_management_api.Base.Rows.{keep, IsDescending}
use inventory_management_api.Models.{
  Uuid, Timestamp, MovementType, Product, Warehouse, Inventory, Movement, Tables,
}
use inventory_management_api.Schemas.Movement.{MovementCreate}
use inventory_management_api.Session.{Env, World}

abbrev pub sql_select : (A : Type 0) → (A → Bool) → List A → List A
sql_select A p rows = keep p rows

pub sql_select_perm :
    (A : Type 0) (p : A → Bool) (rows : List A) → Permᴰ (sql_select A p rows) (keep p rows)
sql_select_perm A p rows = Permᴰ.refl (keep p rows)

-- Insertion into a list in descending order.
abbrev pub insert_desc : (A : Type 0) → (A → Timestamp) → A → List A → List A
insert_desc A key x [] = x ∷ []
insert_desc A key x (y ∷ ys) =
    if leb (key y) (key x) then x ∷ y ∷ ys else y ∷ insert_desc A key x ys

abbrev pub sort_desc : (A : Type 0) → (A → Timestamp) → List A → List A
sort_desc A key [] = []
sort_desc A key (x ∷ xs) = insert_desc A key x (sort_desc A key xs)

insert_desc_perm :
    (A : Type 0) (key : A → Timestamp) (x : A) (xs : List A)
    → Permᴰ (insert_desc A key x xs) (x ∷ xs)
insert_desc_perm A key x [] = Permᴰ.refl (x ∷ [])
insert_desc_perm A key x (y ∷ ys) = elim (Bool-cases (leb (key y) (key x))) [
  | inl h ↦ rw h (Permᴰ.refl (x ∷ y ∷ ys))
  | inr h ↦
      rw h (Permᴰ.trans (Permᴰ.cons refl (insert_desc_perm A key x ys)) (Permᴰ.swap refl refl))
]

pub sort_desc_perm :
    (A : Type 0) (key : A → Timestamp) (xs : List A) → Permᴰ (sort_desc A key xs) xs
sort_desc_perm A key [] = Permᴰ.nil
sort_desc_perm A key (x ∷ xs) =
    Permᴰ.trans (insert_desc_perm A key x (sort_desc A key xs))
      (Permᴰ.cons refl (sort_desc_perm A key xs))

insert_desc_sorted :
    (A : Type 0) (key : A → Timestamp) (x : A) (xs : List A)
    → IsDescending key xs
    → IsDescending key (insert_desc A key x xs)
insert_desc_sorted A key x [] h = tt
insert_desc_sorted A key x (y ∷ []) h = ground arith
insert_desc_sorted A key x (y ∷ z ∷ zs) h = ground (arith, insert_desc_sorted A key x (z ∷ zs) h.1)

pub sort_desc_sorted :
    (A : Type 0) (key : A → Timestamp) (xs : List A) → IsDescending key (sort_desc A key xs)
sort_desc_sorted A key [] = tt
sort_desc_sorted A key (x ∷ xs) =
    insert_desc_sorted A key x (sort_desc A key xs) (sort_desc_sorted A key xs)

pub stored_order_perm : (A : Type 0) (key : A → String) (xs : List A) → Permᴰ xs xs
stored_order_perm A key xs = Permᴰ.refl xs

instance abbrev pub sample_env : Env
sample_env = record {
  select = sql_select;
  select_perm = sql_select_perm;
  order_by = λ A key xs. xs;
  order_by_perm = stored_order_perm;
  order_by_desc = sort_desc;
  order_by_desc_perm = sort_desc_perm;
  order_by_desc_sorted = sort_desc_sorted;
  name_contains = str_eq;
  integer_fits = λ v. leb_ℤ (negsuc 2147483647) v && leb_ℤ v (pos 2147483647);
  uuid4 = λ n. 100 + n;
  now = λ n. 5000 + n;
  broker_accepts = λ n. true;
  low_stock_alert_threshold_default = pos 10;
}

abbrev pub widget : Product
widget = record {
  id = 1;
  sku = "W-1";
  name = "Widget";
  description = none;
  price = pos 250;
  is_active = true;
}

abbrev pub depot : Uuid → String → Warehouse
depot id code = record { id = id; name = "Depot"; code = code; address = none; is_active = true }

abbrev pub shelf : Uuid → Uuid → ℕ → Inventory
shelf id w n = record {
  id = id;
  product_id = 1;
  warehouse_id = w;
  quantity = pos n;
  low_stock_threshold = none;
}

abbrev pub received : Uuid → Uuid → ℕ → Movement
received id w n = record {
  id = id;
  product_id = 1;
  movement_type = MovementType.in_;
  quantity = pos n;
  source_warehouse_id = none;
  destination_warehouse_id = some w;
  reason = none;
  performed_by = none;
  created_at = 1;
}

-- 30 widgets in warehouse 7, received there in one movement; warehouse 8 has no record.
abbrev pub tables : Tables
tables = record {
  products = widget ∷ [];
  warehouses = depot 7 "A" ∷ depot 8 "B" ∷ [];
  inventories = shelf 20 7 30 ∷ [];
  movements = received 40 7 30 ∷ [];
  alerts = [];
  users = [];
}

abbrev pub world : World
world = record {
  session = tables;
  committed = tables;
  locks = [];
  published = [];
  queued = [];
  answers = 0;
}

-- 25 widgets from warehouse 7 to warehouse 8.
abbrev pub transfer_25 : MovementCreate
transfer_25 = record {
  product_id = 1;
  movement_type = MovementType.transfer;
  quantity = pos 25;
  source_warehouse_id = some 7;
  destination_warehouse_id = some 8;
  reason = none;
}
