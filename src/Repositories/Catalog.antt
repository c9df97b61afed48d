-- ===== src/Repositories/Catalog.antt =====
-- app/repositories/product.py and app/repositories/warehouse.py, over the constraints of
-- app/models/product.py and app/models/warehouse.py. A price is a whole number of cents.
use Prim.Native.String.{String}
use text.Mathlib.Text.{◌==◌}
use inventory_management_api.Base.{⊤, Bool, ◌&&◌, Option, none, some, List, if◌then◌else◌}
use inventory_management_api.Base.Int.{ℤ, pos, negsuc, leb_ℤ}
use inventory_management_api.Base.Rows.{any, count_rows}
use inventory_management_api.Errors.{Error, integrity, data_error}
use inventory_management_api.Models.{Product, Warehouse, Tables}
use inventory_management_api.Session.{
  Env, Action, read, pure, raise, one_or_none, raise_if, write, select, ◌>>=◌, ◌>>◌,
}
use inventory_management_api.Repositories.Base.{Model, page}
use inventory_management_api.Repositories.Keyed.{taken, replace_row}

-- `Product.sku == sku`
abbrev pub has_sku : String → Product → Bool
has_sku sku r = r.sku == sku

-- `Warehouse.code == code`
abbrev pub has_code : String → Warehouse → Bool
has_code code r = r.code == code

-- `price` is a `Numeric(12, 2)`.
abbrev pub price_fits : ℤ → Bool
price_fits price = leb_ℤ price (pos 999999999999) && leb_ℤ (negsuc 999999999998) price

-- `sku` is unique.
unfoldable pub product_violates : Product → Tables → Option Error
product_violates r t =
    if price_fits r.price
    then (if any (has_sku r.sku) t.products then some integrity else none)
    else some data_error

abbrev pub product_model : Model Product
product_model = record {
  rows = λ t. t.products;
  with_rows = λ rs t. record t { products = rs };
  id = λ r. r.id;
  violates = product_violates;
}

-- `code` is unique.
unfoldable pub warehouse_violates : Warehouse → Tables → Option Error
warehouse_violates r t = if any (has_code r.code) t.warehouses then some integrity else none

abbrev pub warehouse_model : Model Warehouse
warehouse_model = record {
  rows = λ t. t.warehouses;
  with_rows = λ rs t. record t { warehouses = rs };
  id = λ r. r.id;
  violates = warehouse_violates;
}

-- What a flush runs into before the constraints between rows.
abbrev pub reject : Option Error → Action ⊤
reject none = pure tt
reject (some e) = raise e

-- The flush of a changed product. `fault` is what the values of the changed columns run into.
unfoldable pub flush_product : (fault : Option Error) → Product → Action ⊤
flush_product fault r = do
  reject fault
  rows ← read (λ t. t.products)
  raise_if (taken (λ (x : Product). x.id) (λ x. x.sku) r rows) integrity
  write (λ t. record t { products = replace_row (λ (x : Product). x.id) (λ x. x.sku) r t.products })

-- The flush of a changed warehouse.
unfoldable pub flush_warehouse : (fault : Option Error) → Warehouse → Action ⊤
flush_warehouse fault r = do
  reject fault
  rows ← read (λ t. t.warehouses)
  raise_if (taken (λ (x : Warehouse). x.id) (λ x. x.code) r rows) integrity
  write (λ t. record t {
    warehouses = replace_row (λ (x : Warehouse). x.id) (λ x. x.code) r t.warehouses;
  })

module _ ⦃env : Env⦄ where
  -- `ProductRepository.get_by_sku`
  unfoldable pub get_by_sku : String → Action (Option Product)
  get_by_sku sku = do
    rows ← read (λ t. t.products)
    one_or_none (count_rows (select (has_sku sku) rows))

  -- `ProductRepository.list_active`
  unfoldable pub list_active_products : (skip limit : ℤ) → Action (List Product)
  list_active_products skip limit = do
    rows ← read (λ t. t.products)
    page skip limit (select (λ (r : Product). r.is_active) rows)

  -- `ProductRepository.search_by_name`
  unfoldable pub search_by_name : String → (skip limit : ℤ) → Action (List Product)
  search_by_name query skip limit = do
    rows ← read (λ t. t.products)
    page skip limit (select (λ (r : Product). env.name_contains r.name query) rows)

  -- `WarehouseRepository.get_by_code`
  unfoldable pub get_by_code : String → Action (Option Warehouse)
  get_by_code code = do
    rows ← read (λ t. t.warehouses)
    one_or_none (count_rows (select (has_code code) rows))

  -- `WarehouseRepository.list_active`
  unfoldable pub list_active_warehouses : (skip limit : ℤ) → Action (List Warehouse)
  list_active_warehouses skip limit = do
    rows ← read (λ t. t.warehouses)
    page skip limit (select (λ (r : Warehouse). r.is_active) rows)
