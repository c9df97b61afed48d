-- ===== src/Schemas/Catalog/Limits.antt =====
-- The limits of the fields in app/schemas/product.py and app/schemas/warehouse.py: what the payloads
-- of the catalogue must keep to. A price has two decimal places by its form here.
use Prim.Native.String.{String, count}
use inventory_management_api.Base.{ℕ, Bool, true, ◌&&◌, leb, Option, none, some}
use inventory_management_api.Base.Int.{ℤ, pos, ltb_ℤ}
use inventory_management_api.Schemas.Catalog.{
  ProductCreate, ProductUpdate, WarehouseCreate, WarehouseUpdate, all_set,
}

-- `min_length` and `max_length`
abbrev within : ℕ → ℕ → String → Bool
within lower upper text = leb lower (count text) && leb (count text) upper

abbrev optional_within : ℕ → ℕ → Option String → Bool
optional_within lower upper none = true
optional_within lower upper (some text) = within lower upper text

abbrev is_price : ℤ → Bool
is_price price = ltb_ℤ (pos 0) price

unfoldable pub product_create_accepts : ProductCreate → Bool
product_create_accepts d =
    within 1 50 d.sku
    && (within 1 255 d.name && (optional_within 0 2000 d.description && is_price d.price))

unfoldable pub product_update_accepts : ProductUpdate → Bool
product_update_accepts d =
    all_set d.sku (within 1 50)
    && (all_set d.name (within 1 255)
        && (all_set d.description (within 0 2000) && all_set d.price is_price))

unfoldable pub warehouse_create_accepts : WarehouseCreate → Bool
warehouse_create_accepts d =
    within 1 255 d.name && (within 1 20 d.code && optional_within 0 500 d.address)

unfoldable pub warehouse_update_accepts : WarehouseUpdate → Bool
warehouse_update_accepts d =
    all_set d.name (within 1 255)
    && (all_set d.code (within 1 20) && all_set d.address (within 0 500))
