-- ===== src/Services/Product.antt =====
-- app/services/product.py: the product catalogue. `refresh` reads back the row that the commit
-- before it wrote, which is the row at hand.
pub mod Catalog
pub mod Lifecycle
use Prim.Native.String.{String}
use text.Mathlib.Text.{◌==◌ as str_eq}
use inventory_management_api.Base.{
  ⊤, Bool, true, false, not, ◌&&◌, ◌||◌, Option, none, some, List, if◌then◌else◌, is_some,
}
use inventory_management_api.Base.Int.{ℤ}
use inventory_management_api.Errors.{Error, app, conflict, data_error, integrity}
use inventory_management_api.Models.{Uuid, Product}
use inventory_management_api.Schemas.Catalog.{
  ProductCreate, ProductUpdate, get, is_null, all_set, assign, assign_nullable,
}
use inventory_management_api.Session.{Env, Action, pure, raise_if, commit, uuid4, ◌>>=◌, ◌>>◌}
use inventory_management_api.Repositories.Base.{get_by_id_or_raise, create, list_all}
use inventory_management_api.Repositories.Catalog.{
  product_model, get_by_sku, list_active_products, search_by_name, flush_product, price_fits,
}

-- `Product(**payload.model_dump())`, with the defaults of its columns.
unfoldable pub new_product : ProductCreate → Uuid → Product
new_product payload id = record {
  id = id;
  sku = payload.sku;
  name = payload.name;
  description = payload.description;
  price = payload.price;
  is_active = true;
}

-- The loop of `setattr`.
unfoldable pub updated_product : ProductUpdate → Product → Product
updated_product payload product = record {
  id = product.id;
  sku = assign payload.sku product.sku;
  name = assign payload.name product.name;
  description = assign_nullable payload.description product.description;
  price = assign payload.price product.price;
  is_active = assign payload.is_active product.is_active;
}

-- What the flush of the changed columns runs into: a price out of range, or a null in a column that
-- is NOT NULL.
unfoldable pub product_fault : ProductUpdate → Option Error
product_fault payload =
    if not (all_set payload.price price_fits)
    then some data_error
    else if is_null payload.sku
        || is_null payload.name
        || is_null payload.price
        || is_null payload.is_active
    then some integrity
    else none

module _ ⦃env : Env⦄ where
  -- `existing = await self.repository.get_by_sku(sku)`, and the ConflictError if there is one.
  unfoldable pub refuse_sku : String → Action ⊤
  unfolding get_by_sku
  refuse_sku sku = do existing ← get_by_sku sku; raise_if (is_some existing) (app conflict)

  -- `ProductService.create_product`
  unfoldable pub create_product : ProductCreate → Action Product
  unfolding refuse_sku create commit new_product
  create_product payload = do
    refuse_sku payload.sku
    id ← uuid4
    product ← create product_model (new_product payload id)
    commit
    pure product

  -- `ProductService.get_product`
  unfoldable pub get_product : Uuid → Action Product
  get_product product_id = get_by_id_or_raise product_model product_id

  -- `ProductService.list_products`
  unfoldable pub list_products : (skip limit : ℤ) → Bool → Action (List Product)
  list_products skip limit active_only =
      if active_only then list_active_products skip limit else list_all product_model skip limit

  -- `ProductService.search_products`
  unfoldable pub search_products : String → (skip limit : ℤ) → Action (List Product)
  search_products query skip limit = search_by_name query skip limit

  -- `if new_sku is not None and new_sku != product.sku: …`
  unfoldable pub check_new_sku : Option String → Product → Action ⊤
  unfolding refuse_sku
  check_new_sku none product = pure tt
  check_new_sku (some new_sku) product =
      if not (str_eq new_sku product.sku) then refuse_sku new_sku else pure tt

  -- `ProductService.update_product`
  unfoldable pub update_product : Uuid → ProductUpdate → Action Product
  unfolding check_new_sku get_by_id_or_raise flush_product updated_product product_fault commit
  update_product product_id payload = do
    product ← get_by_id_or_raise product_model product_id
    check_new_sku (get payload.sku) product
    flush_product (product_fault payload) (updated_product payload product)
    commit
    pure (updated_product payload product)

-- `ProductService.deactivate_product`
unfoldable pub deactivate_product : Uuid → Action Product
unfolding get_by_id_or_raise flush_product commit
deactivate_product product_id = do
  product ← get_by_id_or_raise product_model product_id
  let changed = record product { is_active = false }
  flush_product none changed
  commit
  pure changed
