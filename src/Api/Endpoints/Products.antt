-- ===== src/Api/Endpoints/Products.antt =====
-- app/api/v1/endpoints/products.py
use Prim.Native.String.{String}
use text.Mathlib.Text.{◌==◌ as str_eq}
use inventory_management_api.Base.{Bool, Option, none, some, List, if◌then◌else◌}
use inventory_management_api.Base.Int.{ℤ}
use inventory_management_api.Models.{Uuid, Product}
use inventory_management_api.Schemas.Catalog.{ProductCreate, ProductUpdate}
use inventory_management_api.Session.{Env, Action}
use inventory_management_api.Services.Product.{
  create_product, get_product, list_products, search_products, update_product, deactivate_product,
}

-- `if search:` is false for an empty text too.
abbrev pub search_term : Option String → Option String
search_term none = none
search_term (some query) = if str_eq query "" then none else some query

module _ ⦃env : Env⦄ where
  -- `if search: … else: …`
  unfoldable pub list_or_search :
      Option String → (skip limit : ℤ) → (active_only : Bool) → Action (List Product)
  list_or_search none skip limit active_only = list_products skip limit active_only
  list_or_search (some query) skip limit active_only = search_products query skip limit

  -- `list_products`
  unfoldable pub list_products_endpoint :
      (skip limit : ℤ) → (active_only : Bool) → Option String → Action (List Product)
  list_products_endpoint skip limit active_only search =
      list_or_search (search_term search) skip limit active_only

  -- `get_product`
  unfoldable pub get_product_endpoint : Uuid → Action Product
  get_product_endpoint product_id = get_product product_id

  -- `create_product`
  unfoldable pub create_product_endpoint : ProductCreate → Action Product
  create_product_endpoint payload = create_product payload

  -- `update_product`
  unfoldable pub update_product_endpoint : Uuid → ProductUpdate → Action Product
  update_product_endpoint product_id payload = update_product product_id payload

  -- `deactivate_product`
  unfoldable pub deactivate_product_endpoint : Uuid → Action Product
  deactivate_product_endpoint product_id = deactivate_product product_id
