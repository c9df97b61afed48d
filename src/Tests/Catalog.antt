-- ===== src/Tests/Catalog.antt =====
-- Products and warehouses on the sample rows.
use inventory_management_api.Base.{◌≡◌, refl, none, [], ◌∷◌}
use inventory_management_api.Base.Int.{pos}
use inventory_management_api.Schemas.Catalog.{
  ProductCreate, ProductUpdate, WarehouseCreate, WarehouseUpdate, unset, null, set,
}
use inventory_management_api.Session.{with_session, ◌>>=◌, commit}
use inventory_management_api.Session.Ends.{Ends}
use inventory_management_api.Repositories.Base.{get_by_id_or_raise}
use inventory_management_api.Repositories.Catalog.{get_by_sku, flush_product}
use inventory_management_api.Services.Product.{
  create_product, update_product, deactivate_product, updated_product, product_fault, check_new_sku,
}
use inventory_management_api.Services.Product.Catalog as Products
use inventory_management_api.Services.Product.Lifecycle as ProductLife
use inventory_management_api.Services.Warehouse.{
  create_warehouse, update_warehouse, deactivate_warehouse,
}
use inventory_management_api.Services.Warehouse.Catalog as Warehouses
use inventory_management_api.Services.Warehouse.Lifecycle as WarehouseLife
use inventory_management_api.Tests.Samples.{tables, world, sample_env, widget}

abbrev gadget : ProductCreate
gadget = record { sku = "G-1"; name = "Gadget"; description = none; price = pos 995 }

abbrev dearer : ProductUpdate
dearer = record {
  sku = set "W-1";
  name = unset;
  description = null;
  price = set (pos 300);
  is_active = unset;
}

abbrev annex : WarehouseCreate
annex = record { name = "Annex"; code = "C"; address = none }

abbrev moved : WarehouseUpdate
moved = record { name = unset; code = set "D"; address = set "Main Street"; is_active = unset }

-- A price is changed; the own SKU in the payload is no conflict.
dearer_runs :
    (with_session (update_product 1 dearer) world).1.committed.products
    ≡ record widget { price = pos 300 } ∷ []
unfolding with_session update_product check_new_sku updated_product product_fault flush_product
    get_by_id_or_raise get_by_sku commit ◌>>=◌
dearer_runs = refl

products-IsCatalog : Products.IsCatalog tables.products
products-IsCatalog = record { ids = (refl, tt); keys = (refl, tt) }

warehouses-IsCatalog : Warehouses.IsCatalog tables.warehouses
warehouses-IsCatalog = record { ids = (refl, (refl, tt)); keys = (refl, (refl, tt)) }

create_product_outcome_example :
    Ends
      (λ p s'. ProductLife.Created gadget tables p s'.committed)
      (λ e s'. ProductLife.NotCreated gadget tables e s'.committed)
      (with_session (create_product gadget) world)
create_product_outcome_example = ProductLife.create_product_outcome gadget world products-IsCatalog

update_product_outcome_example :
    Ends
      (λ p s'. Products.Updated 1 dearer tables p s'.committed)
      (λ e s'. Products.NotUpdated 1 dearer tables e s'.committed)
      (with_session (update_product 1 dearer) world)
update_product_outcome_example = Products.update_product_outcome 1 dearer world products-IsCatalog

deactivate_product_outcome_example :
    Ends
      (λ p s'. ProductLife.Deactivated 1 tables p s'.committed)
      (λ e s'. ProductLife.Missing 1 tables e s'.committed)
      (with_session (deactivate_product 1) world)
deactivate_product_outcome_example =
    ProductLife.deactivate_product_outcome 1 world products-IsCatalog

create_warehouse_outcome_example :
    Ends
      (λ p s'. WarehouseLife.Created annex tables p s'.committed)
      (λ e s'. WarehouseLife.NotCreated annex tables e s'.committed)
      (with_session (create_warehouse annex) world)
create_warehouse_outcome_example =
    WarehouseLife.create_warehouse_outcome annex world warehouses-IsCatalog

update_warehouse_outcome_example :
    Ends
      (λ p s'. Warehouses.Updated 7 moved tables p s'.committed)
      (λ e s'. Warehouses.NotUpdated 7 moved tables e s'.committed)
      (with_session (update_warehouse 7 moved) world)
update_warehouse_outcome_example =
    Warehouses.update_warehouse_outcome 7 moved world warehouses-IsCatalog

deactivate_warehouse_outcome_example :
    Ends
      (λ p s'. WarehouseLife.Deactivated 8 tables p s'.committed)
      (λ e s'. WarehouseLife.Missing 8 tables e s'.committed)
      (with_session (deactivate_warehouse 8) world)
deactivate_warehouse_outcome_example =
    WarehouseLife.deactivate_warehouse_outcome 8 world warehouses-IsCatalog
