-- ===== src/Services/Report.antt =====
-- app/services/report.py and app/schemas/report.py: the aggregate reports. A LEFT JOIN with GROUP
-- BY of the warehouses is a pass over each warehouse's rows; SUM leaves out the rows without a
-- product, and both SUM and COUNT of no rows are 0 here.
pub mod Totals
use Prim.Native.String.{String}
use inventory_management_api.Base.{Bool, Option, none, some, List, [], ◌∷◌, map, ◌==◌}
use inventory_management_api.Base.Int.{ℤ, pos, ◌*ℤ◌, leb_ℤ, eqb_ℤ}
use inventory_management_api.Base.Rows.{keep, find?}
use inventory_management_api.Base.Sums.{sum_of, count_if}
use inventory_management_api.Models.{Uuid, Timestamp, Product, Warehouse, Inventory, Tables}
use inventory_management_api.Session.{Env, Action, pure, read, now, ◌>>=◌}
use inventory_management_api.Repositories.Base.{has_id}
use inventory_management_api.Repositories.Catalog.{product_model}

pub record WarehouseStockSummary : Type 0 where
  pub warehouse_id : Uuid
  pub warehouse_name : String
  pub distinct_products : ℤ
  pub total_quantity : ℤ
  pub low_stock_count : ℤ
  pub out_of_stock_count : ℤ

pub record InventorySummaryReport : Type 0 where
  pub generated_at : Timestamp
  pub total_warehouses : ℤ
  pub total_stock_quantity : ℤ
  pub low_stock_count : ℤ
  pub out_of_stock_count : ℤ
  pub by_warehouse : List WarehouseStockSummary

pub record WarehouseValuation : Type 0 where
  pub warehouse_id : Uuid
  pub warehouse_name : String
  pub total_value : ℤ

pub record InventoryValuationReport : Type 0 where
  pub generated_at : Timestamp
  pub total_value : ℤ
  pub by_warehouse : List WarehouseValuation

-- `Inventory.warehouse_id == Warehouse.id`
abbrev pub of_warehouse : Warehouse → Inventory → Bool
of_warehouse w r = r.warehouse_id == w.id

-- `Inventory.quantity == 0`
abbrev pub is_out : Inventory → Bool
is_out r = eqb_ℤ r.quantity (pos 0)

abbrev pub quantity_of : Inventory → ℤ
quantity_of r = r.quantity

abbrev pub priced : Inventory → Option Product → ℤ
priced r none = pos 0
priced r (some p) = r.quantity *ℤ p.price

-- `Inventory.quantity * Product.price`, 0 where the join finds no product.
abbrev pub value_of : List Product → Inventory → ℤ
value_of products r = priced r (find? (has_id product_model r.product_id) products)

-- The row of one group.
unfoldable pub valuation_of : List Product → List Inventory → Warehouse → WarehouseValuation
valuation_of products inventories w = record {
  warehouse_id = w.id;
  warehouse_name = w.name;
  total_value = sum_of (value_of products) (keep (of_warehouse w) inventories);
}

-- `InventorySummaryReport(…)`
unfoldable pub summary_report : Timestamp → List WarehouseStockSummary → InventorySummaryReport
summary_report time by_warehouse = record {
  generated_at = time;
  total_warehouses = sum_of (λ _. pos 1) by_warehouse;
  total_stock_quantity = sum_of (λ w. w.total_quantity) by_warehouse;
  low_stock_count = sum_of (λ w. w.low_stock_count) by_warehouse;
  out_of_stock_count = sum_of (λ w. w.out_of_stock_count) by_warehouse;
  by_warehouse = by_warehouse;
}

-- `InventoryValuationReport(…)`
unfoldable pub valuation_report : Timestamp → List WarehouseValuation → InventoryValuationReport
valuation_report time by_warehouse = record {
  generated_at = time;
  total_value = sum_of (λ w. w.total_value) by_warehouse;
  by_warehouse = by_warehouse;
}

module _ ⦃env : Env⦄ where
  -- `coalesce(Inventory.low_stock_threshold, default_threshold)`
  abbrev pub coalesce : Option ℤ → ℤ
  coalesce none = env.low_stock_alert_threshold_default
  coalesce (some n) = n

  -- `Inventory.quantity <= threshold`
  abbrev pub is_low : Inventory → Bool
  is_low r = leb_ℤ r.quantity (coalesce r.low_stock_threshold)

  -- The row of one group.
  unfoldable pub summary_of : List Inventory → Warehouse → WarehouseStockSummary
  summary_of inventories w = record {
    warehouse_id = w.id;
    warehouse_name = w.name;
    distinct_products = sum_of (λ _. pos 1) (keep (of_warehouse w) inventories);
    total_quantity = sum_of quantity_of (keep (of_warehouse w) inventories);
    low_stock_count = count_if is_low (keep (of_warehouse w) inventories);
    out_of_stock_count = count_if is_out (keep (of_warehouse w) inventories);
  }

  -- The warehouses as the groups come back.
  abbrev pub by_name : List Warehouse → List Warehouse
  by_name warehouses = env.order_by Warehouse (λ w. w.name) warehouses

  -- `ReportService.generate_inventory_summary`
  unfoldable pub generate_inventory_summary : Action InventorySummaryReport
  unfolding summary_of summary_report
  generate_inventory_summary = do
    by_warehouse ← read (λ t. map (summary_of t.inventories) (by_name t.warehouses))
    time ← now
    pure (summary_report time by_warehouse)

  -- `ReportService.generate_valuation_report`
  unfoldable pub generate_valuation_report : Action InventoryValuationReport
  unfolding valuation_of valuation_report
  generate_valuation_report = do
    by_warehouse ← read (λ t. map (valuation_of t.products t.inventories) (by_name t.warehouses))
    time ← now
    pure (valuation_report time by_warehouse)
