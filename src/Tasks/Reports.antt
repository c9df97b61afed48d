-- ===== src/Tasks/Reports.antt =====
-- app/tasks/reports.py: reports as CSV files. A file is its name and its rows of cells, before
-- `csv.writer` turns them into text.
pub mod Export
use Prim.Native.String.{String}
use text.Mathlib.Text.{◌==◌ as str_eq}
use inventory_management_api.Base.{Bool, Option, none, some, List, [], ◌∷◌, map, if◌then◌else◌}
use inventory_management_api.Base.Int.{ℤ}
use inventory_management_api.Base.Rows.{find?}
use inventory_management_api.Models.{Uuid}
use inventory_management_api.Session.{Env, Action, pure, uuid4, with_session, ◌>>=◌}
use inventory_management_api.Services.Report.{
  WarehouseStockSummary, InventorySummaryReport, WarehouseValuation, InventoryValuationReport,
  generate_inventory_summary, generate_valuation_report,
}

pub data ReportKind : Type 0 where
  inventory_summary valuation : ReportKind

unfoldable pub value : ReportKind → String
value ReportKind.inventory_summary = "inventory_summary"
value ReportKind.valuation = "valuation"

-- The members of the Enum, in their order.
abbrev pub members : List ReportKind
members = ReportKind.inventory_summary ∷ ReportKind.valuation ∷ []

-- `ReportKind(text)`: the member with that value; `none` is its ValueError.
unfoldable pub report_kind : String → Option ReportKind
unfolding value
report_kind name = find? (λ kind. str_eq (value kind) name) members

pub data Cell : Type 0 where
  label : String → Cell
  id : Uuid → Cell
  number : ℤ → Cell

-- The file is named after its kind and `hex`.
pub record CsvFile : Type 0 where
  pub kind : ReportKind
  pub hex : Uuid
  pub header : List Cell
  pub rows : List (List Cell)

abbrev pub summary_row : WarehouseStockSummary → List Cell
summary_row w =
    id w.warehouse_id
    ∷ label w.warehouse_name
    ∷ number w.distinct_products
    ∷ number w.total_quantity
    ∷ number w.low_stock_count
    ∷ number w.out_of_stock_count
    ∷ []

abbrev pub valuation_row : WarehouseValuation → List Cell
valuation_row w = id w.warehouse_id ∷ label w.warehouse_name ∷ number w.total_value ∷ []

-- What `_write_inventory_summary_csv` writes.
abbrev pub summary_file : InventorySummaryReport → Uuid → CsvFile
summary_file report hex = record {
  kind = ReportKind.inventory_summary;
  hex = hex;
  header =
      label "warehouse_id"
      ∷ label "warehouse_name"
      ∷ label "distinct_products"
      ∷ label "total_quantity"
      ∷ label "low_stock_count"
      ∷ label "out_of_stock_count"
      ∷ [];
  rows = map summary_row report.by_warehouse;
}

-- What `_write_valuation_csv` writes.
abbrev pub valuation_file : InventoryValuationReport → Uuid → CsvFile
valuation_file report hex = record {
  kind = ReportKind.valuation;
  hex = hex;
  header = label "warehouse_id" ∷ label "warehouse_name" ∷ label "total_value" ∷ [];
  rows = map valuation_row report.by_warehouse;
}

module _ ⦃env : Env⦄ where
  -- `_write_inventory_summary_csv`
  unfoldable pub write_inventory_summary_csv : InventorySummaryReport → Action CsvFile
  write_inventory_summary_csv report = do hex ← uuid4; pure (summary_file report hex)

  -- `_write_valuation_csv`
  unfoldable pub write_valuation_csv : InventoryValuationReport → Action CsvFile
  write_valuation_csv report = do hex ← uuid4; pure (valuation_file report hex)

  -- `_generate_report_csv`
  unfoldable pub generate_kind_csv : ReportKind → Action CsvFile
  generate_kind_csv ReportKind.inventory_summary =
      with_session (do report ← generate_inventory_summary; write_inventory_summary_csv report)
  generate_kind_csv ReportKind.valuation =
      with_session (do report ← generate_valuation_report; write_valuation_csv report)

  -- `generate_report_csv`: `none` is the ValueError of an unknown kind, raised before a session opens.
  unfoldable pub generate_report_csv : String → Option (Action CsvFile)
  generate_report_csv name = elim (report_kind name) [
    | none ↦ none
    | some k ↦ some (generate_kind_csv k)
  ]
