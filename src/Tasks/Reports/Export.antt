-- ===== src/Tasks/Reports/Export.antt =====
-- The exported files agree with the reports.
use inventory_management_api.Base.{ℕ, zero, suc, not, ◌≡◌, refl, ◌∙◌, ap, sym, List, ◌∷◌, ◌+◌}
use inventory_management_api.Base.Int.{ℤ, pos}
use inventory_management_api.Base.Sums.{sum_of, count_if}
use inventory_management_api.Errors.{ok}
use inventory_management_api.Models.{Tables}
use inventory_management_api.Session.{Env, World, begin, close, with_session, ◌>>=◌}
use inventory_management_api.Session.Ends.{bind-ok}
use inventory_management_api.Services.Alert.{is_above}
use inventory_management_api.Services.Report.{
  generate_inventory_summary, generate_valuation_report, quantity_of, value_of, is_out,
}
use inventory_management_api.Services.Report.Totals.{
  IsPlaced, generate_inventory_summary_outcome, generate_valuation_report_outcome, sum_of-map,
}
use inventory_management_api.Tasks.Reports.{
  ReportKind, Cell, number, CsvFile, summary_file, valuation_file, summary_row, valuation_row,
  write_inventory_summary_csv, write_valuation_csv, generate_kind_csv,
}

-- The third cell from the left, counted from 0, and so on.
abbrev cell : ℕ → List Cell → ℤ
cell zero (number n ∷ _) = n
cell (suc i) (_ ∷ cells) = cell i cells
cell _ _ = pos 0

abbrev pub column : ℕ → CsvFile → ℤ
column i file = sum_of (cell i) file.rows

module _ ⦃env : Env⦄ where
  -- What an export of the tables `t` holds.
  pub record Exported (t : Tables) (k : ReportKind) (file : CsvFile) : Type 0 where
    pub kind : file.kind ≡ k
    pub quantities :
        k ≡ ReportKind.inventory_summary → column 3 file ≡ sum_of quantity_of t.inventories
    pub low :
        k ≡ ReportKind.inventory_summary
        → column 4 file ≡ count_if (λ r. not (is_above r)) t.inventories
    pub out : k ≡ ReportKind.inventory_summary → column 5 file ≡ count_if is_out t.inventories
    pub values :
        k ≡ ReportKind.valuation → column 2 file ≡ sum_of (value_of t.products) t.inventories

  -- Where each stock level belongs to one warehouse, an export returns a file of the kind asked for,
  -- whose columns add up to the stock, to the number of levels that an evaluation of alerts finds
  -- low and to those out of stock, or to the value of the stock; it changes no row.
  pub generate_kind_csv-Exported :
      (k : ReportKind) (s : World)
      → IsPlaced s.committed
      → (file : CsvFile) × ((generate_kind_csv k s
            ≡ (ok file, record (begin s) { answers = s.answers + 1 + 1 }))
          × Exported s.committed k file)
  unfolding generate_kind_csv with_session ◌>>=◌ write_inventory_summary_csv write_valuation_csv
  generate_kind_csv-Exported ReportKind.inventory_summary s h =
      let (report, (run, sums)) = generate_inventory_summary_outcome (begin s) h in
      (
        summary_file report (env.uuid4 (s.answers + 1)),
        (
          ap close (
              bind-ok generate_inventory_summary write_inventory_summary_csv (begin s) report _
                run),
          record {
            kind = refl;
            quantities = λ _.
                sum_of-map summary_row (cell 3) report.by_warehouse
                ∙ sym sums.quantities
                ∙ sums.total_stock_quantity;
            low = λ _.
                sum_of-map summary_row (cell 4) report.by_warehouse
                ∙ sym sums.low
                ∙ sums.low_stock_count;
            out = λ _.
                sum_of-map summary_row (cell 5) report.by_warehouse
                ∙ sym sums.out
                ∙ sums.out_of_stock_count;
            values = λ e. absurd (cc e);
          },
        ),
      )
  generate_kind_csv-Exported ReportKind.valuation s h =
      let (report, (run, sum)) = generate_valuation_report_outcome (begin s) h in
      (
        valuation_file report (env.uuid4 (s.answers + 1)),
        (
          ap close (bind-ok generate_valuation_report write_valuation_csv (begin s) report _ run),
          record {
            kind = refl;
            quantities = λ e. absurd (cc e);
            low = λ e. absurd (cc e);
            out = λ e. absurd (cc e);
            values = λ _.
                sum_of-map valuation_row (cell 2) report.by_warehouse
                ∙ sym sum.values
                ∙ sum.total_value;
          },
        ),
      )
