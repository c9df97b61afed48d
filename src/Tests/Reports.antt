-- ===== src/Tests/Reports.antt =====
-- Reports and listings of the sample rows.
use inventory_management_api.Base.{◌≡◌, refl, ◌+◌}
use inventory_management_api.Errors.{ok}
use inventory_management_api.Session.{begin}
use inventory_management_api.Session.Ends.{Ends}
use inventory_management_api.Repositories.Movements.History.{History}
use inventory_management_api.Services.Report.{
  InventorySummaryReport, InventoryValuationReport, generate_inventory_summary,
  generate_valuation_report,
}
use inventory_management_api.Services.Report.Totals.{
  IsPlaced, Summarises, Values, generate_inventory_summary_outcome,
  generate_valuation_report_outcome,
}
use inventory_management_api.Tasks.Reports.{ReportKind, CsvFile, generate_kind_csv}
use inventory_management_api.Tasks.Reports.Export.{Exported, generate_kind_csv-Exported}
use inventory_management_api.Tests.Samples.{tables, world, sample_env}

pub tables-IsPlaced : IsPlaced tables
tables-IsPlaced = record { ids = (refl, (refl, tt)); placed = (refl, tt) }

generate_inventory_summary_outcome_example :
    (report : InventorySummaryReport) × ((generate_inventory_summary world
        ≡ (ok report, record world { answers = world.answers + 1 }))
      × Summarises tables report)
generate_inventory_summary_outcome_example =
    generate_inventory_summary_outcome world tables-IsPlaced

generate_valuation_report_outcome_example :
    (report : InventoryValuationReport) × ((generate_valuation_report world
        ≡ (ok report, record world { answers = world.answers + 1 }))
      × Values tables report)
generate_valuation_report_outcome_example = generate_valuation_report_outcome world tables-IsPlaced

generate_kind_csv-Exported_example :
    (file : CsvFile) × ((generate_kind_csv ReportKind.valuation world
        ≡ (ok file, record (begin world) { answers = world.answers + 1 + 1 }))
      × Exported tables ReportKind.valuation file)
generate_kind_csv-Exported_example =
    generate_kind_csv-Exported ReportKind.valuation world tables-IsPlaced
