-- ===== src/Tests/Sweep.antt =====
-- A sweep over the sample rows.
use inventory_management_api.Base.{arith}
use inventory_management_api.Session.Ends.{Ends}
use inventory_management_api.Repositories.Alerts.Update.{IsConsistent}
use inventory_management_api.Tasks.Alerts.{check_low_stock_levels}
use inventory_management_api.Tasks.Alerts.Sweep.{Cause}
use inventory_management_api.Tasks.Alerts.Settled.{Evaluated, check_low_stock_levels_outcome}
use inventory_management_api.Tests.Command.{tables-IsStocked}
use inventory_management_api.Tests.Samples.{tables, world, sample_env}

no_alerts-IsConsistent : IsConsistent tables.alerts
no_alerts-IsConsistent = record { ids = tt; single = λ p w. tt }

check_low_stock_levels_outcome_example :
    Ends (Evaluated tables) (Cause tables) (check_low_stock_levels 2 world)
check_low_stock_levels_outcome_example =
    check_low_stock_levels_outcome 2 world no_alerts-IsConsistent tables-IsStocked.pairs
      (omega arith)
