-- ===== src/Tests/Query.antt =====
-- The listing of low stock on the sample rows.
use inventory_management_api.Base.Int.{pos}
use inventory_management_api.Session.Ends.{Ends}
use inventory_management_api.Services.Query.{list_low_stock_rows}
use inventory_management_api.Services.Query.LowStock.{Listed, NotListed, list_low_stock_rows-IsLow}
use inventory_management_api.Tests.Samples.{world, sample_env}

list_low_stock_rows-IsLow_example :
    Ends
      (Listed (pos 0) (pos 100) world)
      (NotListed (pos 0) (pos 100) world)
      (list_low_stock_rows (pos 0) (pos 100) world)
list_low_stock_rows-IsLow_example = list_low_stock_rows-IsLow (pos 0) (pos 100) world
