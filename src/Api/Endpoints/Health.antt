-- ===== src/Api/Endpoints/Health.antt =====
-- app/api/v1/endpoints/health.py: a database that cannot be reached is outside of the model.
use Prim.Native.String.{String}
use inventory_management_api.Base.{ℕ}
use inventory_management_api.Models.{Tables}
use inventory_management_api.Session.{Action, pure, read, ◌>>◌}

pub record Health : Type 0 where
  pub status : String
  pub database : String

-- `SELECT 1`
abbrev one : Tables → ℕ
one tables = 1

-- `health_check`
unfoldable pub health_check_endpoint : Action Health
health_check_endpoint = do read one; pure (record { status = "ok"; database = "connected" })
