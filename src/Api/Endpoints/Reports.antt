-- ===== src/Api/Endpoints/Reports.antt =====
-- app/api/v1/endpoints/reports.py: the report routes, behind the cache.
pub mod Age
use Prim.Native.String.{String}
use inventory_management_api.Base.{⊤, ℕ, List, [], ◌∷◌}
use inventory_management_api.Errors.{Result}
use inventory_management_api.Session.{Env, World, with_session}
use inventory_management_api.Services.Report.{
  InventorySummaryReport, InventoryValuationReport, generate_inventory_summary,
  generate_valuation_report,
}
use inventory_management_api.Core.Cache.{Redis, Codec, Client, build_cache_key, cache_response}

-- `_REPORT_CACHE_TTL_SECONDS`
abbrev pub report_cache_ttl_seconds : ℕ
report_cache_ttl_seconds = 60

-- The keyword arguments that FastAPI passes to both routes.
abbrev injected : List (String × ⊤)
injected = ("db", tt) ∷ ("redis", tt) ∷ []

module _ (digest : List (String × ⊤) → String) where
  abbrev pub summary_key : String
  summary_key = build_cache_key digest "reports:inventory-summary" injected

  abbrev pub valuation_key : String
  valuation_key = build_cache_key digest "reports:valuation" injected

  module _ ⦃env : Env⦄ (redis : Redis) where
    -- `get_inventory_summary`
    unfoldable pub get_inventory_summary :
        Codec redis.Payload InventorySummaryReport
        → Client
        → World
        → redis.Store
        → Result InventorySummaryReport × (World × redis.Store)
    get_inventory_summary codec client s store =
        cache_response redis codec client summary_key report_cache_ttl_seconds
          (with_session generate_inventory_summary) s store

    -- `get_valuation_report`
    unfoldable pub get_valuation_report :
        Codec redis.Payload InventoryValuationReport
        → Client
        → World
        → redis.Store
        → Result InventoryValuationReport × (World × redis.Store)
    get_valuation_report codec client s store =
        cache_response redis codec client valuation_key report_cache_ttl_seconds
          (with_session generate_valuation_report) s store
