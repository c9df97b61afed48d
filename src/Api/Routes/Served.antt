-- ===== src/Api/Routes/Served.antt =====
-- All REST routes of app/api/v1/router.py: those of `Request`, and the reports of
-- app/api/v1/endpoints/reports.py, which may be answered from the cache.
pub mod ClientErrors
pub mod Statuses
use Prim.Native.String.{String}
use inventory_management_api.Base.{⊤, ℕ, Bool, true, Option, some, List, [], ◌∷◌}
use inventory_management_api.Errors.{Result, ok, err, response_status}
use inventory_management_api.Session.{Env, World}
use inventory_management_api.Services.Report.{InventorySummaryReport, InventoryValuationReport}
use inventory_management_api.Core.Cache.{Redis, Codec, Client}
use inventory_management_api.Api.Endpoints.Reports.{get_inventory_summary, get_valuation_report}
use inventory_management_api.Api.Routes.{
  Request, Body, success_status, documented, is_read, is_valid, Response, respond,
}

pub data RestRequest : Type 0 where
  uncached : (request : Request) → RestRequest
  inventory_summary : RestRequest
  valuation : RestRequest

-- The body of an answer that is not an error.
pub data RestBody : Type 0 where
  plain_body : Option Body → RestBody
  summary_body : InventorySummaryReport → RestBody
  valuation_body : InventoryValuationReport → RestBody
  no_body : RestBody

pub record RestResponse : Type 0 where
  pub status : ℕ
  pub body : RestBody

-- `status_code=` of the decorators: the reports have none.
unfoldable pub rest_success : RestRequest → ℕ
rest_success (RestRequest.uncached request) = success_status request
rest_success RestRequest.inventory_summary = 200
rest_success RestRequest.valuation = 200

-- `responses=` of the decorators: the reports have none.
unfoldable pub rest_documented : RestRequest → List ℕ
rest_documented (RestRequest.uncached request) = documented request
rest_documented RestRequest.inventory_summary = []
rest_documented RestRequest.valuation = []

-- `@router.get`
unfoldable pub rest_is_read : RestRequest → Bool
rest_is_read (RestRequest.uncached request) = is_read request
rest_is_read RestRequest.inventory_summary = true
rest_is_read RestRequest.valuation = true

-- The reports take no payload.
unfoldable pub rest_is_valid : RestRequest → Bool
rest_is_valid (RestRequest.uncached request) = is_valid request
rest_is_valid RestRequest.inventory_summary = true
rest_is_valid RestRequest.valuation = true

abbrev pub report_answer :
    {R S : Type 0} → (R → RestBody) → Result R × (World × S) → RestResponse × (World × S)
report_answer body (ok report, s) = (record { status = 200; body = body report }, s)
report_answer body (err e, s) = (record { status = response_status e; body = RestBody.no_body }, s)

abbrev pub uncached_answer : {S : Type 0} → S → Response × World → RestResponse × (World × S)
uncached_answer store (r, s) =
    (record { status = r.status; body = RestBody.plain_body r.body }, (s, store))

module _ ⦃env : Env⦄ (digest : List (String × ⊤) → String) (redis : Redis)
    (summaries : Codec redis.Payload InventorySummaryReport)
    (valuations : Codec redis.Payload InventoryValuationReport) (client : Client) where
  -- A request, and its answer, with the database and the cache after it.
  unfoldable pub respond_rest :
      RestRequest → World → redis.Store → RestResponse × (World × redis.Store)
  respond_rest (RestRequest.uncached request) s store = uncached_answer store (respond request s)
  respond_rest RestRequest.inventory_summary s store =
      report_answer RestBody.summary_body
        (get_inventory_summary digest redis summaries client s store)
  respond_rest RestRequest.valuation s store =
      report_answer RestBody.valuation_body
        (get_valuation_report digest redis valuations client s store)
