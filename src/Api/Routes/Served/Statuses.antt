-- ===== src/Api/Routes/Served/Statuses.antt =====
-- All REST routes answer with just the statuses that they document.
use Prim.Native.String.{String}
use inventory_management_api.Base.{ℕ, ⊤, ◌≡◌, ◌⊎◌, inl, true, false, List, ◌∷◌, ◌==◌}
use inventory_management_api.Base.Rows.{any}
use inventory_management_api.Session.{Env, World}
use inventory_management_api.Services.Report.{InventorySummaryReport, InventoryValuationReport}
use inventory_management_api.Core.Cache.{Redis, Codec, Client}
use inventory_management_api.Api.Routes.Statuses.{respond-Answered}
use inventory_management_api.Api.Routes.Served.{
  RestRequest, rest_success, rest_documented, rest_is_valid, respond_rest,
}
use inventory_management_api.Api.Routes.Served.ClientErrors.{
  summary-Uncommitted, valuation-Uncommitted,
}

-- What a route answers with.
pub record RestAnswered (q : RestRequest) (status : ℕ) : Type 0 where
  pub cause :
      (status ≡ rest_success q)
      ⊎ (((rest_is_valid q ≡ false) × (status ≡ 422))
          ⊎ (any (λ n. n == status) (500 ∷ rest_documented q) ≡ true))

module _ ⦃env : Env⦄ (digest : List (String × ⊤) → String) (redis : Redis)
    (summaries : Codec redis.Payload InventorySummaryReport)
    (valuations : Codec redis.Payload InventoryValuationReport) (client : Client) where
  -- A request of the REST routes gets the success status of its route, or a 422 where its payload is
  -- refused before the route runs, or a status that its route documents, or a 500.
  pub respond_rest-RestAnswered :
      (q : RestRequest) (s : World) (store : redis.Store)
      → RestAnswered q (respond_rest digest redis summaries valuations client q s store).0.status
  unfolding respond_rest rest_success rest_is_valid rest_documented
  respond_rest-RestAnswered (RestRequest.uncached request) s store = record {
    cause = (respond-Answered request s).cause;
  }
  respond_rest-RestAnswered RestRequest.inventory_summary s store = record {
    cause = inl (summary-Uncommitted digest redis summaries valuations client s store).1;
  }
  respond_rest-RestAnswered RestRequest.valuation s store = record {
    cause = inl (valuation-Uncommitted digest redis summaries valuations client s store).1;
  }
