-- ===== src/Api/Routes/Served/ClientErrors.antt =====
-- What the answers of all REST routes say of what was done.
use Prim.Native.String.{String}
use inventory_management_api.Base.{⊤, ◌≡◌, refl, inl, inr, true, ℕ, Option-cases, Bool-cases, List}
use inventory_management_api.Errors.{Result, ok, err}
use inventory_management_api.Session.{Env, World, Action, with_session, ◌>>=◌}
use inventory_management_api.Session.Ends.{Uncommitted, Uncommitted-refl}
use inventory_management_api.Services.Report.{
  InventorySummaryReport, InventoryValuationReport, generate_inventory_summary,
  generate_valuation_report,
}
use inventory_management_api.Core.Cache.{Redis, Codec, Client, keep_returned, cache_response}
use inventory_management_api.Api.Endpoints.Reports.{get_inventory_summary, get_valuation_report}
use inventory_management_api.Api.Routes.ClientErrors.{
  IsClientError, respond-read, respond_client_error,
}
use inventory_management_api.Api.Routes.Served.{
  RestRequest, RestBody, RestResponse, rest_is_read, report_answer, respond_rest,
}

-- A function that returns and commits nothing, behind the cache, does so too.
abbrev pub IsServed : {R S : Type 0} → World → Result R × (World × S) → Type 0
IsServed {R = R} s r = ((v : R) × (r.0 ≡ ok v)) × Uncommitted s r.1.0

cache_response-IsServed :
    (redis : Redis) {V : Type 0} (codec : Codec redis.Payload V) (client : Client) (key : String)
    (ttl : ℕ) (func : Action V) (s : World) (store : redis.Store)
    → ((v : V) × ((func s).0 ≡ ok v)) × Uncommitted s (func s).1
    → IsServed s (cache_response redis codec client key ttl func s store)
unfolding cache_response
cache_response-IsServed redis codec client key ttl func s store ((v, e), u) =
    elim (Bool-cases client.read_answers) [
      | inr n ↦ rw n ((v, e), u)
      | inl y ↦ rw y (elim (Option-cases (redis.get key client.read_at store)) [
        | inl m ↦ rw m (missed (func s) e u)
        | inr (cached, h) ↦ rw h ((codec.model_validate_json cached, refl), Uncommitted-refl s)
      ])
    ]
  where
    missed :
        (r : Result _ × World)
        → r.0 ≡ ok v
        → Uncommitted s r.1
        → IsServed s (keep_returned redis codec client key ttl r store)
    missed (ok w, s') e u = ((w, refl), u)
    missed (err x, s') e u = absurd (cc e)

-- A report came back, and nothing was committed.
abbrev IsReported : {S : Type 0} → World → RestResponse × (World × S) → Type 0
IsReported s r = Uncommitted s r.1.0 × (r.0.status ≡ 200)

report_answer-Uncommitted :
    {R S : Type 0} (body : R → RestBody) (s : World) (r : Result R × (World × S))
    → IsServed s r
    → IsReported s (report_answer body r)
report_answer-Uncommitted body s (ok v, s') h = (h.1, refl)
report_answer-Uncommitted body s (err e, s') h = absurd (cc h.0.1)

module _ ⦃env : Env⦄ (digest : List (String × ⊤) → String) (redis : Redis)
    (summaries : Codec redis.Payload InventorySummaryReport)
    (valuations : Codec redis.Payload InventoryValuationReport) (client : Client) where
  pub summary-Uncommitted :
      (s : World) (store : redis.Store)
      → IsReported s (
          respond_rest digest redis summaries valuations client RestRequest.inventory_summary s
            store)
  unfolding respond_rest get_inventory_summary with_session generate_inventory_summary ◌>>=◌
  summary-Uncommitted s store = report_answer-Uncommitted RestBody.summary_body s _ (
      cache_response-IsServed redis summaries client _ _ _ s store
        ((_, refl), record { committed = refl; published = refl; queued = refl }))

  pub valuation-Uncommitted :
      (s : World) (store : redis.Store)
      → IsReported s
          (respond_rest digest redis summaries valuations client RestRequest.valuation s store)
  unfolding respond_rest get_valuation_report with_session generate_valuation_report ◌>>=◌
  valuation-Uncommitted s store = report_answer-Uncommitted RestBody.valuation_body s _ (
      cache_response-IsServed redis valuations client _ _ _ s store
        ((_, refl), record { committed = refl; published = refl; queued = refl }))

  -- No request of the REST routes that is answered with a 4xx commits, publishes or queues anything.
  pub respond_rest-client_error :
      (q : RestRequest) (s : World) (store : redis.Store)
      → IsClientError (respond_rest digest redis summaries valuations client q s store).0.status
      → Uncommitted s (respond_rest digest redis summaries valuations client q s store).1.0
  unfolding respond_rest
  respond_rest-client_error (RestRequest.uncached request) s store h =
      respond_client_error request s h
  respond_rest-client_error RestRequest.inventory_summary s store h =
      (summary-Uncommitted s store).0
  respond_rest-client_error RestRequest.valuation s store h = (valuation-Uncommitted s store).0

  -- A GET request of the REST routes commits, publishes and queues nothing, whatever it is answered
  -- with.
  pub respond_rest-read :
      (q : RestRequest) (s : World) (store : redis.Store)
      → rest_is_read q ≡ true
      → Uncommitted s (respond_rest digest redis summaries valuations client q s store).1.0
  unfolding respond_rest rest_is_read
  respond_rest-read (RestRequest.uncached request) s store h = respond-read request s h
  respond_rest-read RestRequest.inventory_summary s store h = (summary-Uncommitted s store).0
  respond_rest-read RestRequest.valuation s store h = (valuation-Uncommitted s store).0
