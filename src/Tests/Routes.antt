-- ===== src/Tests/Routes.antt =====
-- Requests on the sample rows.
use inventory_management_api.Base.{◌≡◌, refl, arith, []}
use inventory_management_api.Session.{with_session, ◌>>=◌}
use inventory_management_api.Errors.{response_status}
use inventory_management_api.Services.Product.{deactivate_product}
use inventory_management_api.Session.Ends.{Uncommitted}
use inventory_management_api.Api.Routes.{Request, respond, is_valid, endpoint}
use inventory_management_api.Api.Endpoints.Products.{deactivate_product_endpoint}
use inventory_management_api.Api.Routes.Served.{RestRequest, rest_is_read, respond_rest}
use inventory_management_api.Api.Routes.Served.Statuses.{RestAnswered, respond_rest-RestAnswered}
use inventory_management_api.Api.Routes.Served.ClientErrors.{
  respond_rest-read, respond_rest-client_error,
}
use inventory_management_api.Api.Routes.ClientErrors.{IsClientError}
use inventory_management_api.Tests.Cache.{sample_redis, summaries, valuations, no_digest, client}
use inventory_management_api.Tests.Samples.{world, sample_env}

respond_rest-RestAnswered_example :
    RestAnswered RestRequest.valuation
      (respond_rest no_digest sample_redis summaries valuations client RestRequest.valuation world
        []).0.status
respond_rest-RestAnswered_example =
    respond_rest-RestAnswered no_digest sample_redis summaries valuations client
      RestRequest.valuation world []

respond_rest-read_example :
    Uncommitted world
      (respond_rest no_digest sample_redis summaries valuations client RestRequest.valuation world
        []).1.0
unfolding rest_is_read
respond_rest-read_example =
    respond_rest-read no_digest sample_redis summaries valuations client RestRequest.valuation world
      [] refl

-- No product has the id 9.
unknown_product : (respond (Request.deactivate_product 9) world).0.status ≡ 404
unfolding respond is_valid with_session endpoint deactivate_product_endpoint deactivate_product
    response_status ◌>>=◌
unknown_product = refl

unknown_product-IsClientError :
    IsClientError (respond (Request.deactivate_product 9) world).0.status
unknown_product-IsClientError = omega (arith, unknown_product)

abbrev unknown_deactivated : RestRequest
unknown_deactivated = RestRequest.uncached (Request.deactivate_product 9)

unknown_deactivated-IsClientError :
    IsClientError
      (respond_rest no_digest sample_redis summaries valuations client unknown_deactivated world
        []).0.status
unfolding respond_rest
unknown_deactivated-IsClientError = unknown_product-IsClientError

respond_rest-client_error_example :
    Uncommitted world
      (respond_rest no_digest sample_redis summaries valuations client unknown_deactivated world
        []).1.0
respond_rest-client_error_example =
    respond_rest-client_error no_digest sample_redis summaries valuations client unknown_deactivated
      world [] unknown_deactivated-IsClientError
