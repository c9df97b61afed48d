-- ===== src/Tests/Middleware.antt =====
-- The middlewares around sample routes.
use Prim.Native.String.{String}
use text.Mathlib.Text.{◌==◌ as str_eq}
use inventory_management_api.Base.{
  refl, ◌==◌, Option, none, some, List, [], if◌then◌else◌, arith, ap,
}
use inventory_management_api.Errors.{
  Error, Result, ok, err, app, not_found, integrity, response_status,
}
use inventory_management_api.Core.Middleware.{
  HeaderName, number, Headers, HttpRequest, HttpResponse, LogLine, Handler, is_handled, Framework,
  application,
}
use inventory_management_api.Core.Middleware.Tagged.{Finished, application-Finished}

abbrev Fields : Type 0
Fields = HeaderName → Option String

abbrev set_field : HeaderName → String → Fields → Fields
set_field k v m j = if number k == number j then some v else m j

abbrev sample_headers : Headers
sample_headers = record {
  Fields = Fields;
  get = λ k m. m k;
  set = set_field;
  get-set = λ k v m. ground arith;
  get-set_other = λ k j v m n. rw n refl;
}

abbrev Answer : Type 0
Answer = Result (HttpResponse Fields) × List LogLine

abbrev plain : Error → HttpResponse Fields
plain e = record { status_code = response_status e; headers = λ k. none }

abbrev handle_known : Answer → Answer
handle_known (ok x, l) = (ok x, l)
handle_known (err e, l) = (if is_handled e then ok (plain e) else err e, l)

abbrev handle_all : Answer → Answer
handle_all (ok x, l) = (ok x, l)
handle_all (err e, l) = (ok (plain e), l)

abbrev sample_framework : Framework sample_headers
sample_framework = record {
  handler_response = plain;
  exceptions = λ inner q l. handle_known (inner q l);
  server_errors = λ inner q l. handle_all (inner q l);
  status-handler = λ e. refl;
  get-handler = λ e k. refl;
  exceptions_ok = λ inner q l l' x e. ap handle_known e;
  exceptions_err = λ inner q l l' x e. ap handle_known e;
  server_errors_ok = λ inner q l l' x e. ap handle_all e;
  server_errors_err = λ inner q l l' x e. ap handle_all e;
}

-- A constraint fails on one path, and elsewhere nothing is found.
abbrev routes : Handler Fields
routes q l = (if str_eq q.path "/api/v1/products" then err integrity else err (app not_found), l)

abbrev request : HttpRequest
request = record { method = "POST"; path = "/api/v1/products"; request_id = none }

application-Finished_example :
    Finished sample_headers sample_framework "7" request [] none
      (application sample_headers sample_framework "7" routes request [])
unfolding is_handled
application-Finished_example =
    application-Finished sample_headers sample_framework "7" routes request []
