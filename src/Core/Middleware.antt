-- ===== src/Core/Middleware.antt =====
-- app/core/middleware.py, and the order of the middlewares in app/main.py. Headers and the layers
-- that the framework adds are the parameters `Headers` and `Framework`. The CORS layer is left out:
-- it adds headers of its own, and answers the preflight requests.
pub mod Tagged
use Prim.Native.String.{String}
use text.Mathlib.Text.{◌==◌ as str_eq}
use inventory_management_api.Base.{
  ℕ, ◌≡◌, ◌==◌, Bool, true, false, not, ◌||◌, Option, none, some, List, [], ◌∷◌, if◌then◌else◌,
}
use inventory_management_api.Errors.{Error, Result, ok, err, app, http_exception, response_status}

-- The header fields that the middlewares set.
pub data HeaderName : Type 0 where
  x_content_type_options x_frame_options referrer_policy permissions_policy : HeaderName
  content_security_policy x_request_id : HeaderName

abbrev pub number : HeaderName → ℕ
number HeaderName.x_content_type_options = 0
number HeaderName.x_frame_options = 1
number HeaderName.referrer_policy = 2
number HeaderName.permissions_policy = 3
number HeaderName.content_security_policy = 4
number HeaderName.x_request_id = 5

-- The headers of a response: an assignment replaces the value of its field.
pub record Headers : Type 1 where
  pub Fields : Type 0
  pub get : HeaderName → Fields → Option String
  pub set : HeaderName → String → Fields → Fields
  pub get-set : (k : HeaderName) (v : String) (m : Fields) → get k (set k v m) ≡ some v
  pub get-set_other :
      (k j : HeaderName) (v : String) (m : Fields)
      → (number k == number j) ≡ false
      → get j (set k v m) ≡ get j m

-- `request.state.request_id` is there once it is assigned.
pub record HttpRequest : Type 0 where
  pub method : String
  pub path : String
  pub request_id : Option String

pub record HttpResponse (Fields : Type 0) : Type 0 where
  pub status_code : ℕ
  pub headers : Fields

-- The line that `RequestLoggingMiddleware` logs, without the duration.
pub record LogLine : Type 0 where
  pub method : String
  pub path : String
  pub status_code : ℕ
  pub request_id : String

-- A layer answers a request or raises, and logs lines, the latest first.
abbrev pub Handler : Type 0 → Type 0
Handler Fields = HttpRequest → List LogLine → Result (HttpResponse Fields) × List LogLine

-- `_DOCS_PATHS`
unfoldable pub is_docs_path : String → Bool
is_docs_path path = str_eq path "/docs" || (str_eq path "/redoc" || str_eq path "/openapi.json")

module _ (h : Headers) where
  -- `response.headers[…] = …`
  abbrev pub set_header : HeaderName → String → HttpResponse h.Fields → HttpResponse h.Fields
  set_header name value response = record response { headers = h.set name value response.headers }

  -- Behind `call_next`, and only if it returns.
  abbrev pub log_and_tag :
      String
      → HttpRequest
      → Result (HttpResponse h.Fields) × List LogLine
      → Result (HttpResponse h.Fields) × List LogLine
  log_and_tag request_id request (ok response, log) = (
    ok (set_header HeaderName.x_request_id request_id response),
    record {
      method = request.method;
      path = request.path;
      status_code = response.status_code;
      request_id = request_id;
    }
        ∷ log,
  )
  log_and_tag request_id request (err e, log) = (err e, log)

  -- `RequestLoggingMiddleware.dispatch`, with the id that uuid4 gives.
  unfoldable pub request_logging : String → Handler h.Fields → Handler h.Fields
  request_logging request_id call_next request log =
      log_and_tag request_id request
        (call_next (record request { request_id = some request_id }) log)

  unfoldable pub secure : String → HttpResponse h.Fields → HttpResponse h.Fields
  unfolding is_docs_path
  secure path response =
      let fixed =
        set_header HeaderName.permissions_policy "geolocation=(), microphone=(), camera=()" (
          set_header HeaderName.referrer_policy "no-referrer" (
            set_header HeaderName.x_frame_options "DENY"
              (set_header HeaderName.x_content_type_options "nosniff" response))) in
      if not (is_docs_path path)
      then set_header HeaderName.content_security_policy
          "default-src 'none'; frame-ancestors 'none'" fixed
      else fixed

  abbrev pub secured :
      String
      → Result (HttpResponse h.Fields) × List LogLine
      → Result (HttpResponse h.Fields) × List LogLine
  secured path (ok response, log) = (ok (secure path response), log)
  secured path (err e, log) = (err e, log)

  -- `SecurityHeadersMiddleware.dispatch`
  unfoldable pub security_headers : Handler h.Fields → Handler h.Fields
  unfolding secure
  security_headers call_next request log = secured request.path (call_next request log)

-- The errors that have a handler of their own: domain exceptions and FastAPI's.
unfoldable pub is_handled : Error → Bool
is_handled (app e) = true
is_handled (http_exception status) = true
is_handled _ = false

-- What the framework puts around the middlewares. Inside of them, an error that has a handler is
-- answered by it, and another goes on; outside of them, the handler of `Exception` answers what comes
-- through. The answers of the handlers are new responses, with the status of the error.
pub record Framework (h : Headers) : Type 0 where
  pub handler_response : Error → HttpResponse h.Fields
  pub exceptions : Handler h.Fields → Handler h.Fields
  pub server_errors : Handler h.Fields → Handler h.Fields
  pub status-handler : (e : Error) → (handler_response e).status_code ≡ response_status e
  pub get-handler : (e : Error) (k : HeaderName) → h.get k (handler_response e).headers ≡ none
  pub exceptions_ok :
      (inner : Handler h.Fields) (q : HttpRequest) (l l' : List LogLine) (x : HttpResponse h.Fields)
      → inner q l ≡ (ok x, l')
      → exceptions inner q l ≡ (ok x, l')
  pub exceptions_err :
      (inner : Handler h.Fields) (q : HttpRequest) (l l' : List LogLine) (e : Error)
      → inner q l ≡ (err e, l')
      → exceptions inner q l ≡ (if is_handled e then ok (handler_response e) else err e, l')
  pub server_errors_ok :
      (inner : Handler h.Fields) (q : HttpRequest) (l l' : List LogLine) (x : HttpResponse h.Fields)
      → inner q l ≡ (ok x, l')
      → server_errors inner q l ≡ (ok x, l')
  pub server_errors_err :
      (inner : Handler h.Fields) (q : HttpRequest) (l l' : List LogLine) (e : Error)
      → inner q l ≡ (err e, l')
      → server_errors inner q l ≡ (ok (handler_response e), l')

-- The application of app/main.py: `add_middleware` puts each layer around those before it.
unfoldable pub application :
    (h : Headers) → Framework h → (request_id : String) → Handler h.Fields → Handler h.Fields
application h f request_id routes =
    f.server_errors (security_headers h (request_logging h request_id (f.exceptions routes)))
