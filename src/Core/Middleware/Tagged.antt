-- ===== src/Core/Middleware/Tagged.antt =====
-- Which answers the middlewares log and give their headers.
use Prim.Native.String.{String}
use inventory_management_api.Base.{
  ◌≡◌, refl, ◌∙◌, ap, false, Option, none, some, List, ◌∷◌, if◌then◌else◌, inl, inr, arith,
  Bool-cases,
}
use inventory_management_api.Errors.{Error, Result, ok, err, response_status}
use inventory_management_api.Core.Middleware.{
  HeaderName, Headers, HttpRequest, HttpResponse, LogLine, Handler, Framework, is_docs_path,
  is_handled, secure, secured, security_headers, log_and_tag, request_logging, application,
}

module _ (h : Headers) (f : Framework h) where
  -- What the routes and the handlers of their errors make of a request: an answer, or none.
  abbrev pub handled : Result (HttpResponse h.Fields) → Option (HttpResponse h.Fields)
  handled (ok x) = some x
  handled (err e) = if is_handled e then some (f.handler_response e) else none

  abbrev pub line_of : String → HttpRequest → HttpResponse h.Fields → LogLine
  line_of id q x = record {
    method = q.method;
    path = q.path;
    status_code = x.status_code;
    request_id = id;
  }

  -- The answer `x` with the headers of the middlewares.
  pub record Tagged (id : String) (path : String) (x y : HttpResponse h.Fields) : Type 0 where
    pub status : y.status_code ≡ x.status_code
    pub nosniff : h.get HeaderName.x_content_type_options y.headers ≡ some "nosniff"
    pub frames : h.get HeaderName.x_frame_options y.headers ≡ some "DENY"
    pub referrer : h.get HeaderName.referrer_policy y.headers ≡ some "no-referrer"
    pub permissions :
        h.get HeaderName.permissions_policy y.headers
        ≡ some "geolocation=(), microphone=(), camera=()"
    pub request_id : h.get HeaderName.x_request_id y.headers ≡ some id
    pub policy : h.get HeaderName.content_security_policy y.headers ≡ (
        if is_docs_path path
        then h.get HeaderName.content_security_policy x.headers
        else some "default-src 'none'; frame-ancestors 'none'")

  secure-Tagged :
      (id : String) (q : HttpRequest) (x : HttpResponse h.Fields)
      → Tagged id q.path x
          (secure h q.path (record x { headers = h.set HeaderName.x_request_id id x.headers }))
  unfolding secure
  secure-Tagged id q x = elim (Bool-cases (is_docs_path q.path)) [
    | inl y ↦ record {
      status = rw y refl;
      nosniff = rw y (simp (h.get-set, h.get-set_other));
      frames = rw y (simp (h.get-set, h.get-set_other));
      referrer = rw y (simp (h.get-set, h.get-set_other));
      permissions = rw y (simp (h.get-set, h.get-set_other));
      request_id = rw y (simp (h.get-set, h.get-set_other));
      policy = rw y (simp (h.get-set, h.get-set_other));
    }
    | inr n ↦ record {
      status = rw n refl;
      nosniff = rw n (simp (h.get-set, h.get-set_other));
      frames = rw n (simp (h.get-set, h.get-set_other));
      referrer = rw n (simp (h.get-set, h.get-set_other));
      permissions = rw n (simp (h.get-set, h.get-set_other));
      request_id = rw n (simp (h.get-set, h.get-set_other));
      policy = rw n (simp (h.get-set, h.get-set_other));
    }
  ]

  -- The answer of the application, by what the routes and the handlers of their errors make of the
  -- request.
  abbrev pub Finished :
      String
      → HttpRequest
      → List LogLine
      → Option (HttpResponse h.Fields)
      → Result (HttpResponse h.Fields) × List LogLine
      → Type 0
  Finished id q log (some x) r =
      (y : HttpResponse h.Fields) × ((r ≡ (ok y, line_of id q x ∷ log)) × Tagged id q.path x y)
  Finished id q log none r =
      (y : HttpResponse h.Fields) × ((r ≡ (ok y, log))
        × ((y.status_code ≡ 500) × ((k : HeaderName) → h.get k y.headers ≡ none)))

  passes :
      (id : String) (q : HttpRequest) (log log' : List LogLine) (inner : Handler h.Fields)
      → (x : HttpResponse h.Fields) → inner (record q { request_id = some id }) log ≡ (ok x, log')
      → Finished id q log'
          (some x)
          (f.server_errors (security_headers h (request_logging h id inner)) q log)
  unfolding security_headers request_logging
  passes id q log log' inner x e = (
    secure h q.path (record x { headers = h.set HeaderName.x_request_id id x.headers }),
    (
      f.server_errors_ok _ q log (line_of id q x ∷ log') _
          (ap (λ r. secured h q.path (log_and_tag h id q r)) e),
      secure-Tagged id q x,
    ),
  )

  unhandled_status : (e : Error) → is_handled e ≡ false → response_status e ≡ 500
  unfolding is_handled response_status
  unhandled_status e n = ground arith

  escapes :
      (id : String) (q : HttpRequest) (log log' : List LogLine) (inner : Handler h.Fields)
      (e : Error)
      → is_handled e ≡ false
      → inner (record q { request_id = some id }) log ≡ (err e, log')
      → Finished id q log' none
          (f.server_errors (security_headers h (request_logging h id inner)) q log)
  unfolding security_headers request_logging
  escapes id q log log' inner e n h' = (
    f.handler_response e,
    (
      f.server_errors_err _ q log log' e (ap (λ r. secured h q.path (log_and_tag h id q r)) h'),
      (f.status-handler e ∙ unhandled_status e n, f.get-handler e),
    ),
  )

  by_outcome :
      (id : String) (routes : Handler h.Fields) (q : HttpRequest) (log log' : List LogLine)
      → (r : Result (HttpResponse h.Fields))
      → routes (record q { request_id = some id }) log ≡ (r, log')
      → Finished id q log' (handled r) (application h f id routes q log)
  unfolding application
  by_outcome id routes q log log' (ok x) e =
      passes id q log log' (f.exceptions routes) x (f.exceptions_ok routes _ log log' x e)
  by_outcome id routes q log log' (err x) e = elim (Bool-cases (is_handled x)) [
    | inl y ↦ rw y (
        passes id q log log' (f.exceptions routes) (f.handler_response x)
          (f.exceptions_err routes _ log log' x e ∙ rw y refl))
    | inr n ↦ rw n (
        escapes id q log log' (f.exceptions routes) x n
          (f.exceptions_err routes _ log log' x e ∙ rw n refl))
  ]

  -- A request that the routes answer, or end by an error that has a handler, is logged once, with
  -- the status of its answer, which gets the id of the request and all security headers, the content
  -- policy on every path but those of the docs. One that they end by any other error is answered
  -- with a 500 that has none of these headers, and is not logged.
  pub application-Finished :
      (id : String) (routes : Handler h.Fields) (q : HttpRequest) (log : List LogLine)
      → (let r = routes (record q { request_id = some id }) log in
          Finished id q r.1 (handled r.0) (application h f id routes q log))
  application-Finished id routes q log = by_outcome id routes q log _ _ refl
