-- ===== src/Errors.antt =====
-- app/core/exceptions.py and app/core/error_handlers.py. The texts of messages are left out: no
-- code branches on them.
use inventory_management_api.Base.{ℕ}

-- The subclasses of `AppException`; `app_exception` is a direct instance of the base class.
pub data AppException : Type 0 where
  app_exception not_found conflict validation insufficient_stock inactive_resource : AppException

-- What a call can raise: a domain exception, a failed `assert`, or an exception of the database
-- layer (`multiple_results` of `scalar_one_or_none`, `integrity` of a constraint, `data_error` of
-- a value that a column or a clause does not take), FastAPI's HTTPException with its status, or an
-- exception of the mail server.
pub data Error : Type 0 where
  app : AppException → Error
  assertion index_error multiple_results integrity data_error : Error
  http_exception : ℕ → Error
  smtp_exception : Error

pub data Result (A : Type 0) : Type 0 where
  ok : A → Result A
  err : Error → Result A

-- `_STATUS_CODE_BY_EXCEPTION`, with the 400 of a type that it does not list.
unfoldable pub status_code : AppException → ℕ
status_code AppException.app_exception = 400
status_code AppException.not_found = 404
status_code AppException.conflict = 409
status_code AppException.validation = 422
status_code AppException.insufficient_stock = 409
status_code AppException.inactive_resource = 409

-- The handlers that `register_exception_handlers` attaches: a domain exception is translated, and
-- all else is a 500, but for FastAPI's own exception, which names its status.
unfoldable pub response_status : Error → ℕ
unfolding status_code
response_status (app e) = status_code e
response_status (http_exception status) = status
response_status _ = 500
