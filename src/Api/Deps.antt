-- ===== src/Api/Deps.antt =====
-- app/api/deps.py: the chain from a bearer token to a superuser.
pub mod Access
use Prim.Native.String.{String}
use inventory_management_api.Base.{Bool, true, false, not, Option, none, some, if◌then◌else◌}
use inventory_management_api.Errors.{AppException, Error, app, http_exception, Result, ok, err}
use inventory_management_api.Models.{Uuid, User}
use inventory_management_api.Session.{Env, Action, World, pure, raise, raise_if, ◌>>=◌, ◌>>◌}
use inventory_management_api.Repositories.Base.{get_by_id_or_raise}
use inventory_management_api.Repositories.Users.{user_model}
use inventory_management_api.Websockets.Listeners.{Texts}
use inventory_management_api.Core.Security.{Claims, Jwt, decode_access_token}

-- `except NotFoundError`
abbrev pub is_not_found : Error → Bool
is_not_found (app AppException.not_found) = true
is_not_found _ = false

abbrev pub credentials_exception : Error
credentials_exception = http_exception 401

abbrev pub or_unauthorized : {A : Type 0} → Result A × World → Result A × World
or_unauthorized (ok a, s) = (ok a, s)
or_unauthorized (err e, s) = (err (if is_not_found e then credentials_exception else e), s)

-- The lookup of the parsed subject.
abbrev pub load_user : Option Uuid → Action User
load_user none s = raise credentials_exception s
load_user (some user_id) s = or_unauthorized (get_by_id_or_raise user_model user_id s)

module _ ⦃env : Env⦄ ⦃jwt : Jwt⦄ ⦃texts : Texts⦄ where
  -- `uuid.UUID(subject)`, where there is a subject.
  abbrev pub parse_subject : Option String → Option Uuid
  parse_subject none = none
  parse_subject (some subject) = texts.uuid_of subject

  -- From the decoded payload on.
  abbrev pub user_of_payload : Option Claims → Action User
  user_of_payload none = raise credentials_exception
  user_of_payload (some payload) = load_user (parse_subject payload.sub)

  -- `get_current_user`
  unfoldable pub get_current_user : jwt.Token → Action User
  get_current_user token = do payload ← decode_access_token token; user_of_payload payload

  -- `get_current_active_user`
  unfoldable pub get_current_active_user : jwt.Token → Action User
  get_current_active_user token = do
    current_user ← get_current_user token
    raise_if (not current_user.is_active) (http_exception 403)
    pure current_user

  -- `get_current_superuser`
  unfoldable pub get_current_superuser : jwt.Token → Action User
  get_current_superuser token = do
    current_user ← get_current_active_user token
    raise_if (not current_user.is_superuser) (http_exception 403)
    pure current_user
