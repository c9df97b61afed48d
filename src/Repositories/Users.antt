-- ===== src/Repositories/Users.antt =====
-- app/repositories/user.py, over the constraints of app/models/user.py.
use Prim.Native.String.{String}
use text.Mathlib.Text.{◌==◌}
use inventory_management_api.Base.{Bool, ◌&&◌, Option, none, some, List, if◌then◌else◌}
use inventory_management_api.Base.Rows.{any, count_rows}
use inventory_management_api.Errors.{Error, integrity}
use inventory_management_api.Models.{User, Tables}
use inventory_management_api.Session.{Env, Action, read, pure, one_or_none, select, ◌>>=◌}
use inventory_management_api.Repositories.Base.{Model}

-- `User.email == email`
abbrev pub has_email : String → User → Bool
has_email email r = r.email == email

-- `User.is_superuser.is_(True), User.is_active.is_(True)`
abbrev pub is_active_superuser : User → Bool
is_active_superuser r = r.is_superuser && r.is_active

-- `email` is unique.
unfoldable pub user_violates : User → Tables → Option Error
user_violates r t = if any (has_email r.email) t.users then some integrity else none

abbrev pub user_model : Model User
user_model = record {
  rows = λ t. t.users;
  with_rows = λ rs t. record t { users = rs };
  id = λ r. r.id;
  violates = user_violates;
}

module _ ⦃env : Env⦄ where
  -- `UserRepository.get_by_email`
  unfoldable pub get_by_email : String → Action (Option User)
  get_by_email email = do
    rows ← read (λ t. t.users)
    one_or_none (count_rows (select (has_email email) rows))

  -- `UserRepository.list_active_superusers`
  unfoldable pub list_active_superusers : Action (List User)
  list_active_superusers = do rows ← read (λ t. t.users); pure (select is_active_superuser rows)
