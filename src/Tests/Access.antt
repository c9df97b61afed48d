-- ===== src/Tests/Access.antt =====
-- Tokens that are their own claims, and a superuser who presents one.
use inventory_management_api.Base.{
  ◌≡◌, refl, true, false, Option, none, some, [], ◌∷◌, if◌then◌else◌,
}
use inventory_management_api.Base.Int.{ℤ, pos, ◌+ℤ◌, ltb_ℤ}
use inventory_management_api.Errors.{ok, err}
use inventory_management_api.Models.{Timestamp, User, Tables}
use inventory_management_api.Session.{World, ◌>>=◌}
use inventory_management_api.Session.Ends.{Ends}
use inventory_management_api.Repositories.Base.{get_by_id_or_raise}
use inventory_management_api.Core.Security.{
  Claims, is_live, Jwt, create_access_token, decode_access_token,
}
use inventory_management_api.Api.Deps.{
  credentials_exception, get_current_user, get_current_active_user, get_current_superuser,
}
use inventory_management_api.Api.Deps.Access.{
  Granted, Denied, Lives, later, get_current_superuser_outcome,
  create_access_token-get_current_user,
}
use inventory_management_api.Tests.Samples.{tables, world, sample_env}
use inventory_management_api.Tests.Texts.{dashes, sample_texts}

abbrev pub decode_sample : Claims → Timestamp → Option Claims
decode_sample c time = if is_live time c then some c else none

decode_sample_live :
    (c : Claims) (time : Timestamp) → is_live time c ≡ true → decode_sample c time ≡ some c
decode_sample_live c time h = rw h refl

decode_sample_expired :
    (c : Claims) (time : Timestamp) → is_live time c ≡ false → decode_sample c time ≡ none
decode_sample_expired c time h = rw h refl

instance abbrev sample_jwt : Jwt
sample_jwt = record {
  Token = Claims;
  encode = λ c key. c;
  decode = λ c key time. decode_sample c time;
  decode-encode = λ c key time. decode_sample_live c time;
  decode_expired = λ c key time. decode_sample_expired c time;
  secret_key = "secret";
  expire_seconds = pos 1800;
}

abbrev pub admin : User
admin = record {
  id = 3;
  email = "admin";
  hashed_password = "hash";
  full_name = none;
  is_active = true;
  is_superuser = true;
}

abbrev pub staffed_tables : Tables
staffed_tables = record tables { users = admin ∷ [] }

abbrev pub staffed : World
staffed = record world { session = staffed_tables; committed = staffed_tables }

abbrev badge : Claims
badge = record { sub = some (dashes 3); exp = some (pos 9000) }

get_current_superuser_outcome_example :
    Ends (Granted badge staffed) (Denied badge staffed) (get_current_superuser badge staffed)
get_current_superuser_outcome_example = get_current_superuser_outcome badge staffed

-- It is the superuser who gets through.
admin_enters : get_current_superuser badge staffed ≡ (ok admin, later staffed)
unfolding get_current_superuser get_current_active_user get_current_user decode_access_token
    get_by_id_or_raise dashes ◌>>=◌
admin_enters = refl

create_access_token-get_current_user_example :
    (life : ℤ) × (Lives (some (pos 60)) life
      × ((token : Claims) × ((create_access_token (dashes 3) (some (pos 60)) staffed
              ≡ (ok token, later staffed))
            × (get_current_user token staffed ≡ (
              if ltb_ℤ (pos 5000) (pos 5000 +ℤ life) then ok admin else err credentials_exception,
              later staffed,
            )))))
create_access_token-get_current_user_example =
    create_access_token-get_current_user admin (some (pos 60)) staffed staffed refl
