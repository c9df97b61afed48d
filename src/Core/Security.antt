-- ===== src/Core/Security.antt =====
-- app/core/security.py: access tokens. PyJWT and the settings are the fields of `Jwt`; an `exp` claim
-- is a number of seconds, and a `sub` claim a text.
use Prim.Native.String.{String}
use inventory_management_api.Base.{◌≡◌, Bool, true, false, Option, none, some, if◌then◌else◌}
use inventory_management_api.Base.Int.{ℤ, pos, ◌+ℤ◌, ltb_ℤ, eqb_ℤ}
use inventory_management_api.Models.{Timestamp}
use inventory_management_api.Session.{Env, Action, pure, now, ◌>>=◌}

-- The claims that the code reads or writes.
pub record Claims : Type 0 where
  pub sub : Option String
  pub exp : Option ℤ

abbrev is_before : Timestamp → Option ℤ → Bool
is_before time none = true
is_before time (some exp) = ltb_ℤ (pos time) exp

-- The claims have not expired.
abbrev pub is_live : Timestamp → Claims → Bool
is_live time c = is_before time c.exp

pub record Jwt : Type 1 where
  pub Token : Type 0
  pub encode : Claims → (secret_key : String) → Token
  -- `none` is a PyJWTError.
  pub decode : Token → (secret_key : String) → Timestamp → Option Claims
  pub decode-encode :
      (c : Claims) (key : String) (time : Timestamp)
      → is_live time c ≡ true
      → decode (encode c key) key time ≡ some c
  pub decode_expired :
      (c : Claims) (key : String) (time : Timestamp)
      → is_live time c ≡ false
      → decode (encode c key) key time ≡ none
  -- `Settings.secret_key`, and `Settings.access_token_expire_minutes` in seconds.
  pub secret_key : String
  pub expire_seconds : ℤ

module _ ⦃env : Env⦄ ⦃jwt : Jwt⦄ where
  -- `expires_delta or timedelta(minutes=…)`: a delta of zero is false.
  unfoldable pub lifetime : Option ℤ → ℤ
  lifetime none = jwt.expire_seconds
  lifetime (some delta) = if eqb_ℤ delta (pos 0) then jwt.expire_seconds else delta

  -- The payload of a new token.
  abbrev pub new_claims : String → Option ℤ → Timestamp → Claims
  new_claims subject expires_delta time = record {
    sub = some subject;
    exp = some (pos time +ℤ lifetime expires_delta);
  }

  -- `create_access_token`
  unfoldable pub create_access_token : String → Option ℤ → Action jwt.Token
  create_access_token subject expires_delta = do
    time ← now
    pure (jwt.encode (new_claims subject expires_delta time) jwt.secret_key)

  -- `decode_access_token`
  unfoldable pub decode_access_token : jwt.Token → Action (Option Claims)
  decode_access_token token = do time ← now; pure (jwt.decode token jwt.secret_key time)
