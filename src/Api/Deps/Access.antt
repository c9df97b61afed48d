-- ===== src/Api/Deps/Access.antt =====
-- Who gets through the dependencies, and with which answer the others are turned away.
use inventory_management_api.Base.{
  ◌≡◌, ◌≢◌, refl, ◌∙◌, ap, arith, ◌⊎◌, inl, inr, Bool, true, false, not, Option, none, some, ◌+◌,
  if◌then◌else◌, Bool-cases, Option-cases,
}
use inventory_management_api.Base.Int.{ℤ, pos, ◌+ℤ◌, ltb_ℤ}
use inventory_management_api.Base.Rows.{find?}
use inventory_management_api.Errors.{Error, http_exception, ok, err, response_status}
use inventory_management_api.Models.{Uuid, User, Tables}
use inventory_management_api.Session.{Env, Action, World, raise_if, pure, ◌>>=◌, ◌>>◌}
use inventory_management_api.Session.Ends.{Ends, Ends-ok, bind-ok, bind-err}
use inventory_management_api.Repositories.Base.{has_id}
use inventory_management_api.Repositories.Base.Lookup.{get_or_raise_found, get_or_raise_missing}
use inventory_management_api.Repositories.Users.{user_model}
use inventory_management_api.Websockets.Listeners.{Texts}
use inventory_management_api.Core.Security.{
  Claims, Jwt, is_live, lifetime, new_claims, create_access_token, decode_access_token,
}
use inventory_management_api.Api.Deps.{
  credentials_exception, or_unauthorized, load_user, parse_subject, user_of_payload,
  get_current_user, get_current_active_user, get_current_superuser,
}

-- The row of the user with a given id, if there is one.
abbrev pub user_row : Option Uuid → Tables → Option User
user_row none t = none
user_row (some id) t = find? (has_id user_model id) t.users

-- A clock that was read once more.
abbrev pub later : World → World
later s = record s { answers = s.answers + 1 }

module _ ⦃env : Env⦄ ⦃jwt : Jwt⦄ ⦃texts : Texts⦄ where
  abbrev subject_of : Option Claims → Option Uuid
  subject_of none = none
  subject_of (some c) = parse_subject c.sub

  -- The user that a token names when it is presented in the state `s`.
  abbrev pub bearer : jwt.Token → World → Option User
  bearer token s =
      user_row (subject_of (jwt.decode token jwt.secret_key (env.now s.answers))) s.session

  load_user_missing :
      (i : Option Uuid) (s : World)
      → user_row i s.session ≡ none
      → load_user i s ≡ (err credentials_exception, s)
  load_user_missing none s h = refl
  load_user_missing (some i) s h = ap or_unauthorized (get_or_raise_missing user_model i s h)

  load_user_found :
      (i : Option Uuid) (s : World) (u : User)
      → user_row i s.session ≡ some u
      → load_user i s ≡ (ok u, s)
  load_user_found none s u h = absurd (cc h)
  load_user_found (some i) s u h = ap or_unauthorized (get_or_raise_found user_model i s u h)

  payload_lem : (c : Option Claims) (s : World) → user_of_payload c s ≡ load_user (subject_of c) s
  payload_lem none s = refl
  payload_lem (some c) s = refl

  pub get_current_user_missing :
      (token : jwt.Token) (s : World)
      → bearer token s ≡ none
      → get_current_user token s ≡ (err credentials_exception, later s)
  unfolding get_current_user decode_access_token ◌>>=◌
  get_current_user_missing token s h =
      payload_lem (jwt.decode token jwt.secret_key (env.now s.answers)) (later s)
      ∙ load_user_missing _ (later s) h

  pub get_current_user_found :
      (token : jwt.Token) (s : World) (u : User)
      → bearer token s ≡ some u
      → get_current_user token s ≡ (ok u, later s)
  unfolding get_current_user decode_access_token ◌>>=◌
  get_current_user_found token s u h =
      payload_lem (jwt.decode token jwt.secret_key (env.now s.answers)) (later s)
      ∙ load_user_found _ (later s) u h

  -- `if test: raise HTTPException(status_code=403)`, and the user.
  abbrev guarded : Bool → User → Action User
  guarded test u = raise_if test (http_exception 403) >> pure u

  guarded_passes :
      (test : Bool) (u : User) (s : World) → test ≡ true → guarded (not test) u s ≡ (ok u, s)
  unfolding ◌>>=◌
  guarded_passes test u s h = rw h refl

  guarded_stops :
      (test : Bool) (u : User) (s : World)
      → test ≡ false
      → guarded (not test) u s ≡ (err (http_exception 403), s)
  unfolding ◌>>=◌
  guarded_stops test u s h = rw h refl

  pub get_current_superuser_missing :
      (token : jwt.Token) (s : World)
      → bearer token s ≡ none
      → get_current_superuser token s ≡ (err credentials_exception, later s)
  unfolding get_current_superuser get_current_active_user
  get_current_superuser_missing token s h =
      bind-err (get_current_active_user token) _ s _ (later s)
        (bind-err (get_current_user token) _ s _ (later s) (get_current_user_missing token s h))

  get_current_active_user_stops :
      (token : jwt.Token) (s : World) (u : User)
      → bearer token s ≡ some u
      → u.is_active ≡ false
      → get_current_active_user token s ≡ (err (http_exception 403), later s)
  unfolding get_current_active_user
  get_current_active_user_stops token s u h a =
      bind-ok (get_current_user token) _ s u (later s) (get_current_user_found token s u h)
      ∙ guarded_stops u.is_active u (later s) a

  get_current_active_user_passes :
      (token : jwt.Token) (s : World) (u : User)
      → bearer token s ≡ some u
      → u.is_active ≡ true
      → get_current_active_user token s ≡ (ok u, later s)
  unfolding get_current_active_user
  get_current_active_user_passes token s u h a =
      bind-ok (get_current_user token) _ s u (later s) (get_current_user_found token s u h)
      ∙ guarded_passes u.is_active u (later s) a

  -- A user whom the chain lets through.
  pub record Granted (token : jwt.Token) (s : World) (u : User) (s' : World) : Type 0 where
    pub bearer : bearer token s ≡ some u
    pub active : u.is_active ≡ true
    pub superuser : u.is_superuser ≡ true
    pub same : s' ≡ later s

  -- Why one is turned away: with a 401 where the token names no user, with a 403 where the user is
  -- not active or not a superuser.
  pub record Denied (token : jwt.Token) (s : World) (e : Error) (s' : World) : Type 0 where
    pub cause :
        ((response_status e ≡ 401) × (bearer token s ≡ none))
        ⊎ ((response_status e ≡ 403)
            × ((u : User) × ((bearer token s ≡ some u)
                  × ((u.is_active ≡ false) ⊎ (u.is_superuser ≡ false)))))
    pub same : s' ≡ later s

  -- A request gets past `get_current_superuser` just as an active superuser whose token is good when
  -- the request comes; it is answered with a 401 just if its token names no user, and with a 403
  -- just if the user that it names is not active or not a superuser. No row changes.
  pub get_current_superuser_outcome :
      (token : jwt.Token) (s : World)
      → Ends (Granted token s) (Denied token s) (get_current_superuser token s)
  unfolding get_current_superuser response_status
  get_current_superuser_outcome token s = elim (Option-cases (bearer token s)) [
    | inl h ↦ rw (get_current_superuser_missing token s h) (denied _ (inl (refl, h)))
    | inr (u, h) ↦ elim (Bool-cases u.is_active) [
      | inr a ↦
          rw
            (bind-err (get_current_active_user token) (λ v. guarded (not v.is_superuser) v) s _
              (later s) (get_current_active_user_stops token s u h a))
            (denied _ (inr (refl, (u, (h, inl a)))))
      | inl a ↦
          Ends-ok (get_current_active_user token) (λ v. guarded (not v.is_superuser) v) s u
            (later s) (get_current_active_user_passes token s u h a)
            (elim (Bool-cases u.is_superuser) [
              | inl b ↦ rw (guarded_passes u.is_superuser u (later s) b) (record {
                outcome = record { bearer = h; active = a; superuser = b; same = refl };
              })
              | inr b ↦
                  rw (guarded_stops u.is_superuser u (later s) b)
                    (denied _ (inr (refl, (u, (h, inr b)))))
            ])
    ]
  ]
    where
      denied :
          (e : Error)
          → ((response_status e ≡ 401) × (bearer token s ≡ none))
            ⊎ ((response_status e ≡ 403)
                × ((u : User) × ((bearer token s ≡ some u)
                      × ((u.is_active ≡ false) ⊎ (u.is_superuser ≡ false)))))
          → Ends (Granted token s) (Denied token s) (err e, later s)
      denied e c = record { outcome = record { cause = c; same = refl } }

  -- How long a token lives: for `expires_delta`, or for the configured time where that is none or
  -- zero.
  pub record Lives (expires_delta : Option ℤ) (life : ℤ) : Type 0 where
    pub default : expires_delta ≡ none → life ≡ jwt.expire_seconds
    pub zero : expires_delta ≡ some (pos 0) → life ≡ jwt.expire_seconds
    pub given : (delta : ℤ) → expires_delta ≡ some delta → delta ≢ pos 0 → life ≡ delta

  lifetime-Lives : (expires_delta : Option ℤ) → Lives expires_delta (lifetime expires_delta)
  unfolding lifetime
  lifetime-Lives o = record {
    default = λ e. rw e refl;
    zero = λ e. rw e refl;
    given = λ delta e n. rw e (ground (arith, n));
  }

  -- A token that was created for a user, presented when the clock has not reached its expiry, brings
  -- that user back, and it is refused with a 401 from then on. It lives for `expires_delta`, or for the
  -- configured time where that is none or zero.
  pub create_access_token-get_current_user :
      (u : User) (expires_delta : Option ℤ) (s t : World)
      → user_row (some u.id) t.session ≡ some u
      → (life : ℤ) × (Lives expires_delta life
          × ((token : jwt.Token) × ((create_access_token (texts.str_uuid u.id) expires_delta s
                  ≡ (ok token, later s))
                × (get_current_user token t ≡ (
                  if ltb_ℤ (pos (env.now t.answers)) (pos (env.now s.answers) +ℤ life)
                      then ok u
                      else err credentials_exception,
                  later t,
                )))))
  unfolding create_access_token ◌>>=◌
  create_access_token-get_current_user u delta s t h = (
    lifetime delta,
    (
      lifetime-Lives delta,
      (
        jwt.encode (new_claims (texts.str_uuid u.id) delta (env.now s.answers)) jwt.secret_key,
        (
          refl,
          elim (Bool-cases (
              is_live (env.now t.answers)
                (new_claims (texts.str_uuid u.id) delta (env.now s.answers)))) [
                  | inl y ↦ rw y (
                      get_current_user_found _ t u (
                        rw
                          (
                            jwt.decode-encode
                                (new_claims (texts.str_uuid u.id) delta (env.now s.answers))
                                jwt.secret_key _ y,
                            texts.uuid_of-str_uuid u.id,
                          )
                          h))
                  | inr n ↦ rw n (
                      get_current_user_missing _ t (
                        rw
                          (jwt.decode_expired
                            (new_claims (texts.str_uuid u.id) delta (env.now s.answers))
                            jwt.secret_key _ n)
                          refl))
                ],
        ),
      ),
    ),
  )
