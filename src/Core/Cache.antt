-- ===== src/Core/Cache.antt =====
-- app/core/cache.py: responses kept in Redis. Redis and the JSON forms of the response models are the
-- parameters `Redis` and `Codec`; whether Redis answers a call is a field of `Client`.
pub mod Staleness
use Prim.Native.String.{String, ◌++◌}
use text.Mathlib.Text.{◌==◌ as str_eq}
use inventory_management_api.Base.{
  ℕ, ◌+◌, ◌≤◌, ◌<◌, ◌≡◌, ◌⊎◌, Bool, true, false, not, ◌||◌, Option, none, some, List, [], ◌∷◌,
  if◌then◌else◌,
}
use inventory_management_api.Base.Rows.{keep}
use inventory_management_api.Errors.{Result, ok, err}
use inventory_management_api.Models.{Timestamp}
use inventory_management_api.Session.{Action, World}

-- The stores of Redis, with the values that its keys hold at a time.
pub record Redis : Type 1 where
  -- The texts that it keeps.
  pub Payload : Type 0
  pub Store : Type 0
  pub get : (key : String) → Timestamp → Store → Option Payload
  -- SET key payload EX ttl, at a time.
  pub set : (key : String) → Payload → (ttl : ℕ) → Timestamp → Store → Store
  pub get-set :
      (key : String) (payload : Payload) (ttl : ℕ) (time later : Timestamp) (s : Store)
      → time ≤ later
      → (get key later (set key payload ttl time s) ≡ none)
        ⊎ ((get key later (set key payload ttl time s) ≡ some payload) × (later < time + ttl))
  pub get-set_other :
      (key other : String) (payload : Payload) (ttl : ℕ) (time later : Timestamp) (s : Store)
      → str_eq key other ≡ false
      → get other later (set key payload ttl time s) ≡ get other later s

-- The JSON form of a response model.
pub record Codec (Payload V : Type 0) : Type 0 where
  pub model_dump_json : V → Payload
  pub model_validate_json : Payload → V
  pub validate-dump : (v : V) → model_validate_json (model_dump_json v) ≡ v

-- Whether Redis answers the read and the write of a call, and when these take place.
pub record Client : Type 0 where
  pub read_answers : Bool
  pub write_answers : Bool
  pub read_at : Timestamp
  pub written_at : Timestamp

-- `_EXCLUDED_KWARGS`
abbrev pub is_excluded : String → Bool
is_excluded name = str_eq name "db" || str_eq name "redis" || str_eq name "current_user"

-- `_build_cache_key`: `digest` is the hash of the arguments that remain.
unfoldable pub build_cache_key :
    {A : Type 0} (digest : List (String × A) → String) (prefix : String)
    → List (String × A)
    → String
build_cache_key {A} digest prefix kwargs = key_of (keep (λ kwarg. not (is_excluded kwarg.0)) kwargs)
  where
    key_of : List (String × A) → String
    key_of [] = "cache:" ++ prefix
    key_of (k ∷ ks) = "cache:" ++ prefix ++ ":" ++ digest (k ∷ ks)

module _ (redis : Redis) {V : Type 0} (codec : Codec redis.Payload V) where
  -- `await redis.set(…)`, or the warning.
  abbrev pub keep_result : Client → (key : String) → (ttl : ℕ) → V → redis.Store → redis.Store
  keep_result client key ttl v store =
      if client.write_answers
      then redis.set key (codec.model_dump_json v) ttl client.written_at store
      else store

  -- A miss: the function runs, and its result is kept if it returns.
  abbrev pub keep_returned :
      Client
      → (key : String) → (ttl : ℕ) → Result V × World
      → redis.Store
      → Result V × (World × redis.Store)
  keep_returned client key ttl (ok v, s) store = (ok v, (s, keep_result client key ttl v store))
  keep_returned client key ttl (err e, s) store = (err e, (s, store))

  abbrev pub serve :
      Client
      → (key : String) → (ttl : ℕ) → Action V
      → Option redis.Payload
      → World
      → redis.Store
      → Result V × (World × redis.Store)
  serve client key ttl func (some cached) s store =
      (ok (codec.model_validate_json cached), (s, store))
  serve client key ttl func none s store = keep_returned client key ttl (func s) store

  -- The function alone, where the read is not answered.
  abbrev pub bypass : Action V → World → redis.Store → Result V × (World × redis.Store)
  bypass func s store = let (r, s') = func s in (r, (s', store))

  -- The `wrapper` of `cache_response`, called with a client.
  unfoldable pub cache_response :
      Client
      → (key : String) → (ttl : ℕ) → Action V
      → World
      → redis.Store
      → Result V × (World × redis.Store)
  cache_response client key ttl func s store =
      if client.read_answers
      then serve client key ttl func (redis.get key client.read_at store) s store
      else bypass func s store
