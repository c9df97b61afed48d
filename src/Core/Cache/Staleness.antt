-- ===== src/Core/Cache/Staleness.antt =====
-- How old a cached response can be.
use Prim.Native.String.{String}
use text.Mathlib.Text.{◌==◌ as str_eq}
use inventory_management_api.Base.{
  ℕ, ◌+◌, ◌≤◌, ◌<◌, ◌≡◌, refl, sym, subst, ap, ◌∙◌, ◌⊎◌, inl, inr, false, some, arith, Bool-cases,
  Option-cases,
}
use inventory_management_api.Errors.{Result, ok, err}
use inventory_management_api.Models.{Timestamp}
use inventory_management_api.Session.{Action, World}
use inventory_management_api.Core.Cache.{Redis, Codec, Client, keep_returned, cache_response}

module _ (redis : Redis) {V : Type 0} (codec : Codec redis.Payload V)
    (Returned : Timestamp → V → Type 0) (key : String) (ttl : ℕ) where
  -- `v` was returned by a call less than `ttl` seconds before `time`.
  pub record IsRecent (time : Timestamp) (v : V) : Type 0 where
    pub at : Timestamp
    pub returned : Returned at v
    pub past : at ≤ time
    pub young : time < at + ttl

  -- From `now` on, whatever the key holds is the dump of such a result.
  pub record IsFresh (now : Timestamp) (store : redis.Store) : Type 0 where
    pub held :
        (later : Timestamp) (payload : redis.Payload)
        → now ≤ later
        → redis.get key later store ≡ some payload
        → (v : V) × ((payload ≡ codec.model_dump_json v) × IsRecent later v)

  IsFresh-later :
      (now next : Timestamp) (store : redis.Store)
      → now ≤ next
      → IsFresh now store
      → IsFresh next store
  IsFresh-later now next store le f = record {
    held = λ later payload h e. f.held later payload (omega (arith, le, h)) e;
  }

  IsFresh-set :
      (v : V) (time : Timestamp) (store : redis.Store)
      → Returned time v
      → IsFresh time (redis.set key (codec.model_dump_json v) ttl time store)
  IsFresh-set v time store r = record {
    held = λ later payload h e.
        elim (redis.get-set key (codec.model_dump_json v) ttl time later store h) [
          | inl miss ↦ absurd (cc (miss, e))
          | inr (hit, young) ↦
              (v, (cc (hit, e), record { at = time; returned = r; past = h; young = young }))
        ];
  }

  -- A miss gives what the function gave.
  after_miss :
      (client : Client) (o : Result V × World) (store : redis.Store)
      → IsFresh client.written_at store
      → ((v : V) → o.0 ≡ ok v → Returned client.written_at v)
      → ((
        (keep_returned redis codec client key ttl o store).0,
        (keep_returned redis codec client key ttl o store).1.0,
      )
          ≡ o)
        × IsFresh client.written_at (keep_returned redis codec client key ttl o store).1.1
  after_miss client (err e, s') store f r = (refl, f)
  after_miss client (ok v, s') store f r = elim (Bool-cases client.write_answers) [
    | inl y ↦ rw y (refl, IsFresh-set v client.written_at store (r v refl))
    | inr n ↦ rw n (refl, f)
  ]

  -- What a call through the cache gives, and what it leaves.
  pub record Served (client : Client) (func : Action V) (s : World) (answer : Result V) (s' : World)
      (store' : redis.Store) : Type 0 where
    pub cause :
        (((answer, s') ≡ func s))
        ⊎ ((v : V) × ((answer ≡ ok v) × ((s' ≡ s) × IsRecent client.read_at v)))
    pub fresh : IsFresh client.written_at store'
    pub outage : client.read_answers ≡ false → (answer, s') ≡ func s

  -- Where the key holds just dumps of results that are less than `ttl` seconds old, it does so after
  -- any call, and the call gives what the function gives now or such a result, without running the
  -- function. It gives what the function gives, an error too, where Redis does not answer the read.
  pub cache_response-Served :
      (client : Client) (func : Action V) (s : World) (store : redis.Store)
      → IsFresh client.read_at store
      → client.read_at ≤ client.written_at
      → ((v : V) → (func s).0 ≡ ok v → Returned client.written_at v)
      → Served client func s
          (cache_response redis codec client key ttl func s store).0
          (cache_response redis codec client key ttl func s store).1.0
          (cache_response redis codec client key ttl func s store).1.1
  unfolding cache_response
  cache_response-Served client func s store f le r = elim (Bool-cases client.read_answers) [
    | inr n ↦ rw n (record {
      cause = inl refl;
      fresh = IsFresh-later client.read_at client.written_at store le f;
      outage = λ _. refl;
    })
    | inl y ↦ elim (Option-cases (redis.get key client.read_at store)) [
      | inl miss ↦
          rw (y, miss)
            (let (same, fresh) =
                after_miss client (func s) store
                  (IsFresh-later client.read_at client.written_at store le f) r in
              record { cause = inl same; fresh = fresh; outage = λ _. same })
      | inr (payload, hit) ↦
          rw (y, hit)
            (let (v, (dump, recent)) = f.held client.read_at payload (omega arith) hit in
              record {
                cause = inr (
                  v,
                  (
                    ap ok (ap codec.model_validate_json dump ∙ codec.validate-dump v),
                    (refl, recent),
                  ),
                );
                fresh = IsFresh-later client.read_at client.written_at store le f;
                outage = λ n. absurd (cc n);
              })
    ]
  ]

  -- Where the function returns, the call does, with the function's result or a recent one.
  pub cache_response-returns :
      (client : Client) (func : Action V) (s : World) (store : redis.Store) (v : V) (s' : World)
      → IsFresh client.read_at store
      → client.read_at ≤ client.written_at
      → func s ≡ (ok v, s')
      → Returned client.written_at v
      → (w : V) × (((cache_response redis codec client key ttl func s store).0 ≡ ok w)
          × (((w ≡ v) ⊎ IsRecent client.read_at w)
              × IsFresh client.written_at
                  (cache_response redis codec client key ttl func s store).1.1))
  cache_response-returns client func s store v s' f le e r =
      let served =
        cache_response-Served client func s store f le
          (λ u g. subst (Returned client.written_at) (cc (e, g)) r) in
      elim served.cause [
        | inl now ↦ (v, (ap (λ (o : Result V × World). o.0) (now ∙ e), (inl refl, served.fresh)))
        | inr (w, (hit, (_, recent))) ↦ (w, (hit, (inr recent, served.fresh)))
      ]

  -- A call under another key leaves what this one holds.
  pub IsFresh-other :
      {W : Type 0} (other_codec : Codec redis.Payload W) (client : Client) (other : String)
      (other_ttl : ℕ) (func : Action W) (s : World) (store : redis.Store)
      → str_eq other key ≡ false
      → client.read_at ≤ client.written_at
      → IsFresh client.read_at store
      → IsFresh client.written_at
          (cache_response redis other_codec client other other_ttl func s store).1.1
  unfolding cache_response
  IsFresh-other {W} other_codec client other other_ttl func s store n le f =
      elim (Bool-cases client.read_answers) [
        | inr down ↦ rw down kept
        | inl up ↦ elim (Option-cases (redis.get other client.read_at store)) [
          | inl miss ↦ rw (up, miss) (after (func s))
          | inr (payload, hit) ↦ rw (up, hit) kept
        ]
      ]
    where
      kept : IsFresh client.written_at store
      kept = IsFresh-later client.read_at client.written_at store le f

      after :
          (o : Result W × World)
          → IsFresh client.written_at
              (keep_returned redis other_codec client other other_ttl o store).1.1
      after (err e, s') = kept
      after (ok w, s') = elim (Bool-cases client.write_answers) [
        | inr m ↦ rw m kept
        | inl y ↦ rw y (record {
          held = λ later payload h e. kept.held later payload h (
              sym (
                redis.get-set_other other key (other_codec.model_dump_json w) other_ttl
                  client.written_at later store n)
              ∙ e);
        })
      ]
