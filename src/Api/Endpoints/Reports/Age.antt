-- ===== src/Api/Endpoints/Reports/Age.antt =====
-- How far the cached reports can be behind the stock.
use Prim.Native.String.{String}
use text.Mathlib.Text.{◌==◌ as str_eq}
use inventory_management_api.Base.{
  ⊤, ◌≤◌, ◌<◌, ◌≡◌, refl, ap, sym, subst, ◌⊎◌, inl, inr, false, ◌+◌, List,
}
use inventory_management_api.Errors.{Result, ok}
use inventory_management_api.Models.{Timestamp, Tables}
use inventory_management_api.Session.{Env, World, with_session, begin, close}
use inventory_management_api.Services.Report.{
  InventorySummaryReport, InventoryValuationReport, generate_inventory_summary,
  generate_valuation_report,
}
use inventory_management_api.Services.Report.Totals.{
  IsPlaced, Summarises, Values, generate_inventory_summary_outcome,
  generate_valuation_report_outcome,
}
use inventory_management_api.Core.Cache.{Redis, Codec, Client, build_cache_key}
use inventory_management_api.Core.Cache.Staleness.{
  IsRecent, IsFresh, cache_response-returns, IsFresh-other,
}
use inventory_management_api.Api.Endpoints.Reports.{
  report_cache_ttl_seconds, summary_key, valuation_key, get_inventory_summary, get_valuation_report,
}

-- The two routes have keys of their own, whatever the hash.
keys_differ :
    (digest : List (String × ⊤) → String)
    → (str_eq (summary_key digest) (valuation_key digest) ≡ false)
      × (str_eq (valuation_key digest) (summary_key digest) ≡ false)
unfolding build_cache_key
keys_differ digest = (refl, refl)

module _ ⦃env : Env⦄ (digest : List (String × ⊤) → String) (redis : Redis)
    (summaries : Codec redis.Payload InventorySummaryReport)
    (valuations : Codec redis.Payload InventoryValuationReport) (history : Timestamp → Tables) where
  -- The cached reports are right about the tables committed less than a minute before.
  pub record AreFresh (now : Timestamp) (store : redis.Store) : Type 0 where
    pub summary :
        IsFresh redis summaries
          (λ at r. Summarises (history at) r)
          (summary_key digest)
          report_cache_ttl_seconds
          now
          store
    pub valuation :
        IsFresh redis valuations
          (λ at r. Values (history at) r)
          (valuation_key digest)
          report_cache_ttl_seconds
          now
          store

  -- A report that is right about the tables at hand, or about those of less than a minute before.
  pub record IsTimely {R : Type 0} (IsRight : Tables → R → Type 0) (client : Client) (s : World)
      (report : R) : Type 0 where
    pub age :
        IsRight s.committed report
        ⊎ ((at : Timestamp) × (IsRight (history at) report
              × ((at ≤ client.read_at) × (client.read_at < at + 60))))

  -- What a report route answers with, and what it leaves in the cache.
  pub record Answers {R : Type 0} (IsRight : Tables → R → Type 0) (client : Client) (s : World)
      (answer : Result R × (World × redis.Store)) : Type 0 where
    pub report : R
    pub is_ok : answer.0 ≡ ok report
    pub timely : IsTimely IsRight client s report
    pub fresh : AreFresh client.written_at answer.1.1

  timely :
      {R : Type 0} (IsRight : Tables → R → Type 0) (key : String) (codec : Codec redis.Payload R)
      (client : Client) (s : World) (report served : R)
      → IsRight s.committed report
      → (served ≡ report)
        ⊎ IsRecent redis codec
            (λ at r. IsRight (history at) r)
            key
            report_cache_ttl_seconds
            client.read_at
            served
      → IsTimely IsRight client s served
  timely IsRight key codec client s report served right (inl same) = record {
    age = inl (subst (IsRight s.committed) (sym same) right);
  }
  timely IsRight key codec client s report served right (inr recent) = record {
    age = inr (recent.at, (recent.returned, (recent.past, recent.young)));
  }

  summary_outcome :
      (client : Client) (s : World) (store : redis.Store)
      → AreFresh client.read_at store
      → client.read_at ≤ client.written_at
      → history client.written_at ≡ s.committed
      → IsPlaced s.committed
      → Answers Summarises client s (get_inventory_summary digest redis summaries client s store)
  unfolding get_inventory_summary with_session
  summary_outcome client s store f le current placed =
      let (report, (run, right)) = generate_inventory_summary_outcome (begin s) placed in
      let (served, (is_ok, (age, fresh))) =
        cache_response-returns redis summaries (λ at r. Summarises (history at) r)
          (summary_key digest) report_cache_ttl_seconds client
          (with_session generate_inventory_summary) s store report _ f.summary le (ap close run)
          (subst (λ t. Summarises t report) (sym current) right) in
      let kept =
        IsFresh-other redis valuations _ (valuation_key digest) report_cache_ttl_seconds summaries
          client (summary_key digest) report_cache_ttl_seconds
          (with_session generate_inventory_summary) s store (keys_differ digest).0 le f.valuation in
      record {
        report = served;
        is_ok = is_ok;
        timely = timely Summarises (summary_key digest) summaries client s report served right age;
        fresh = record { summary = fresh; valuation = kept };
      }

  valuation_outcome :
      (client : Client) (s : World) (store : redis.Store)
      → AreFresh client.read_at store
      → client.read_at ≤ client.written_at
      → history client.written_at ≡ s.committed
      → IsPlaced s.committed
      → Answers Values client s (get_valuation_report digest redis valuations client s store)
  unfolding get_valuation_report with_session
  valuation_outcome client s store f le current placed =
      let (report, (run, right)) = generate_valuation_report_outcome (begin s) placed in
      let (served, (is_ok, (age, fresh))) =
        cache_response-returns redis valuations (λ at r. Values (history at) r)
          (valuation_key digest) report_cache_ttl_seconds client
          (with_session generate_valuation_report) s store report _ f.valuation le (ap close run)
          (subst (λ t. Values t report) (sym current) right) in
      let kept =
        IsFresh-other redis summaries _ (summary_key digest) report_cache_ttl_seconds valuations
          client (valuation_key digest) report_cache_ttl_seconds
          (with_session generate_valuation_report) s store (keys_differ digest).1 le f.summary in
      record {
        report = served;
        is_ok = is_ok;
        timely = timely Values (valuation_key digest) valuations client s report served right age;
        fresh = record { valuation = fresh; summary = kept };
      }

  -- Where what is cached is less than a minute old, each stock level belongs to one warehouse and
  -- `history` tells the committed tables by the time, both report routes answer with a report that
  -- agrees with the tables committed now, or with those committed less than a minute before; and
  -- what is cached under either key is less than a minute old again.
  pub reports_outcome :
      (client : Client) (s : World) (store : redis.Store)
      → AreFresh client.read_at store
      → client.read_at ≤ client.written_at
      → history client.written_at ≡ s.committed
      → IsPlaced s.committed
      → Answers Summarises client s (get_inventory_summary digest redis summaries client s store)
        × Answers Values client s (get_valuation_report digest redis valuations client s store)
  reports_outcome client s store f le current placed = (
    summary_outcome client s store f le current placed,
    valuation_outcome client s store f le current placed,
  )
