-- ===== src/Tests/Cache.antt =====
-- A Redis that keeps the latest entries first, and never forgets before the time.
use Prim.Native.String.{String}
use text.Mathlib.Text.{◌==◌ as str_eq}
use text.Mathlib.TextEquality.{eq_iff}
use inventory_management_api.Base.{
  ⊤, ℕ, ◌+◌, ◌≤◌, ◌<◌, ◌≡◌, refl, ◌⊎◌, inl, inr, true, false, Option, none, some, List, [], ◌∷◌,
  ltb, if◌then◌else◌, arith, Bool-cases,
}
use inventory_management_api.Models.{Timestamp, Tables}
use inventory_management_api.Services.Report.{
  InventorySummaryReport, InventoryValuationReport, summary_report, valuation_report,
}
use inventory_management_api.Services.Report.Totals.{Summarises, Values}
use inventory_management_api.Core.Cache.{Redis, Codec, Client}
use inventory_management_api.Api.Endpoints.Reports.{get_inventory_summary, get_valuation_report}
use inventory_management_api.Api.Endpoints.Reports.Age.{AreFresh, Answers, reports_outcome}
use inventory_management_api.Tests.Reports.{tables-IsPlaced}
use inventory_management_api.Tests.Samples.{tables, world, sample_env}

abbrev Payload : Type 0
Payload = InventorySummaryReport ⊎ InventoryValuationReport

abbrev Store : Type 0
Store = List (String × (Payload × Timestamp))

abbrev unexpired : Timestamp → Payload × Timestamp → Option Payload
unexpired now (payload, expiry) = if ltb now expiry then some payload else none

abbrev get_sample : String → Timestamp → Store → Option Payload
get_sample key now [] = none
get_sample key now ((k, entry) ∷ store) =
    if str_eq k key then unexpired now entry else get_sample key now store

abbrev set_sample : String → Payload → ℕ → Timestamp → Store → Store
set_sample key payload ttl now store = (key, (payload, now + ttl)) ∷ store

pub get-set_sample :
    (key : String) (payload : Payload) (ttl : ℕ) (time later : Timestamp) (s : Store)
    → time ≤ later
    → (get_sample key later (set_sample key payload ttl time s) ≡ none)
      ⊎ ((get_sample key later (set_sample key payload ttl time s) ≡ some payload)
          × (later < time + ttl))
get-set_sample key payload ttl time later s le =
    rw ((eq_iff key key).1 refl) (elim (Bool-cases (ltb later (time + ttl))) [
      | inl y ↦ inr (rw y refl, ground (arith, y))
      | inr n ↦ inl (rw n refl)
    ])

pub get-set_other_sample :
    (key other : String) (payload : Payload) (ttl : ℕ) (time later : Timestamp) (s : Store)
    → str_eq key other ≡ false
    → get_sample other later (set_sample key payload ttl time s) ≡ get_sample other later s
get-set_other_sample key other payload ttl time later s n = rw n refl

abbrev pub sample_redis : Redis
sample_redis = record {
  Payload = Payload;
  Store = Store;
  get = get_sample;
  set = set_sample;
  get-set = get-set_sample;
  get-set_other = get-set_other_sample;
}

abbrev read_summary : Payload → InventorySummaryReport
read_summary (inl r) = r
read_summary (inr _) = summary_report 0 []

abbrev read_valuation : Payload → InventoryValuationReport
read_valuation (inl _) = valuation_report 0 []
read_valuation (inr r) = r

abbrev pub summaries : Codec Payload InventorySummaryReport
summaries = record {
  model_dump_json = λ r. inl r;
  model_validate_json = read_summary;
  validate-dump = λ r. refl;
}

abbrev pub valuations : Codec Payload InventoryValuationReport
valuations = record {
  model_dump_json = λ r. inr r;
  model_validate_json = read_valuation;
  validate-dump = λ r. refl;
}

abbrev pub no_digest : List (String × ⊤) → String
no_digest kwargs = ""

abbrev history : Timestamp → Tables
history at = tables

abbrev pub client : Client
client = record { read_answers = true; write_answers = true; read_at = 100; written_at = 101 }

nothing_cached : AreFresh no_digest sample_redis summaries valuations history 100 []
nothing_cached = record {
  summary = record { held = λ later payload h e. absurd (cc e) };
  valuation = record { held = λ later payload h e. absurd (cc e) };
}

reports_outcome_example :
    Answers no_digest sample_redis summaries valuations history Summarises client world
      (get_inventory_summary no_digest sample_redis summaries client world [])
    × Answers no_digest sample_redis summaries valuations history Values client world
        (get_valuation_report no_digest sample_redis valuations client world [])
reports_outcome_example =
    reports_outcome no_digest sample_redis summaries valuations history client world []
      nothing_cached (omega arith) refl tables-IsPlaced
