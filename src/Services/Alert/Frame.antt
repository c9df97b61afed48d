-- ===== src/Services/Alert/Frame.antt =====
-- Whatever happens in it, `AlertService` changes no table but that of the alerts.
use inventory_management_api.Base.{◌≡◌, ap, Option, none, some, ◌∷◌, inl, inr, Bool-cases}
use inventory_management_api.Models.{Alert, Inventory, Tables}
use inventory_management_api.Session.{Env, World, write, commit, uuid4, now}
use inventory_management_api.Session.Keeps.{Keeps, keeps_rules}
use inventory_management_api.Session.{◌>>=◌}
use inventory_management_api.Repositories.Base.{create}
use inventory_management_api.Repositories.Base.Lookup.{create-cases}
use inventory_management_api.Repositories.Alerts.{
  alert_model, get_active_by_product_and_warehouse, flush_alert, replace_alert,
}
use inventory_management_api.Services.Alert.{
  react_to_alert, resolve, recover, escalate, raise_alert, alarm, evaluate_stock_level,
}

-- The tables agree with `t` but for the alerts, as the session sees them and as committed.
pub record OnlyAlerts (t : Tables) (s : World) : Type 0 where
  pub session : s.session ≡ record t { alerts = s.session.alerts }
  pub committed : s.committed ≡ record t { alerts = s.committed.alerts }

module _ ⦃env : Env⦄ (t : Tables) where
  commit-OnlyAlerts : Keeps (OnlyAlerts t) commit
  unfolding commit
  commit-OnlyAlerts = record { at = λ s h. record { session = h.session; committed = h.session } }

  react-OnlyAlerts : (a : Alert) → Keeps (OnlyAlerts t) (react_to_alert a)
  unfolding react_to_alert ◌>>=◌
  react-OnlyAlerts a = record {
    at = λ s h. record { session = h.session; committed = h.committed };
  }

  now-OnlyAlerts : Keeps (OnlyAlerts t) now
  now-OnlyAlerts = record { at = λ s h. record { session = h.session; committed = h.committed } }

  uuid4-OnlyAlerts : Keeps (OnlyAlerts t) uuid4
  uuid4-OnlyAlerts = record { at = λ s h. record { session = h.session; committed = h.committed } }

  flush-OnlyAlerts : (a : Alert) → Keeps (OnlyAlerts t) (flush_alert a)
  unfolding flush_alert ◌>>=◌
  flush-OnlyAlerts a = record {
    at = λ s h. elim (Bool-cases (env.integer_fits a.quantity_at_trigger)) [
      | inl y ↦ rw y (record {
        session =
            ap (λ (u : Tables). record u { alerts = replace_alert a s.session.alerts }) h.session;
        committed = h.committed;
      })
      | inr y ↦ rw y (record { session = h.session; committed = h.committed })
    ];
  }

  write-OnlyAlerts :
      (a : Alert)
      → Keeps (OnlyAlerts t) (write (λ u. record u { alerts = replace_alert a u.alerts }))
  write-OnlyAlerts a = record {
    at = λ s h. record {
      session =
          ap (λ (u : Tables). record u { alerts = replace_alert a s.session.alerts }) h.session;
      committed = h.committed;
    };
  }

  create-OnlyAlerts : (a : Alert) → Keeps (OnlyAlerts t) (create alert_model a)
  create-OnlyAlerts a = record {
    at = λ s h. elim (create-cases alert_model a s) [
      | inl (made, n) ↦ rw made (record {
        session = ap (λ (u : Tables). record u { alerts = a ∷ s.session.alerts }) h.session;
        committed = h.committed;
      })
      | inr (x, failed, _) ↦ rw failed h
    ];
  }

  ruleset alert_rules = (
    keeps_rules, commit-OnlyAlerts, react-OnlyAlerts, now-OnlyAlerts, uuid4-OnlyAlerts,
    flush-OnlyAlerts, create-OnlyAlerts,
  )

  resolve-OnlyAlerts : (a : Alert) → Keeps (OnlyAlerts t) (resolve a)
  unfolding resolve
  resolve-OnlyAlerts a = search (alert_rules, write-OnlyAlerts)

  recover-OnlyAlerts : (o : Option Alert) → Keeps (OnlyAlerts t) (recover o)
  unfolding recover
  recover-OnlyAlerts none = search alert_rules
  recover-OnlyAlerts (some a) = search (alert_rules, resolve-OnlyAlerts)

  escalate-OnlyAlerts : (r : Inventory) (a : Alert) → Keeps (OnlyAlerts t) (escalate r a)
  unfolding escalate
  escalate-OnlyAlerts r a = search alert_rules

  raise_alert-OnlyAlerts : (r : Inventory) → Keeps (OnlyAlerts t) (raise_alert r)
  unfolding raise_alert
  raise_alert-OnlyAlerts r = search alert_rules

  alarm-OnlyAlerts : (r : Inventory) (o : Option Alert) → Keeps (OnlyAlerts t) (alarm r o)
  unfolding alarm
  alarm-OnlyAlerts r none = raise_alert-OnlyAlerts r
  alarm-OnlyAlerts r (some a) = search (alert_rules, escalate-OnlyAlerts)

  -- An evaluation, whether it returns or raises, leaves all tables but the alerts alone.
  pub evaluate-OnlyAlerts : (r : Inventory) → Keeps (OnlyAlerts t) (evaluate_stock_level r)
  unfolding evaluate_stock_level get_active_by_product_and_warehouse
  evaluate-OnlyAlerts r = search (alert_rules, recover-OnlyAlerts, alarm-OnlyAlerts)
