-- ===== src/Services/Alert/Resolution.antt =====
-- The resolution of an alert by hand.
use inventory_management_api.Base.{
  ◌≡◌, refl, ◌⊎◌, inl, inr, true, false, not, none, some, Bool-cases, Option-cases,
}
use inventory_management_api.Base.Rows.{find?}
use inventory_management_api.Errors.{Error, app, not_found, conflict}
use inventory_management_api.Models.{Uuid, AlertStatus, Alert, is_active_status}
use inventory_management_api.Session.{Env, World, raise_if, with_session, begin, commit, ◌>>=◌}
use inventory_management_api.Session.Ends.{
  Ends, Ends-ok, Ends-err, Ends-close, raise_if-raises, raise_if-passes, Uncommitted,
}
use inventory_management_api.Repositories.Base.{has_id, get_by_id_or_raise}
use inventory_management_api.Repositories.Base.Lookup.{get_or_raise_found, get_or_raise_missing}
use inventory_management_api.Repositories.Alerts.{alert_model, replace_alert}
use inventory_management_api.Services.Alert.{resolve, resolve_alert}

module _ ⦃env : Env⦄ where
  -- What a resolution that returns has committed.
  pub record Resolved (id : Uuid) (s : World) (a : Alert) (s' : World) : Type 0 where
    pub old : Alert
    pub found : find? (has_id alert_model id) s.committed.alerts ≡ some old
    pub was_active : is_active_status old.status ≡ true
    pub row :
        a ≡ record old { status = AlertStatus.resolved; resolved_at = some (env.now s.answers) }
    pub stored : s'.committed ≡ record s.committed { alerts = replace_alert a s.committed.alerts }
    pub quiet : (s'.published ≡ s.published) × (s'.queued ≡ s.queued)

  -- Why one raises.
  pub record NotResolved (id : Uuid) (s : World) (e : Error) (s' : World) : Type 0 where
    pub unchanged : Uncommitted s s'
    pub cause :
        ((e ≡ app not_found) × (find? (has_id alert_model id) s.committed.alerts ≡ none))
        ⊎ ((old : Alert) × ((find? (has_id alert_model id) s.committed.alerts ≡ some old)
              × ((e ≡ app conflict) × (is_active_status old.status ≡ false))))

  -- The same, before the session closes.
  abbrev AboutToResolve : Uuid → World → Alert → World → Type 0
  AboutToResolve id s a s' = Resolved id s a (begin s')

  abbrev AboutToFail : Uuid → World → Error → World → Type 0
  AboutToFail id s e s' = NotResolved id s e (begin s')

  -- The flush and the commit of an active alert.
  resolve_lem :
      (id : Uuid) (s : World) (old : Alert)
      → find? (has_id alert_model id) s.committed.alerts ≡ some old
      → is_active_status old.status ≡ true
      → Ends (AboutToResolve id s) (AboutToFail id s) (resolve old (begin s))
  unfolding resolve commit ◌>>=◌
  resolve_lem id s old found active = record {
    outcome = record {
      old = old;
      found = found;
      was_active = active;
      row = refl;
      stored = refl;
      quiet = (refl, refl);
    };
  }

  -- A resolution by hand changes the status and the time of the one active alert with the id, and
  -- commits just that, and publishes nothing. It raises, and commits nothing, where there is no such
  -- alert, or where it is resolved already.
  pub resolve_alert_outcome :
      (id : Uuid) (s : World)
      → Ends (Resolved id s) (NotResolved id s) (with_session (resolve_alert id) s)
  unfolding with_session resolve_alert
  resolve_alert_outcome id s =
      Ends-close _ (elim (Option-cases (find? (has_id alert_model id) s.committed.alerts)) [
        | inl missing ↦
            Ends-err (get_by_id_or_raise alert_model id) _ (begin s) _ (begin s)
              (get_or_raise_missing alert_model id (begin s) missing)
              (record {
                unchanged = record { committed = refl; published = refl; queued = refl };
                cause = inl (refl, missing);
              })
        | inr (old, found) ↦
            Ends-ok (get_by_id_or_raise alert_model id) _ (begin s) old (begin s)
              (get_or_raise_found alert_model id (begin s) old found)
              (elim (Bool-cases (is_active_status old.status)) [
                | inl y ↦
                    Ends-ok (raise_if (not (is_active_status old.status)) (app conflict)) _
                      (begin s) tt (begin s)
                      (raise_if-passes _ (app conflict) (begin s) (rw y refl))
                      (resolve_lem id s old found y)
                | inr n ↦
                    Ends-err (raise_if (not (is_active_status old.status)) (app conflict)) _
                      (begin s) _ (begin s) (raise_if-raises _ (app conflict) (begin s) (rw n refl))
                      (record {
                        unchanged = record { committed = refl; published = refl; queued = refl };
                        cause = inr (old, (found, (refl, n)));
                      })
              ])
      ])
