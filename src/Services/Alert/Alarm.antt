-- ===== src/Services/Alert/Alarm.antt =====
-- `evaluate_stock_level` at or below the threshold: an alert is created, escalated or left alone.
use inventory_management_api.Base.{
  ◌≡◌, refl, ◌∙◌, ap, subst, ◌⊎◌, inl, inr, Bool, true, false, Option, none, some, List, ◌∷◌, ◌+◌,
  ◌==◌, arith, Bool-cases, ==_iff,
}
use inventory_management_api.Base.Rows.{any, find-holds, any-eq-find}
use inventory_management_api.Errors.{Error, integrity, data_error}
use inventory_management_api.Models.{Uuid, AlertType, Alert, Inventory, Tables, type_eq}
use inventory_management_api.Session.{Env, World, commit, publish, ◌>>=◌}
use inventory_management_api.Session.Ends.{Ends, Ends-ok, Ends-err}
use inventory_management_api.Repositories.Base.Lookup.{create-cases}
use inventory_management_api.Repositories.Alerts.{
  active_of_pair, alert_violates, alert_model, flush_alert,
}
use inventory_management_api.Repositories.Alerts.Update.{
  IsConsistent, IsConsistent-replace, find-replace, find-replace_others,
}
use inventory_management_api.Services.Alert.{
  alert_type_of, new_alert, react_to_alert, escalate, raise_alert, alarm, is_above,
}
use inventory_management_api.Services.Alert.Outcome.{
  active_alert, Reflected, Refused, of_other_pair,
}

module _ ⦃env : Env⦄ where
  abbrev raised : Inventory → Alert → Alert
  raised r a = record a { alert_type = alert_type_of r; quantity_at_trigger = r.quantity }

  escalate-Reflected :
      (r : Inventory) (a : Alert) (s : World)
      → IsConsistent s.session.alerts
      → is_above r ≡ false
      → type_eq a.alert_type (alert_type_of r) ≡ false
      → active_alert r s.session.alerts ≡ some a
      → Ends (Reflected r s) (Refused s) (escalate r a s)
  unfolding escalate react_to_alert flush_alert commit publish ◌>>=◌
  escalate-Reflected r a s h y d e = elim (Bool-cases (env.integer_fits r.quantity)) [
    | inl f ↦ rw f (record {
      outcome = record {
        consistent =
            IsConsistent-replace _ _ a (raised r a) s.session.alerts refl (λ p' w' act. act) e h;
        active =
            find-replace (active_of_pair r.product_id r.warehouse_id) a (raised r a) refl
              s.session.alerts h.ids e
              (find-holds (active_of_pair r.product_id r.warehouse_id) s.session.alerts a e);
        above = λ n. cc;
        below = λ n. (raised r a, refl, refl);
        others = λ p w n.
            find-replace_others (active_of_pair r.product_id r.warehouse_id) a (raised r a) refl
              (active_of_pair p w) s.session.alerts h.ids e (of_other_pair r a s p w e n)
              (of_other_pair r a s p w e n);
        news = λ n. (raised r a, refl, refl);
        quiet = λ n. ground arith;
        saved = λ c. refl;
      };
    })
    | inr f ↦
        rw f (record { outcome = record { cause = inr refl; committed = refl; published = refl } })
  ]

  IsConsistent-new :
      (r : Inventory) (i : Uuid) (xs : List Alert)
      → any (λ (a : Alert). a.id == i) xs ≡ false
      → active_alert r xs ≡ none
      → IsConsistent xs
      → IsConsistent (new_alert r i ∷ xs)
  unfolding new_alert
  IsConsistent-new r i xs n e h = record {
    ids = (n, h.ids);
    single = λ p w. (
      (λ act.
          subst (λ (q : Alert → Bool). any q xs ≡ false)
            (ap (λ p'. active_of_pair p' r.warehouse_id) ((==_iff r.product_id p).0 (ground arith))
              ∙ ap (λ w'. active_of_pair p w') ((==_iff r.warehouse_id w).0 (ground arith)))
            (any-eq-find (active_of_pair r.product_id r.warehouse_id) xs e)),
      h.single p w,
    );
  }

  alert_violates_cause :
      (a : Alert) (t : Tables) (e : Error)
      → alert_violates a t ≡ some e
      → (e ≡ integrity) ⊎ (e ≡ data_error)
  unfolding alert_violates
  alert_violates_cause a t e h = ground arith

  raise_alert-Reflected :
      (r : Inventory) (s : World)
      → IsConsistent s.session.alerts
      → is_above r ≡ false
      → active_alert r s.session.alerts ≡ none
      → Ends (Reflected r s) (Refused s) (raise_alert r s)
  unfolding raise_alert react_to_alert commit publish new_alert
  raise_alert-Reflected r s h y e =
      Ends-ok _ _ _ _ drawn refl
        (elim (create-cases alert_model (new_alert r (env.uuid4 s.answers)) drawn) [
          | inl (made, n) ↦ Ends-ok _ _ _ _ _ made (
              Ends-ok _ _ _ _ _ refl (
                unfold ◌>>=◌ in
                record {
                  outcome = record {
                    consistent =
                        IsConsistent-new r (env.uuid4 s.answers) s.session.alerts n.new_id e h;
                    active = ground arith;
                    above = λ n. cc;
                    below = λ n. (new_alert r (env.uuid4 s.answers), refl, refl);
                    others = λ p w n. ground arith;
                    news = λ n. (new_alert r (env.uuid4 s.answers), refl, refl);
                    quiet = λ n. ground arith;
                    saved = λ c. refl;
                  };
                }))
          | inr (x, failed, why) ↦
              Ends-err _ _ _ _ _ failed
                (record { cause = cause_of x why; committed = refl; published = refl })
        ])
    where
      drawn : World
      drawn = record s { answers = s.answers + 1 }

      cause_of :
          (x : Error)
          → (x ≡ integrity)
            ⊎ (alert_violates (new_alert r (env.uuid4 s.answers)) s.session ≡ some x)
          → (x ≡ integrity) ⊎ (x ≡ data_error)
      cause_of x (inl p) = inl p
      cause_of x (inr p) = alert_violates_cause _ s.session x p

  unchanged-Reflected :
      (r : Inventory) (a : Alert) (s : World)
      → IsConsistent s.session.alerts
      → is_above r ≡ false
      → type_eq a.alert_type (alert_type_of r) ≡ true
      → active_alert r s.session.alerts ≡ some a
      → Reflected r s (some a) s
  unchanged-Reflected r a s h y d e = record {
    consistent = h;
    active = e;
    above = λ n. cc;
    below = λ n. (a, refl, eq_of_type_eq a.alert_type (alert_type_of r) d);
    others = λ p w n. refl;
    news = λ n. ground arith;
    quiet = λ n. refl;
    saved = λ c. c;
  }
    where
      eq_of_type_eq : (x y : AlertType) → type_eq x y ≡ true → x ≡ y
      eq_of_type_eq x y h = ground arith

  -- At or below the threshold.
  pub alarm-Reflected :
      (r : Inventory) (o : Option Alert) (s : World)
      → IsConsistent s.session.alerts
      → is_above r ≡ false
      → active_alert r s.session.alerts ≡ o
      → Ends (Reflected r s) (Refused s) (alarm r o s)
  unfolding alarm
  alarm-Reflected r none s h y e = raise_alert-Reflected r s h y e
  alarm-Reflected r (some a) s h y e = elim (Bool-cases (type_eq a.alert_type (alert_type_of r))) [
    | inl d ↦ rw d (record { outcome = unchanged-Reflected r a s h y d e })
    | inr d ↦ rw d (escalate-Reflected r a s h y d e)
  ]
