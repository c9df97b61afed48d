-- ===== src/Services/Alert/Recovery.antt =====
-- `evaluate_stock_level` above the threshold: an active alert is resolved.
use inventory_management_api.Base.{◌≡◌, refl, true, Option, none, some, arith}
use inventory_management_api.Models.{AlertStatus, Alert, Inventory}
use inventory_management_api.Session.{Env, World, commit, ◌>>=◌}
use inventory_management_api.Session.Ends.{Ends}
use inventory_management_api.Repositories.Alerts.{active_of_pair}
use inventory_management_api.Repositories.Alerts.Update.{
  IsConsistent, IsConsistent-replace, find-replace_others, find-replace_gone,
}
use inventory_management_api.Services.Alert.{resolve, recover, is_above}
use inventory_management_api.Services.Alert.Outcome.{
  active_alert, Reflected, Refused, of_other_pair,
}

module _ ⦃env : Env⦄ where
  abbrev settled : Alert → World → Alert
  settled a s = record a { status = AlertStatus.resolved; resolved_at = some (env.now s.answers) }

  -- Above the threshold.
  pub recover-Reflected :
      (r : Inventory) (o : Option Alert) (s : World)
      → IsConsistent s.session.alerts
      → is_above r ≡ true
      → active_alert r s.session.alerts ≡ o
      → Ends (Reflected r s) (Refused s) (recover o s)
  unfolding recover resolve commit ◌>>=◌
  recover-Reflected r none s h y e = record {
    outcome = record {
      consistent = h;
      active = e;
      above = λ _. refl;
      below = λ n. cc;
      others = λ p w n. refl;
      news = λ n. ground arith;
      quiet = λ n. refl;
      saved = λ c. c;
    };
  }
  recover-Reflected r (some a) s h y e = record {
    outcome = record {
      consistent =
          IsConsistent-replace _ _ a (settled a s) s.session.alerts refl (λ p' w' act. ground arith)
            e h;
      active =
          find-replace_gone (active_of_pair r.product_id r.warehouse_id) a (settled a s) refl
            s.session.alerts h.ids (h.single r.product_id r.warehouse_id) e (ground arith);
      above = λ _. refl;
      below = λ n. cc;
      others = λ p w n.
          find-replace_others (active_of_pair r.product_id r.warehouse_id) a (settled a s) refl
            (active_of_pair p w) s.session.alerts h.ids e (of_other_pair r a s p w e n)
            (ground arith);
      news = λ n. ground arith;
      quiet = λ n. refl;
      saved = λ c. refl;
    };
  }
