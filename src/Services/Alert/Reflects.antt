-- ===== src/Services/Alert/Reflects.antt =====
-- `evaluate_stock_level` makes the active alert of a pair reflect its stock level.
use inventory_management_api.Base.{
  ◌≡◌, refl, ◌∙◌, inl, inr, true, false, Option, none, some, arith, if◌then◌else◌, Bool-cases,
}
use inventory_management_api.Errors.{ok}
use inventory_management_api.Models.{Alert, Inventory}
use inventory_management_api.Session.{Env, World}
use inventory_management_api.Session.Ends.{Ends, Ends-ok, Ends-at, bind-ok}
use inventory_management_api.Repositories.Alerts.Update.{IsConsistent}
use inventory_management_api.Services.Alert.{
  alert_type_of, recover, alarm, is_above, evaluate_stock_level,
}
use inventory_management_api.Services.Alert.Outcome.{active_alert, Reflected, Refused, active_lem}
use inventory_management_api.Services.Alert.Recovery.{recover-Reflected}
use inventory_management_api.Services.Alert.Alarm.{alarm-Reflected}

module _ ⦃env : Env⦄ where
  -- Where each pair has one active alert at most, an evaluation that returns leaves no active alert
  -- of its pair if the level is above the threshold, and else one of the kind of the level, which
  -- it returns; each pair keeps one at most, and other pairs keep theirs. It publishes an event just
  -- if the alert is new or of another kind than before. One that raises meets a constraint or a
  -- value out of range, never a second alert, and commits and publishes nothing.
  pub evaluate-Reflected :
      (r : Inventory) (s : World)
      → IsConsistent s.session.alerts
      → Ends (Reflected r s) (Refused s) (evaluate_stock_level r s)
  unfolding evaluate_stock_level
  evaluate-Reflected r s h =
      Ends-ok _ _ s _ s (active_lem r.product_id r.warehouse_id s h)
        (elim (Bool-cases (is_above r)) [
          | inl y ↦ rw y (recover-Reflected r (active_alert r s.session.alerts) s h y refl)
          | inr n ↦ rw n (alarm-Reflected r (active_alert r s.session.alerts) s h n refl)
        ])

  settles :
      (r : Inventory) (o : Option Alert) (s : World)
      → (is_above r ≡ true → o ≡ none)
      → (is_above r ≡ false → (a : Alert) × (o ≡ some a) × (a.alert_type ≡ alert_type_of r))
      → (if is_above r then recover o else alarm r o) s ≡ (ok o, s)
  unfolding recover alarm
  settles r none s above below = elim (Bool-cases (is_above r)) [
    | inl y ↦ rw y
    | inr n ↦ cc ((below n).1)
  ]
  settles r (some a) s above below = elim (Bool-cases (is_above r)) [
    | inl y ↦ cc (above y)
    | inr n ↦ rw n (ground (arith, (below n).1, (below n).2))
  ]

  -- Behind an evaluation that returned, a second one returns the same alert and changes nothing:
  -- no row, no event, no email.
  pub evaluate_again :
      (r : Inventory) (s : World) (o : Option Alert) (s' : World)
      → IsConsistent s.session.alerts
      → evaluate_stock_level r s ≡ (ok o, s')
      → evaluate_stock_level r s' ≡ (ok o, s')
  evaluate_again r s o s' h e =
      again (Ends-at (evaluate_stock_level r s) o s' (evaluate-Reflected r s h) e)
    where
      again : Reflected r s o s' → evaluate_stock_level r s' ≡ (ok o, s')
      again f =
          unfold evaluate_stock_level in
          bind-ok _ _ s' _ s' (active_lem r.product_id r.warehouse_id s' f.consistent)
          ∙ rw f.active (settles r o s' f.above f.below)
