-- ===== src/Services/Alert/Outcome.antt =====
-- What an evaluation of a stock level makes true, and what a query for an active alert finds.
use inventory_management_api.Base.{
  ◌≡◌, ◌∙◌, ◌⊎◌, inl, inr, Bool, true, false, not, ◌&&◌, Option, none, some, List, ◌∷◌, ◌==◌, arith,
  Option-cases,
}
use inventory_management_api.Base.Rows.{
  find?, find-holds, count_rows, found, count_rows-keep, count_rows-perm,
}
use inventory_management_api.Errors.{Error, ok, integrity, data_error}
use inventory_management_api.Models.{Uuid, Alert, Inventory, type_eq}
use inventory_management_api.Session.{Env, World, select, ◌>>=◌}
use inventory_management_api.Repositories.Alerts.{
  active_of_pair, get_active_by_product_and_warehouse,
}
use inventory_management_api.Repositories.Alerts.Update.{IsConsistent}
use inventory_management_api.Services.Alert.{alert_event, alert_type_of, is_above}

abbrev pub active_alert : Inventory → List Alert → Option Alert
active_alert r alerts = find? (active_of_pair r.product_id r.warehouse_id) alerts

module _ ⦃env : Env⦄ where
  -- Whether an evaluation announces an alert: the level is not above its threshold, and no active
  -- alert of the right kind was there.
  abbrev pub is_news : Inventory → Option Alert → Bool
  is_news r none = not (is_above r)
  is_news r (some a) = not (is_above r) && not (type_eq a.alert_type (alert_type_of r))

  -- What an evaluation that returns has made true.
  pub record Reflected (r : Inventory) (s : World) (o : Option Alert) (s' : World) : Type 0 where
    pub consistent : IsConsistent s'.session.alerts
    pub active : active_alert r s'.session.alerts ≡ o
    pub above : is_above r ≡ true → o ≡ none
    pub below : is_above r ≡ false → (a : Alert) × (o ≡ some a) × (a.alert_type ≡ alert_type_of r)
    pub others :
        (p w : Uuid)
        → (r.product_id == p && r.warehouse_id == w) ≡ false
        → find? (active_of_pair p w) s'.session.alerts ≡ find? (active_of_pair p w) s.session.alerts
    pub news :
        is_news r (active_alert r s.session.alerts) ≡ true
        → (a : Alert) × (o ≡ some a) × (s'.published ≡ alert_event a ∷ s.published)
    pub quiet : is_news r (active_alert r s.session.alerts) ≡ false → s'.published ≡ s.published
    pub saved : s.committed ≡ s.session → s'.committed ≡ s'.session

  -- What one that raises has left alone.
  pub record Refused (s : World) (e : Error) (s' : World) : Type 0 where
    pub cause : (e ≡ integrity) ⊎ (e ≡ data_error)
    pub committed : s'.committed ≡ s.committed
    pub published : s'.published ≡ s.published

  pub active_lem :
      (p w : Uuid) (s : World)
      → IsConsistent s.session.alerts
      → get_active_by_product_and_warehouse p w s
        ≡ (ok (find? (active_of_pair p w) s.session.alerts), s)
  unfolding get_active_by_product_and_warehouse ◌>>=◌
  active_lem p w s h = elim (Option-cases (find? (active_of_pair p w) s.session.alerts)) [
    | inl e ↦ ground (arith, one_row)
    | inr (x, e) ↦ ground (arith, one_row)
  ]
    where
      one_row :
          count_rows (select (active_of_pair p w) s.session.alerts)
          ≡ found (find? (active_of_pair p w) s.session.alerts)
      one_row =
          count_rows-perm (env.select_perm Alert (active_of_pair p w) s.session.alerts)
          ∙ count_rows-keep (active_of_pair p w) s.session.alerts (h.single p w)

  -- An alert that is found for one pair is not of another.
  pub of_other_pair :
      (r : Inventory) (a : Alert) (s : World) (p w : Uuid)
      → active_alert r s.session.alerts ≡ some a
      → (r.product_id == p && r.warehouse_id == w) ≡ false
      → active_of_pair p w a ≡ false
  of_other_pair r a s p w e n =
      ground (arith, find-holds (active_of_pair r.product_id r.warehouse_id) s.session.alerts a)
