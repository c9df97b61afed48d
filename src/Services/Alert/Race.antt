-- ===== src/Services/Alert/Race.antt =====
-- Two evaluations of one pair at once: nothing keeps the second from adding a second active alert.
use inventory_management_api.Base.{
  ⊤, ◌≡◌, refl, ◌∙◌, ap, ◌+◌, ◌≤◌, inl, inr, Bool, true, false, Option, none, some, List, [], ◌∷◌,
  suc, arith,
}
use inventory_management_api.Base.Rows.{find?, keep, length, length-perm, count_rows, several}
use inventory_management_api.Errors.{ok, err, multiple_results}
use inventory_management_api.Models.{Uuid, Alert, Inventory}
use inventory_management_api.Session.{
  Env, World, select, begin, close, with_session, commit, publish, ◌>>=◌,
}
use inventory_management_api.Session.Ends.{
  Ends, Ends-ok, Ends-err, Ends-at, Ends-map, Ends-close, bind-err,
}
use inventory_management_api.Repositories.Base.Lookup.{create-cases}
use inventory_management_api.Repositories.Alerts.{
  active_of_pair, alert_model, get_active_by_product_and_warehouse,
}
use inventory_management_api.Repositories.Alerts.Update.{IsConsistent}
use inventory_management_api.Services.Alert.{
  new_alert, react_to_alert, raise_alert, alarm, is_above, evaluate_stock_level,
}
use inventory_management_api.Services.Alert.Outcome.{Reflected}
use inventory_management_api.Services.Alert.Reflects.{evaluate-Reflected}

module _ {A : Type 0} where
  length-keep_pos :
      (p : A → Bool) (xs : List A) (x : A) → find? p xs ≡ some x → 1 ≤ length (keep p xs)
  length-keep_pos p [] x h = cc
  length-keep_pos p (y ∷ ys) x h = ground (arith, h, length-keep_pos p ys x)

  count_rows-several : (xs : List A) → 2 ≤ length xs → count_rows xs ≡ several
  count_rows-several [] h = absurd (omega (arith, h))
  count_rows-several (x ∷ []) h = absurd (omega (arith, h))
  count_rows-several (x ∷ y ∷ xs) h = refl

module _ ⦃env : Env⦄ where
  -- The active alerts of a pair.
  abbrev pub actives : Inventory → List Alert → List Alert
  actives r alerts = keep (active_of_pair r.product_id r.warehouse_id) alerts

  active_of_pair-new_alert :
      (r : Inventory) (i : Uuid) → active_of_pair r.product_id r.warehouse_id (new_alert r i) ≡ true
  unfolding new_alert
  active_of_pair-new_alert r i = ground arith

  -- An alert that is raised stands beside those that are there.
  raise_alert-adds :
      (r : Inventory) (s : World)
      → Ends
          (λ _ s'.
            length (actives r s'.committed.alerts) ≡ suc (length (actives r s.session.alerts)))
          (λ _ _. ⊤)
          (raise_alert r s)
  unfolding raise_alert react_to_alert commit publish
  raise_alert-adds r s =
      Ends-ok _ _ _ _ drawn refl
        (elim (create-cases alert_model (new_alert r (env.uuid4 s.answers)) drawn) [
          | inl (made, n) ↦ Ends-ok _ _ _ _ _ made (
              Ends-ok _ _ _ _ _ refl (
                unfold ◌>>=◌ in
                record { outcome = rw (active_of_pair-new_alert r (env.uuid4 s.answers)) refl }))
          | inr (x, failed, why) ↦ Ends-err _ _ _ _ _ failed tt
        ])
    where
      drawn : World
      drawn = record s { answers = s.answers + 1 }

  -- With two active alerts of a pair, the query for its active alert raises.
  get_active-several :
      (r : Inventory) (s : World)
      → 2 ≤ length (actives r s.session.alerts)
      → get_active_by_product_and_warehouse r.product_id r.warehouse_id s
        ≡ (err multiple_results, s)
  unfolding get_active_by_product_and_warehouse ◌>>=◌
  get_active-several r s h = rw rows_several refl
    where
      active : Alert → Bool
      active = active_of_pair r.product_id r.warehouse_id

      rows_several : count_rows (select active s.session.alerts) ≡ several
      rows_several =
          count_rows-several (select active s.session.alerts)
            (omega (arith, h, length-perm (env.select_perm Alert active s.session.alerts)))

  evaluate-several :
      (r : Inventory) (s : World)
      → 2 ≤ length (actives r s.session.alerts)
      → evaluate_stock_level r s ≡ (err multiple_results, s)
  unfolding evaluate_stock_level
  evaluate-several r s h = bind-err _ _ s multiple_results s (get_active-several r s h)

  -- Behind an evaluation that finds the level too low, the pair has an active alert.
  evaluate-alerted :
      (r : Inventory) (s : World)
      → IsConsistent s.session.alerts
      → is_above r ≡ false
      → s.committed ≡ s.session
      → Ends
          (λ _ s'. 1 ≤ length (actives r s'.committed.alerts))
          (λ _ _. ⊤)
          (evaluate_stock_level r s)
  evaluate-alerted r s c y same =
      Ends-map _ (evaluate-Reflected r s c) (λ o s' f. has_alert o s' f) (λ e s' f. tt)
    where
      has_alert :
          (o : Option Alert) (s' : World)
          → Reflected r s o s'
          → 1 ≤ length (actives r s'.committed.alerts)
      has_alert o s' f =
          let (a, is_a, _) = f.below y in
          rw (f.saved same) (
            length-keep_pos (active_of_pair r.product_id r.warehouse_id) s'.session.alerts a
              (f.active ∙ is_a))

  -- An evaluation of a pair whose level is at or below its threshold, and another one, whose session
  -- had read before that the pair has no active alert: where pairs have one active alert at most at
  -- first, and both return, the second has added a second active alert, and from then on every
  -- evaluation of the pair, at whatever level, raises MultipleResultsFound and commits nothing.
  pub evaluate_race :
      (r r' : Inventory) (s s' s'' : World) (o o' : Option Alert)
      → IsConsistent s.committed.alerts
      → is_above r ≡ false
      → with_session (evaluate_stock_level r) s ≡ (ok o, s')
      → with_session (alarm r none) s' ≡ (ok o', s'')
      → r'.product_id ≡ r.product_id
      → r'.warehouse_id ≡ r.warehouse_id
      → with_session (evaluate_stock_level r') s'' ≡ (err multiple_results, begin s'')
  unfolding with_session alarm
  evaluate_race r r' s s' s'' o o' c y e e' is_p is_w =
      ap close (evaluate-several r' (begin s'') (rw (is_p, is_w) (omega (arith, once, twice))))
    where
      once : 1 ≤ length (actives r s'.committed.alerts)
      once =
          Ends-at {Q = λ _ t. 1 ≤ length (actives r t.committed.alerts)} {E = λ _ _. ⊤}
            (with_session (evaluate_stock_level r) s) o s'
            (Ends-close _ (evaluate-alerted r (begin s) c y refl)) e

      twice : length (actives r s''.committed.alerts) ≡ suc (length (actives r s'.committed.alerts))
      twice =
          Ends-at
            {Q = λ _ t.
              length (actives r t.committed.alerts) ≡ suc (length (actives r s'.committed.alerts))}
            {E = λ _ _. ⊤} (with_session (alarm r none) s') o' s''
            (Ends-close _ (raise_alert-adds r (begin s'))) e'
