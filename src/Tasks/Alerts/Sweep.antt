-- ===== src/Tasks/Alerts/Sweep.antt =====
-- The sweep ends, counts each stock level once, and keeps the alerts consistent.
use inventory_management_api.Base.{
  ℕ, zero, suc, ◌+◌, ◌*◌, ◌≤◌, ◌-◌, ◌≡◌, refl, ◌∙◌, ap, sym, subst, ◌⊎◌, inl, inr, true, Option,
  none, some, List, [], ◌∷◌, arith, if◌then◌else◌, is_some,
}
use inventory_management_api.Base.Int.{pos}
use inventory_management_api.Base.Rows.{length, take, drop, length-perm}
use inventory_management_api.Base.Pages.{
  length-drop, length-take_full, length-take_all, length-keep_all, le_total,
}
use inventory_management_api.Errors.{Error, ok, integrity, data_error}
use inventory_management_api.Models.{Alert, Inventory, Tables}
use inventory_management_api.Session.{Env, Action, World, begin, with_session, select, ◌>>=◌}
use inventory_management_api.Session.Ends.{
  Ends, Ends-ok, Ends-bind, Ends-map, Ends-with, Ends-close,
}
use inventory_management_api.Repositories.Base.{list_all}
use inventory_management_api.Repositories.Inventories.{inventory_model}
use inventory_management_api.Repositories.Alerts.Update.{IsConsistent}
use inventory_management_api.Services.Alert.{evaluate_stock_level}
use inventory_management_api.Services.Alert.Frame.{OnlyAlerts, evaluate-OnlyAlerts}
use inventory_management_api.Services.Alert.Reflects.{evaluate-Reflected}
use inventory_management_api.Tasks.Alerts.{
  batch_size, Summary, sweep_batch, sweep_page, sweep_from, check_low_stock_levels,
}

module _ ⦃env : Env⦄ (t : Tables) where
  -- Between the steps of the sweep.
  pub record Swept (s : World) : Type 0 where
    pub consistent : IsConsistent s.session.alerts
    pub only : OnlyAlerts t s
    pub saved : s.committed ≡ s.session

  abbrev pub Cause : Error → World → Type 0
  Cause e s = (e ≡ integrity) ⊎ (e ≡ data_error)

  pub evaluate-Swept :
      (r : Inventory) (s : World)
      → Swept s
      → Ends (λ _ s'. Swept s') Cause (evaluate_stock_level r s)
  evaluate-Swept r s h =
      Ends-map _
        (Ends-with (OnlyAlerts t) _ (evaluate-Reflected r s h.consistent)
          ((evaluate-OnlyAlerts t r).at s h.only))
        (λ o s' k. record { consistent = k.0.consistent; only = k.1; saved = k.0.saved h.saved })
        (λ e s' k. k.0.cause)

  -- `n` stock levels more are evaluated.
  pub record Counted (n : ℕ) (before after : Summary) (s : World) : Type 0 where
    pub evaluated : after.evaluated ≡ before.evaluated + n
    pub active : after.alerts_active ≤ before.alerts_active + n
    pub swept : Swept s

  one_more :
      (o : Option Alert) (n : ℕ) (before after : Summary) (s : World)
      → Counted n
          (record {
            evaluated = before.evaluated + 1;
            alerts_active = if is_some o then before.alerts_active + 1 else before.alerts_active;
          })
          after
          s
      → Counted (suc n) before after s
  one_more none n before after s k = record {
    evaluated = omega (arith, k.evaluated);
    active = omega (arith, k.active);
    swept = k.swept;
  }
  one_more (some a) n before after s k = record {
    evaluated = omega (arith, k.evaluated);
    active = omega (arith, k.active);
    swept = k.swept;
  }

  sweep_batch-Counted :
      (rs : List Inventory) (counts : Summary) (s : World)
      → Swept s
      → Ends (Counted (length rs) counts) Cause (sweep_batch rs counts s)
  unfolding sweep_batch
  sweep_batch-Counted [] counts s h = record {
    outcome = record { evaluated = omega arith; active = omega arith; swept = h };
  }
  sweep_batch-Counted (r ∷ rs) counts s h =
      Ends-bind (λ _ s'. Swept s') _ _ s (evaluate-Swept r s h)
        (λ o s' k.
          Ends-map _ (sweep_batch-Counted rs _ s' k)
            (λ c s'' l. one_more o (length rs) counts c s'' l) (λ e s'' l. l))

  unfoldable pub stored : World → List Inventory
  stored s = select (λ _. true) s.session.inventories

  abbrev pub page_of : ℕ → World → List Inventory
  page_of skip s = take batch_size (drop skip (stored s))

  pub list_all_lem :
      (skip : ℕ) (s : World)
      → list_all inventory_model (pos skip) (pos batch_size) s ≡ (ok (page_of skip s), s)
  unfolding list_all ◌>>=◌ stored
  list_all_lem skip s = ground arith

  stored_length : (s : World) → Swept s → length (stored s) ≡ length t.inventories
  unfolding stored
  stored_length s h =
      length-perm (env.select_perm Inventory (λ _. true) s.session.inventories)
      ∙ length-keep_all s.session.inventories
      ∙ ap (λ (u : Tables). length u.inventories) h.only.session

  -- `skip` stock levels are evaluated, or all of them.
  abbrev Progress : (skip evaluated : ℕ) → Type 0
  Progress skip evaluated =
      ((evaluated ≡ skip) × (skip ≤ length t.inventories))
      ⊎ ((evaluated ≡ length t.inventories)
          × ((length t.inventories ≤ skip) × (skip + 1 ≤ length t.inventories + batch_size)))

  -- The length of a page: a full one, or what is left.
  abbrev PageLength : (skip n : ℕ) → Type 0
  PageLength skip n =
      ((n ≡ batch_size) × (skip + batch_size ≤ length t.inventories))
      ⊎ ((n ≡ length t.inventories - skip) × (length t.inventories ≤ skip + batch_size))

  page_length : (skip : ℕ) (s : World) → Swept s → PageLength skip (length (page_of skip s))
  page_length skip s h = elim (le_total (skip + batch_size) (length t.inventories)) [
    | inl y ↦
        inl (
          length-take_full batch_size (drop skip (stored s)) (omega (arith, left)),
          omega (arith, y),
        )
    | inr n ↦ inr (
      length-take_all batch_size (drop skip (stored s)) (omega (arith, left, n)) ∙ left,
      omega (arith, n),
    )
  ]
    where
      left : length (drop skip (stored s)) ≡ length t.inventories - skip
      left = length-drop skip (stored s) ∙ ap (λ n. n - skip) (stored_length s h)

  -- The sweep has ended, with all stock levels evaluated.
  pub record Done (o : Option Summary) (s : World) : Type 0 where
    pub counts : Summary
    pub result : o ≡ some counts
    pub evaluated : counts.evaluated ≡ length t.inventories
    pub active : counts.alerts_active ≤ counts.evaluated
    pub swept : Swept s

  round-Ends :
      (batch : List Inventory) (counts : Summary) (skip : ℕ)
      → (next : Summary → Action (Option Summary)) → (s : World) → Swept s
      → PageLength skip (length batch)
      → Progress skip counts.evaluated
      → counts.alerts_active ≤ counts.evaluated
      → ((c : Summary) (s' : World)
          → Swept s'
          → skip + 1 ≤ length t.inventories
          → Progress (skip + batch_size) c.evaluated
          → c.alerts_active ≤ c.evaluated
          → Ends Done Cause (next c s'))
      → Ends Done Cause (sweep_page batch counts next s)
  unfolding sweep_page
  round-Ends [] counts skip next s h l c a k = record {
    outcome = record {
      counts = counts;
      result = refl;
      evaluated = omega (arith, l, c);
      active = a;
      swept = h;
    };
  }
  round-Ends (r ∷ rs) counts skip next s h l c a k =
      Ends-bind (Counted (length (r ∷ rs)) counts) _ _ s (sweep_batch-Counted (r ∷ rs) counts s h)
        (λ c' s' d.
          k c' s' d.swept (omega (arith, l, c)) (further c' (length rs) l c d.evaluated)
            (omega (arith, d.evaluated, d.active)))
    where
      further :
          (c' : Summary) (n : ℕ)
          → PageLength skip (suc n)
          → Progress skip counts.evaluated
          → c'.evaluated ≡ counts.evaluated + suc n
          → Progress (skip + batch_size) c'.evaluated
      further c' n (inl l) c e = inl (omega (arith, l, c, e), omega (arith, l, c))
      further c' n (inr l) c e =
          inr (omega (arith, l, c, e), (omega (arith, l, c), omega (arith, l, c)))

  -- The loop, on enough fuel.
  sweep_from-Ends :
      (fuel skip : ℕ) (counts : Summary) (s : World)
      → Swept s
      → length t.inventories + batch_size ≤ skip + fuel * batch_size
      → Progress skip counts.evaluated
      → counts.alerts_active ≤ counts.evaluated
      → Ends Done Cause (sweep_from fuel skip counts s)
  unfolding sweep_from
  sweep_from-Ends zero skip counts s h f c a = absurd (omega (arith, f, c))
  sweep_from-Ends (suc fuel) skip counts s h f c a = Ends-ok _ _ s _ s (list_all_lem skip s) (
      round-Ends (page_of skip s) counts skip _ s h (page_length skip s h) c a
        (λ c' s' h' more c'' a'.
          sweep_from-Ends fuel (skip + batch_size) c' s' h' (omega (arith, f)) c'' a'))

module _ ⦃env : Env⦄ where
  Done-begin : (t : Tables) (o : Option Summary) (s : World) → Done t o s → Done t o (begin s)
  Done-begin t o s d = record {
    counts = d.counts;
    result = d.result;
    evaluated = d.evaluated;
    active = d.active;
    swept = record {
      consistent =
          subst (λ (u : Tables). IsConsistent u.alerts) (sym d.swept.saved) d.swept.consistent;
      only = record { session = d.swept.only.committed; committed = d.swept.only.committed };
      saved = refl;
    };
  }

  pub check_low_stock_levels-Done :
      (fuel : ℕ) (s : World)
      → IsConsistent s.committed.alerts
      → length s.committed.inventories + batch_size ≤ fuel * batch_size
      → Ends (Done s.committed) (Cause s.committed) (check_low_stock_levels fuel s)
  unfolding check_low_stock_levels with_session
  check_low_stock_levels-Done fuel s h f = Ends-close _ (
      Ends-map _
        (sweep_from-Ends s.committed fuel 0 (record { evaluated = 0; alerts_active = 0 }) (begin s)
          (record {
            consistent = h;
            only = record { session = refl; committed = refl };
            saved = refl;
          })
          (omega (arith, f)) (inl (refl, omega arith)) (omega arith))
        (λ o s' d. Done-begin s.committed o s' d) (λ e s' c. c))
