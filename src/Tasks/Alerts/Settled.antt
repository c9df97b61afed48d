-- ===== src/Tasks/Alerts/Settled.antt =====
-- The sweep evaluates every stock level.
use mathlib.Core.List.Permᴰ
use inventory_management_api.Base.{
  ℕ, zero, suc, ◌+◌, ◌*◌, ◌≤◌, ◌≡◌, refl, ◌∙◌, ap, sym, subst, true, false, Option, none, some,
  List, [], ◌∷◌, arith,
}
use inventory_management_api.Base.Rows.{All, Distinct, any, length, take, drop}
use inventory_management_api.Base.Pages.{All-perm}
use inventory_management_api.Base.Apart.{keep_all, or_left, or_right, Distinct-perm}
use inventory_management_api.Models.{Alert, Inventory, Tables}
use inventory_management_api.Session.{Env, Action, World, begin, with_session}
use inventory_management_api.Session.Ends.{Ends, Ends-ok, Ends-bind, Ends-map, Ends-and, Ends-close}
use inventory_management_api.Stock.{same_pair}
use inventory_management_api.Repositories.Alerts.Update.{IsConsistent}
use inventory_management_api.Services.Alert.{is_above, alert_type_of, evaluate_stock_level}
use inventory_management_api.Services.Alert.Outcome.{active_alert, Reflected}
use inventory_management_api.Services.Alert.Reflects.{evaluate-Reflected}
use inventory_management_api.Tasks.Alerts.{
  batch_size, Summary, sweep_batch, sweep_page, sweep_from, check_low_stock_levels,
}
use inventory_management_api.Tasks.Alerts.Sweep.{
  Swept, Cause, Done, evaluate-Swept, stored, list_all_lem, check_low_stock_levels-Done,
}

-- The alerts say of a stock level what an evaluation makes of it: none is active if it is above its
-- threshold, and one of its kind is active if not.
pub record Settled ⦃env : Env⦄ (alerts : List Alert) (r : Inventory) : Type 0 where
  pub above : is_above r ≡ true → active_alert r alerts ≡ none
  pub below :
      is_above r ≡ false
      → (a : Alert) × (active_alert r alerts ≡ some a) × (a.alert_type ≡ alert_type_of r)

same_pair_sym : (x y : Inventory) → same_pair x y ≡ false → same_pair y x ≡ false
same_pair_sym x y h = ground (arith, h)

module _ ⦃env : Env⦄ where
  Settled-Reflected :
      (r : Inventory) (s : World) (o : Option Alert) (s' : World)
      → Reflected r s o s'
      → Settled s'.session.alerts r
  Settled-Reflected r s o s' h = record {
    above = λ y. h.active ∙ h.above y;
    below = λ n. let (a, e, k) = h.below n in (a, h.active ∙ e, k);
  }

  Settled-other :
      (r x : Inventory) (s : World) (o : Option Alert) (s' : World)
      → Reflected r s o s'
      → same_pair x r ≡ false
      → Settled s.session.alerts x
      → Settled s'.session.alerts x
  Settled-other r x s o s' h n k = record {
    above = λ y. h.others x.product_id x.warehouse_id n ∙ k.above y;
    below = λ b. let (a, e, l) = k.below b in (a, h.others x.product_id x.warehouse_id n ∙ e, l);
  }

  Settled-others :
      (r : Inventory) (rest done : List Inventory) (s : World) (o : Option Alert) (s' : World)
      → Reflected r s o s'
      → All (λ x. any (same_pair x) (r ∷ rest) ≡ false) done
      → All (Settled s.session.alerts) done
      → All (Settled s'.session.alerts) done
        × All (λ (x : Inventory). any (same_pair x) rest ≡ false) done
  Settled-others r rest [] s o s' h apart k = (tt, tt)
  Settled-others r rest (x ∷ xs) s o s' h (n, apart) (k, ks) =
      let (settled, left) = Settled-others r rest xs s o s' h apart ks in
      (
        (
          Settled-other r x s o s' h (or_left (same_pair x r) (any (same_pair x) rest) n) k,
          settled,
        ),
        (or_right (same_pair x r) (any (same_pair x) rest) n, left),
      )

module _ ⦃env : Env⦄ (t : Tables) (all : List Inventory) where
  -- Some stock levels are settled, and the others are to do.
  record Covered (todo : List Inventory) (s : World) : Type 0 where
    swept : Swept t s
    done : List Inventory
    settled : All (Settled s.session.alerts) done
    apart : All (λ x. any (same_pair x) todo ≡ false) done
    distinct : Distinct same_pair todo
    back :
        (alerts : List Alert)
        → All (Settled alerts) done
        → All (Settled alerts) todo
        → All (Settled alerts) all

  evaluate-Covered :
      (r : Inventory) (rest : List Inventory) (s : World)
      → Covered (r ∷ rest) s
      → Ends (λ _ s'. Covered rest s') (Cause t) (evaluate_stock_level r s)
  evaluate-Covered r rest s h =
      Ends-map _
        (Ends-and _ (evaluate-Swept t r s h.swept) (evaluate-Reflected r s h.swept.consistent))
        (λ o s' k.
          let (settled, left) = Settled-others r rest h.done s o s' k.1 h.apart h.settled in
          record {
            swept = k.0;
            done = r ∷ h.done;
            settled = (Settled-Reflected r s o s' k.1, settled);
            apart = (h.distinct.0, left);
            distinct = h.distinct.1;
            back = λ alerts d todo. h.back alerts d.1 (d.0, todo);
          })
        (λ e s' k. k.0)

  sweep_batch-Covered :
      (n : ℕ) (todo : List Inventory) (counts : Summary) (s : World)
      → Covered todo s
      → Ends (λ _ s'. Covered (drop n todo) s') (Cause t) (sweep_batch (take n todo) counts s)
  unfolding sweep_batch
  sweep_batch-Covered zero todo counts s h = record { outcome = h }
  sweep_batch-Covered (suc n) [] counts s h = record { outcome = h }
  sweep_batch-Covered (suc n) (r ∷ rest) counts s h =
      Ends-bind (λ _ s'. Covered rest s') _ _ s (evaluate-Covered r rest s h)
        (λ o s' k. sweep_batch-Covered n rest _ s' k)

  -- What a sweep that ends leaves.
  abbrev Ended : Option Summary → World → Type 0
  Ended o s = (counts : Summary) → o ≡ some counts → All (Settled s.session.alerts) all × Swept t s

  page-Covered :
      (todo batch : List Inventory) (counts : Summary) (s : World)
      → (next : Summary → Action (Option Summary)) → batch ≡ take batch_size todo
      → Covered todo s
      → ((c : Summary) (s' : World)
          → Covered (drop batch_size todo) s'
          → Ends Ended (Cause t) (next c s'))
      → Ends Ended (Cause t) (sweep_page batch counts next s)
  unfolding sweep_page
  page-Covered [] [] counts s next e h k = record {
    outcome = λ c q. (h.back s.session.alerts h.settled tt, h.swept);
  }
  page-Covered (x ∷ xs) [] counts s next e h k = absurd (cc e)
  page-Covered todo (r ∷ rs) counts s next e h k =
      Ends-bind (λ _ s'. Covered (drop batch_size todo) s') _ _ s
        (subst
          (λ b. Ends (λ _ s'. Covered (drop batch_size todo) s') (Cause t) (sweep_batch b counts s))
          (sym e) (sweep_batch-Covered batch_size todo counts s h))
        (λ c s' d. k c s' d)

drop_nil : {A : Type 0} (n : ℕ) → drop {A = A} n [] ≡ []
drop_nil zero = refl
drop_nil (suc n) = refl

drop_same : {A : Type 0} (m n : ℕ) (xs : List A) → m ≡ n → drop m xs ≡ drop n xs
drop_same m n xs e = ap (λ k. drop k xs) e

drop-drop : {A : Type 0} (m n : ℕ) (xs : List A) → drop n (drop m xs) ≡ drop (m + n) xs
drop-drop zero n xs = ap (λ k. drop k xs) (omega arith)
drop-drop (suc m) n [] = drop_nil n ∙ sym (drop_nil (suc m + n))
drop-drop (suc m) n (x ∷ xs) =
    drop-drop m n xs ∙ drop_same (suc (m + n)) (suc m + n) (x ∷ xs) (omega arith)

module _ ⦃env : Env⦄ (t : Tables) where
  same_stored : (s s' : World) → Swept t s → Swept t s' → stored t s' ≡ stored t s
  unfolding stored
  same_stored s s' h h' =
      ap (λ (u : Tables). env.select Inventory (λ _. true) u.inventories) (h'.only.session)
      ∙ sym (ap (λ (u : Tables). env.select Inventory (λ _. true) u.inventories) (h.only.session))

  sweep_from-Ended :
      (fuel skip : ℕ) (counts : Summary) (s₀ s : World)
      → Swept t s₀
      → Covered t (stored t s₀) (drop skip (stored t s₀)) s
      → Ends (Ended t (stored t s₀)) (Cause t) (sweep_from fuel skip counts s)
  unfolding sweep_from
  sweep_from-Ended zero skip counts s₀ s h₀ h = record { outcome = λ c q. absurd (cc q) }
  sweep_from-Ended (suc fuel) skip counts s₀ s h₀ h = Ends-ok _ _ s _ s (list_all_lem t skip s) (
      page-Covered t (stored t s₀) (drop skip (stored t s₀)) _ counts s _
        (ap (λ xs. take batch_size (drop skip xs)) (same_stored s₀ s h₀ h.swept)) h
        (λ c s' k. sweep_from-Ended fuel (skip + batch_size) c s₀ s' h₀ (
          subst (λ todo. Covered t (stored t s₀) todo s') (drop-drop skip batch_size (stored t s₀))
            k)))

module _ ⦃env : Env⦄ where
  begin-Swept : (s : World) → IsConsistent s.committed.alerts → Swept s.committed (begin s)
  begin-Swept s h = record {
    consistent = h;
    only = record { session = refl; committed = refl };
    saved = refl;
  }

  stored-distinct :
      (s : World)
      → Distinct same_pair s.committed.inventories
      → Distinct same_pair (stored s.committed (begin s))
  unfolding stored
  stored-distinct s h =
      Distinct-perm same_pair same_pair_sym
        (env.select_perm Inventory (λ _. true) s.committed.inventories)
        (subst (Distinct same_pair) (sym (keep_all s.committed.inventories)) h)

  -- All rows that the pages give are all rows.
  stored-All :
      (P : Inventory → Type 0) (s : World)
      → All P (stored s.committed (begin s))
      → All P s.committed.inventories
  unfolding stored
  stored-All P s h =
      subst (All P) (keep_all s.committed.inventories)
        (All-perm P (Permᴰ.symm (env.select_perm Inventory (λ _. true) s.committed.inventories)) h)

  -- The sweep is done, and the alerts that are committed say of every stock level what an evaluation
  -- makes of it.
  pub record Evaluated (t : Tables) (o : Option Summary) (s : World) : Type 0 where
    pub done : Done t o s
    pub settled : All (Settled s.committed.alerts) t.inventories

  -- Where each pair has one stock level and one active alert at most, and all pages of the sweep read
  -- the stock levels in one order, a sweep on fuel for one round more than the stock levels fill ends,
  -- or raises because an alert meets a constraint or a value is out of range. If it ends, every stock
  -- level is evaluated: its pair has no active alert if it is above its threshold, and one of its kind
  -- if not. The sweep counts as many as there are, and no more active alerts than that; it has changed
  -- no table but the alerts, all is committed, and each pair has one active alert at most.
  pub check_low_stock_levels_outcome :
      (fuel : ℕ) (s : World)
      → IsConsistent s.committed.alerts
      → Distinct same_pair s.committed.inventories
      → length s.committed.inventories + batch_size ≤ fuel * batch_size
      → Ends (Evaluated s.committed) (Cause s.committed) (check_low_stock_levels fuel s)
  unfolding check_low_stock_levels with_session
  check_low_stock_levels_outcome fuel s h pairs f =
      Ends-map _ (Ends-and _ (check_low_stock_levels-Done fuel s h f) everywhere)
        (λ o s' k. record { done = k.0; settled = k.1 k.0.counts k.0.result }) (λ e s' k. k.0)
    where
      Everywhere : Option Summary → World → Type 0
      Everywhere o s' =
          (counts : Summary)
          → o ≡ some counts
          → All (Settled s'.committed.alerts) s.committed.inventories

      settled :
          Ends
            (λ o s'. Everywhere o (begin s'))
            (Cause s.committed)
            (sweep_from fuel 0 (record { evaluated = 0; alerts_active = 0 }) (begin s))
      settled =
          Ends-map _
            (sweep_from-Ended s.committed fuel 0 _ (begin s) (begin s) (begin-Swept s h) (record {
              swept = begin-Swept s h;
              done = [];
              settled = tt;
              apart = tt;
              distinct = stored-distinct s pairs;
              back = λ alerts d todo. todo;
            }))
            (λ o s' k c q.
              let (every, swept) = k c q in
              stored-All _ s (
                subst (λ (u : Tables). All (Settled u.alerts) (stored s.committed (begin s)))
                  (sym swept.saved) every))
            (λ e s' c. c)

      everywhere : Ends Everywhere (Cause s.committed) (check_low_stock_levels fuel s)
      everywhere = Ends-close _ settled
