-- ===== src/Services/Command/LegLocks.antt =====
-- The row that each leg of a movement locks: its pair's, at its start, if there is one.
use inventory_management_api.Base.{
  ◌≡◌, refl, ◌∙◌, ◌⊎◌, inl, inr, Option, none, some, List, ◌∷◌, arith, Bool-cases, Option-cases,
}
use inventory_management_api.Base.Int.{ℤ}
use inventory_management_api.Base.Rows.{find?, find-holds}
use inventory_management_api.Errors.{Result}
use inventory_management_api.Models.{Uuid, Inventory, Tables, of_pair}
use inventory_management_api.Session.{Env, Action, World, uuid4, ◌>>=◌, ◌>>◌}
use inventory_management_api.Session.Ends.{Ends, Ends-ok, Ends-err, Ends-map, Ends-state}
use inventory_management_api.Session.Keeps.{Keeps, keeps_rules}
use inventory_management_api.Repositories.Base.{has_id, create, get_by_id_or_raise}
use inventory_management_api.Repositories.Base.Lookup.{
  get_or_raise_missing, get_or_raise_found, create-cases,
}
use inventory_management_api.Repositories.Catalog.{warehouse_model}
use inventory_management_api.Repositories.Inventories.{
  inventory_model, flush_quantity, get_by_product_and_warehouse_for_update,
}
use inventory_management_api.Stock.{IsStocked}
use inventory_management_api.Services.Command.{found_or_new, increase_stock, decrease_stock}
use inventory_management_api.Services.Command.Changes.{for_update_lem, locked}

-- The pair has no row.
abbrev pub HasNoRow : Tables → Uuid × Uuid → Type 0
HasNoRow t k = find? (of_pair k.0 k.1) t.inventories ≡ none

-- It has none, or its warehouse is not there.
abbrev pub IsMissing : ⦃env : Env⦄ → Tables → Uuid × Uuid → Type 0
IsMissing t k = HasNoRow t k ⊎ (find? (has_id warehouse_model k.1) t.warehouses ≡ none)

-- A pair is locked, or is not, for a reason.
abbrev pub Took : (S : Uuid × Uuid → Type 0) (k : Uuid × Uuid) (l l' : List (Uuid × Uuid)) → Type 0
Took S k l l' = (S k × (l' ≡ l)) ⊎ (l' ≡ k ∷ l)

-- A leg that returns has locked its pair's row, unless it had none; one that raises too, unless its
-- warehouse is missing.
abbrev pub OneLock : ⦃env : Env⦄ {A : Type 0} (p w : Uuid) (s : World) → Result A × World → Type 0
OneLock p w s r =
    Ends (λ _ s'. Took (HasNoRow s.session) (p, w) s.locks s'.locks)
      (λ _ s'. Took (IsMissing s.session) (p, w) s.locks s'.locks) r

module _ ⦃env : Env⦄ where
  uuid4-Keeps : (l : List (Uuid × Uuid)) → Keeps (λ s. s.locks ≡ l) uuid4
  uuid4-Keeps l = record { at = λ s h. h }

  create-Keeps :
      (l : List (Uuid × Uuid)) (r : Inventory) → Keeps (λ s. s.locks ≡ l) (create inventory_model r)
  create-Keeps l r = record {
    at = λ s h. elim (create-cases inventory_model r s) [
      | inl (made, n) ↦ rw made h
      | inr (x, failed, _) ↦ rw failed h
    ];
  }

  flush-Keeps :
      (l : List (Uuid × Uuid)) (r : Inventory) (v : ℤ)
      → Keeps (λ s. s.locks ≡ l) (flush_quantity r v)
  unfolding flush_quantity ◌>>=◌
  flush-Keeps l r v = record {
    at = λ s h. elim (Bool-cases (env.integer_fits v)) [ inl y ↦ rw y h | inr n ↦ rw n h ];
  }

  found_or_new-Keeps :
      (l : List (Uuid × Uuid)) (p w : Uuid) (o : Option Inventory)
      → Keeps (λ s. s.locks ≡ l) (found_or_new p w o)
  unfolding found_or_new
  found_or_new-Keeps l p w none = search (keeps_rules, uuid4-Keeps, create-Keeps)
  found_or_new-Keeps l p w (some r) = search keeps_rules

  -- The locking query, at the start of a leg, is the only step that locks.
  locks_of_leg :
      (p w : Uuid) (rest : Option Inventory → Action Inventory) (s : World)
      → IsStocked s.session.inventories
      → ((l : List (Uuid × Uuid)) (o : Option Inventory) → Keeps (λ s. s.locks ≡ l) (rest o))
      → OneLock p w s (
          (do
            get_by_id_or_raise warehouse_model w
            existing ← get_by_product_and_warehouse_for_update p w
            rest existing)
            s)
  locks_of_leg p w rest s h k =
      elim (Option-cases (find? (has_id warehouse_model w) s.session.warehouses)) [
        | inl e ↦
            Ends-err _ _ s _ s (get_or_raise_missing warehouse_model w s e) (inl (inr e, refl))
        | inr (x, e) ↦ Ends-ok _ _ s x s (get_or_raise_found warehouse_model w s x e) (
            Ends-ok _ _ s _ _ (for_update_lem p w s h) (
              Ends-map _
                (Ends-state (λ s'. Took (HasNoRow s.session) (p, w) s.locks s'.locks) _
                  (behind (find? (of_pair p w) s.session.inventories) refl))
                (λ _ s' t. t) (λ _ s' t. excused s' t)))
      ]
    where
      excused :
          (s' : World)
          → Took (HasNoRow s.session) (p, w) s.locks s'.locks
          → Took (IsMissing s.session) (p, w) s.locks s'.locks
      excused s' (inl (n, e)) = inl (inl n, e)
      excused s' (inr e) = inr e

      behind :
          (o : Option Inventory)
          → find? (of_pair p w) s.session.inventories ≡ o
          → Took
              (HasNoRow s.session)
              (p, w)
              s.locks
              (rest o (record s { locks = locked o s.locks })).1.locks
      behind none e = inl (e, (k s.locks none).at s refl)
      behind (some r) e =
          inr ((k ((r.product_id, r.warehouse_id) ∷ s.locks) (some r)).at _ refl ∙ rw (is_p, is_w))
        where
          is_p : r.product_id ≡ p
          is_p = ground (arith, find-holds (of_pair p w) s.session.inventories r e)

          is_w : r.warehouse_id ≡ w
          is_w = ground (arith, find-holds (of_pair p w) s.session.inventories r e)

  pub increase-OneLock :
      (p w : Uuid) (q : ℤ) (s : World)
      → IsStocked s.session.inventories
      → OneLock p w s (increase_stock p w q s)
  unfolding increase_stock
  increase-OneLock p w q s h =
      locks_of_leg p w _ s h (λ l o. search (keeps_rules, found_or_new-Keeps, flush-Keeps))

  pub decrease-OneLock :
      (p w : Uuid) (q : ℤ) (s : World)
      → IsStocked s.session.inventories
      → OneLock p w s (decrease_stock p w q s)
  unfolding decrease_stock
  decrease-OneLock p w q s h = locks_of_leg p w _ s h (λ l o. search (keeps_rules, flush-Keeps))
