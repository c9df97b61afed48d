-- ===== src/Services/Command/RowsStay.antt =====
-- No leg of a movement removes the row of a pair.
use inventory_management_api.Base.{
  ◌≡◌, refl, ◌∙◌, ap, inl, inr, Bool, true, false, Option, none, some, List, [], ◌∷◌, if◌then◌else◌,
  ◌==◌, is_some, Bool-cases, Option-cases,
}
use inventory_management_api.Base.Int.{ℤ}
use inventory_management_api.Base.Rows.{find?}
use inventory_management_api.Models.{Uuid, Inventory, of_pair}
use inventory_management_api.Session.{Env, Action, World, uuid4, ◌>>=◌}
use inventory_management_api.Session.Keeps.{Keeps, keeps_rules}
use inventory_management_api.Repositories.Base.{create, get_by_id_or_raise}
use inventory_management_api.Repositories.Base.Lookup.{create-cases}
use inventory_management_api.Repositories.Catalog.{warehouse_model}
use inventory_management_api.Repositories.Inventories.{
  inventory_model, set_quantity, flush_quantity, lock_found,
  get_by_product_and_warehouse_for_update,
}
use inventory_management_api.Services.Command.{found_or_new, increase_stock, decrease_stock}

abbrev pub HasRow : (p w : Uuid) → World → Type 0
HasRow p w s = is_some (find? (of_pair p w) s.session.inventories) ≡ true

find-cons :
    (f : Inventory → Bool) (r r' : Inventory) (rs rs' : List Inventory)
    → f r' ≡ f r
    → is_some (find? f rs') ≡ is_some (find? f rs)
    → is_some (find? f (r' ∷ rs')) ≡ is_some (find? f (r ∷ rs))
find-cons f r r' rs rs' e h = elim (Bool-cases (f r)) [
  | inl y ↦ rw (e, y) refl
  | inr n ↦ rw (e, n) h
]

find-set_quantity :
    (p w i : Uuid) (v : ℤ) (rs : List Inventory)
    → is_some (find? (of_pair p w) (set_quantity i v rs)) ≡ is_some (find? (of_pair p w) rs)
find-set_quantity p w i v [] = refl
find-set_quantity p w i v (r ∷ rs) =
    find-cons (of_pair p w) r _ rs (set_quantity i v rs) (same (r.id == i))
      (find-set_quantity p w i v rs)
  where
    same : (b : Bool) → of_pair p w (if b then record r { quantity = v } else r) ≡ of_pair p w r
    same true = refl
    same false = refl

find-more :
    (f : Inventory → Bool) (r : Inventory) (rs : List Inventory)
    → is_some (find? f rs) ≡ true
    → is_some (find? f (r ∷ rs)) ≡ true
find-more f r rs h = elim (Bool-cases (f r)) [ inl y ↦ rw y refl | inr n ↦ rw n h ]

module _ ⦃env : Env⦄ where
  create-HasRow : (p w : Uuid) (r : Inventory) → Keeps (HasRow p w) (create inventory_model r)
  create-HasRow p w r = record {
    at = λ s h. elim (create-cases inventory_model r s) [
      | inl (made, n) ↦ rw made (find-more (of_pair p w) r s.session.inventories h)
      | inr (x, failed, _) ↦ rw failed h
    ];
  }

  flush-HasRow : (p w : Uuid) (r : Inventory) (v : ℤ) → Keeps (HasRow p w) (flush_quantity r v)
  unfolding flush_quantity ◌>>=◌
  flush-HasRow p w r v = record {
    at = λ s h. elim (Bool-cases (env.integer_fits v)) [
      | inl y ↦ rw y (find-set_quantity p w r.id v s.session.inventories ∙ h)
      | inr n ↦ rw n h
    ];
  }

  lock_found-HasRow : (p w : Uuid) (o : Option Inventory) → Keeps (HasRow p w) (lock_found o)
  lock_found-HasRow p w none = record { at = λ s h. h }
  lock_found-HasRow p w (some r) = record { at = λ s h. h }

  for_update-HasRow :
      (p w p' w' : Uuid) → Keeps (HasRow p w) (get_by_product_and_warehouse_for_update p' w')
  unfolding get_by_product_and_warehouse_for_update
  for_update-HasRow p w p' w' = search (keeps_rules, lock_found-HasRow)

  uuid4-HasRow : (p w : Uuid) → Keeps (HasRow p w) uuid4
  uuid4-HasRow p w = record { at = λ s h. h }

  found_or_new-HasRow :
      (p w p' w' : Uuid) (o : Option Inventory) → Keeps (HasRow p w) (found_or_new p' w' o)
  unfolding found_or_new
  found_or_new-HasRow p w p' w' none = search (keeps_rules, uuid4-HasRow, create-HasRow)
  found_or_new-HasRow p w p' w' (some r) = search keeps_rules

  get-HasRow : (p w i : Uuid) → Keeps (HasRow p w) (get_by_id_or_raise warehouse_model i)
  unfolding get_by_id_or_raise
  get-HasRow p w i = search keeps_rules

  pub increase-HasRow : (p w p' w' : Uuid) (q : ℤ) → Keeps (HasRow p w) (increase_stock p' w' q)
  unfolding increase_stock
  increase-HasRow p w p' w' q =
      search (keeps_rules, get-HasRow, for_update-HasRow, found_or_new-HasRow, flush-HasRow)

  pub decrease-HasRow : (p w p' w' : Uuid) (q : ℤ) → Keeps (HasRow p w) (decrease_stock p' w' q)
  unfolding decrease_stock
  decrease-HasRow p w p' w' q = search (keeps_rules, get-HasRow, for_update-HasRow, flush-HasRow)

-- So a pair that has no row after a step had none before it.
pub no_row_before :
    {A : Type 0} (p w : Uuid) (act : Action A) (s : World)
    → Keeps (HasRow p w) act
    → find? (of_pair p w) (act s).1.session.inventories ≡ none
    → find? (of_pair p w) s.session.inventories ≡ none
no_row_before p w act s k h = elim (Option-cases (find? (of_pair p w) s.session.inventories)) [
  | inl e ↦ e
  | inr (r, e) ↦ absurd (cc (k.at s (ap is_some e), ap is_some h))
]
