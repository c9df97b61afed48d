-- ===== src/Services/Command/Changes.antt =====
-- What a leg of a movement does to the inventory, and `_decrease_stock` as such a leg.
use inventory_management_api.Base.{
  ◌≡◌, refl, ◌∙◌, ap, Option, none, some, List, ◌∷◌, arith, inl, inr, Bool-cases, Option-cases,
}
use inventory_management_api.Base.Int.{ℤ, pos, ◌+ℤ◌, ◌-ℤ◌, ◌≤ℤ◌, ltb_ℤ, ltb_ℤ→le, int_laws}
use inventory_management_api.Base.Rows.{find?, found, count_rows, count_rows-keep, count_rows-perm}
use inventory_management_api.Errors.{ok, app, not_found, insufficient_stock}
use inventory_management_api.Models.{Uuid, Inventory, Tables, of_pair}
use inventory_management_api.Session.{Env, World, raise_if, ◌>>◌, ◌>>=◌, or_raise, select}
use inventory_management_api.Session.Ends.{
  Ends, Ends-ok, Ends-err, raise_if-raises, raise_if-passes, Uncommitted, Uncommitted-refl,
}
use inventory_management_api.Repositories.Base.{has_id}
use inventory_management_api.Repositories.Base.Lookup.{get_or_raise_missing, get_or_raise_found}
use inventory_management_api.Repositories.Catalog.{warehouse_model}
use inventory_management_api.Repositories.Inventories.{
  set_quantity, get_by_product_and_warehouse_for_update, flush_quantity,
}
use inventory_management_api.Stock.{stock, amount_at, IsStocked}
use inventory_management_api.Stock.Laws.{
  AtMost-of_pair, stock-set_quantity, IsStocked-set_quantity, find-set_quantity,
}
use inventory_management_api.Services.Command.{decrease_stock}

-- The stock of one pair has changed by `d`, the invariant holds, and no other table has changed.
pub record Changed (p w : Uuid) (d : ℤ) (t t' : Tables) : Type 0 where
  pub stocked : IsStocked t'.inventories
  pub level :
      (p' w' : Uuid)
      → stock t'.inventories p' w' ≡ stock t.inventories p' w' +ℤ amount_at p w d p' w'
  pub others : t' ≡ record t { inventories = t'.inventories }

module _ ⦃env : Env⦄ where
  abbrev pub locked : Option Inventory → List (Uuid × Uuid) → List (Uuid × Uuid)
  locked none l = l
  locked (some r) l = (r.product_id, r.warehouse_id) ∷ l

  one_row :
      (p w : Uuid) (rows : List Inventory)
      → IsStocked rows
      → count_rows (select (of_pair p w) rows) ≡ found (find? (of_pair p w) rows)
  one_row p w rows h =
      count_rows-perm (env.select_perm Inventory (of_pair p w) rows)
      ∙ count_rows-keep (of_pair p w) rows (AtMost-of_pair rows p w h.pairs)

  -- The locking query finds the record of the pair, and locks it if there is one.
  pub for_update_lem :
      (p w : Uuid) (s : World)
      → IsStocked s.session.inventories
      → get_by_product_and_warehouse_for_update p w s ≡ (
        ok (find? (of_pair p w) s.session.inventories),
        record s { locks = locked (find? (of_pair p w) s.session.inventories) s.locks },
      )
  unfolding get_by_product_and_warehouse_for_update ◌>>=◌
  for_update_lem p w s h = elim (Option-cases (find? (of_pair p w) s.session.inventories)) [
    | inl e ↦ ground (arith, one_row p w s.session.inventories h)
    | inr (x, e) ↦ ground (arith, one_row p w s.session.inventories h)
  ]

-- The outcome of a leg: its pair has changed by `d`, and the object that it returns is the row.
pub record Leg (p w : Uuid) (d : ℤ) (s : World) (r : Inventory) (s' : World) : Type 0 where
  pub changed : Changed p w d s.session s'.session
  pub uncommitted : Uncommitted s s'
  pub row : find? (of_pair p w) s'.session.inventories ≡ some r

pub Changed-refl : (p w : Uuid) (t : Tables) → IsStocked t.inventories → Changed p w (pos 0) t t
Changed-refl p w t h = record { stocked = h; level = λ p' w'. grind int_laws; others = refl }

module _ ⦃env : Env⦄ where
  -- The write that ends a leg, after reads and the creation of an empty record.
  pub flush-Leg :
      (p w : Uuid) (d : ℤ) (x : Inventory) (v : ℤ) (s₀ s : World)
      → Uncommitted s₀ s
      → Changed p w (pos 0) s₀.session s.session
      → find? (of_pair p w) s.session.inventories ≡ some x
      → pos 0 ≤ℤ v
      → v ≡ x.quantity +ℤ d
      → Ends (Leg p w d s₀) (λ e s'. Uncommitted s₀ s') (flush_quantity x v s)
  unfolding flush_quantity ◌>>=◌
  flush-Leg p w d x v s₀ s u c f n e = elim (Bool-cases (env.integer_fits v)) [
    | inl y ↦ rw y (record {
      outcome = record {
        changed = record {
          stocked = IsStocked-set_quantity x.id v s.session.inventories n c.stocked;
          level = λ p' w'. grind (
            int_laws,
            stock-set_quantity s.session.inventories p w x v p' w' c.stocked.ids f,
            c.level p' w',
          );
          others =
              ap
                (λ (t : Tables). record t {
                  inventories = set_quantity x.id v s.session.inventories;
                })
                c.others;
        };
        uncommitted = record {
          committed = u.committed;
          published = u.published;
          queued = u.queued;
        };
        row = find-set_quantity s.session.inventories p w x v c.stocked.ids f;
      };
    })
    | inr y ↦ rw y (record { outcome = u })
  ]

  -- A decrease that returns has lowered its pair; one that raises leaves the commit alone.
  pub decrease_stock-Leg :
      (p w : Uuid) (q : ℤ) (s : World)
      → IsStocked s.session.inventories
      → Ends (Leg p w (pos 0 -ℤ q) s) (λ e s'. Uncommitted s s') (decrease_stock p w q s)
  unfolding decrease_stock
  decrease_stock-Leg p w q s h =
      elim (Option-cases (find? (has_id warehouse_model w) s.session.warehouses)) [
        | inl e ↦
            Ends-err _ _ s _ s (get_or_raise_missing warehouse_model w s e) (Uncommitted-refl s)
        | inr (x, e) ↦ Ends-ok _ _ s x s (get_or_raise_found warehouse_model w s x e) (
            Ends-ok _ _ s _ _ (for_update_lem p w s h)
              (take_out (find? (of_pair p w) s.session.inventories) refl))
      ]
    where
      take_out :
          (o : Option Inventory)
          → find? (of_pair p w) s.session.inventories ≡ o
          → Ends
              (Leg p w (pos 0 -ℤ q) s)
              (λ e s'. Uncommitted s s')
              ((or_raise o (app not_found) >>= λ inventory.
                  raise_if (ltb_ℤ inventory.quantity q) (app insufficient_stock)
                  >> flush_quantity inventory (inventory.quantity -ℤ q))
                (record s { locks = locked o s.locks }))
      take_out none e =
          Ends-err _ _ _ _ _ refl (record { committed = refl; published = refl; queued = refl })
      take_out (some x) e = Ends-ok _ _ _ x _ refl (elim (Bool-cases (ltb_ℤ x.quantity q)) [
        | inl y ↦
            Ends-err _ _ _ _ _ (raise_if-raises _ _ _ y)
              (record { committed = refl; published = refl; queued = refl })
        | inr y ↦ Ends-ok _ _ _ _ _ (raise_if-passes _ _ _ y) (
            flush-Leg p w (pos 0 -ℤ q) x (x.quantity -ℤ q) s
              (record s { locks = locked (some x) s.locks })
              (record { committed = refl; published = refl; queued = refl })
              (Changed-refl p w s.session h) e (omega (int_laws, ltb_ℤ→le x.quantity q y))
              (omega int_laws))
      ])
