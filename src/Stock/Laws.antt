-- ===== src/Stock/Laws.antt =====
-- How the updates of the inventory rows act on the stock and on its invariant.
use inventory_management_api.Base.{
  ◌≡◌, refl, ◌∙◌, true, false, some, List, [], ◌∷◌, ◌==◌, arith, inl, inr, Bool-cases,
}
use inventory_management_api.Base.Int.{ℤ, pos, ◌+ℤ◌, ◌≤ℤ◌, int_laws}
use inventory_management_api.Base.Rows.{All, Distinct, AtMost, any, find?}
use inventory_management_api.Models.{Uuid, Inventory, of_pair}
use inventory_management_api.Repositories.Inventories.{set_quantity}
use inventory_management_api.Stock.{stock, amount_at, same_id, same_pair, IsStocked}

pub AtMost-of_pair :
    (rows : List Inventory) (p w : Uuid) → Distinct same_pair rows → AtMost (of_pair p w) rows
AtMost-of_pair [] p w h = tt
AtMost-of_pair (r ∷ rs) p w h = (same r rs p w h.0, AtMost-of_pair rs p w h.1)
  where
    same :
        (x : Inventory) (xs : List Inventory) (p w : Uuid)
        → any (same_pair x) xs ≡ false
        → of_pair p w x ≡ true
        → any (of_pair p w) xs ≡ false
    same x [] p w g e = refl
    same x (y ∷ ys) p w g e = ground (arith, same x ys p w)

-- A record whose id is not among the rows is not among them.
find_other_id :
    (rows : List Inventory) (p w i : Uuid) (x : Inventory)
    → find? (of_pair p w) rows ≡ some x
    → any (λ (r : Inventory). r.id == i) rows ≡ false
    → (i == x.id) ≡ false
find_other_id [] p w i x e h = cc
find_other_id (r ∷ rs) p w i x e h = ground (arith, find_other_id rs p w i x)

set_quantity_other :
    (rows : List Inventory) (i : Uuid) (v : ℤ)
    → any (λ (r : Inventory). r.id == i) rows ≡ false
    → set_quantity i v rows ≡ rows
set_quantity_other [] i v h = refl
set_quantity_other (r ∷ rs) i v h = ground (arith, set_quantity_other rs i v)

-- Writing `v` into the record of a pair moves the stock of that pair from the old level to `v`.
pub stock-set_quantity :
    (rows : List Inventory) (p w : Uuid) (x : Inventory) (v : ℤ) (p' w' : Uuid)
    → Distinct same_id rows
    → find? (of_pair p w) rows ≡ some x
    → stock (set_quantity x.id v rows) p' w' +ℤ amount_at p w x.quantity p' w'
      ≡ stock rows p' w' +ℤ amount_at p w v p' w'
unfolding stock
stock-set_quantity [] p w x v p' w' d e = cc
stock-set_quantity (r ∷ rs) p w x v p' w' d e = elim (Bool-cases (of_pair p w r)) [
  | inl m ↦ grind (int_laws, set_quantity_other rs r.id v d.0)
  | inr n ↦ grind (int_laws, stock-set_quantity rs p w x v p' w' d.1, find_other_id rs p w r.id x)
]

module _ (i : Uuid) (v : ℤ) where
  any-set_quantity_id :
      (rows : List Inventory) (x : Inventory)
      → any (same_id x) (set_quantity i v rows) ≡ any (same_id x) rows
  any-set_quantity_id [] x = refl
  any-set_quantity_id (r ∷ rs) x = ground (arith, any-set_quantity_id rs x)

  any-set_quantity_pair :
      (rows : List Inventory) (p w : Uuid)
      → any (of_pair p w) (set_quantity i v rows) ≡ any (of_pair p w) rows
  any-set_quantity_pair [] p w = refl
  any-set_quantity_pair (r ∷ rs) p w = ground (arith, any-set_quantity_pair rs p w)

  All-set_quantity :
      (rows : List Inventory)
      → pos 0 ≤ℤ v
      → All (λ (r : Inventory). pos 0 ≤ℤ r.quantity) rows
      → All (λ (r : Inventory). pos 0 ≤ℤ r.quantity) (set_quantity i v rows)
  All-set_quantity [] h a = tt
  All-set_quantity (r ∷ rs) h a = elim (Bool-cases (r.id == i)) [
    | inl e ↦ rw e (h, All-set_quantity rs h a.1)
    | inr e ↦ rw e (a.0, All-set_quantity rs h a.1)
  ]

  Distinct-set_quantity_id :
      (rows : List Inventory) → Distinct same_id rows → Distinct same_id (set_quantity i v rows)
  Distinct-set_quantity_id [] d = tt
  Distinct-set_quantity_id (r ∷ rs) d = elim (Bool-cases (r.id == i)) [
    | inl e ↦ rw e (any-set_quantity_id rs r ∙ d.0, Distinct-set_quantity_id rs d.1)
    | inr e ↦ rw e (any-set_quantity_id rs r ∙ d.0, Distinct-set_quantity_id rs d.1)
  ]

  Distinct-set_quantity_pair :
      (rows : List Inventory) → Distinct same_pair rows → Distinct same_pair (set_quantity i v rows)
  Distinct-set_quantity_pair [] d = tt
  Distinct-set_quantity_pair (r ∷ rs) d = elim (Bool-cases (r.id == i)) [
    | inl e ↦ rw e (
      any-set_quantity_pair rs r.product_id r.warehouse_id ∙ d.0,
      Distinct-set_quantity_pair rs d.1,
    )
    | inr e ↦ rw e (
      any-set_quantity_pair rs r.product_id r.warehouse_id ∙ d.0,
      Distinct-set_quantity_pair rs d.1,
    )
  ]

  -- Writing a level that is not negative keeps the invariant.
  pub IsStocked-set_quantity :
      (rows : List Inventory) → pos 0 ≤ℤ v → IsStocked rows → IsStocked (set_quantity i v rows)
  IsStocked-set_quantity rows h k = record {
    nonneg = All-set_quantity rows h k.nonneg;
    ids = Distinct-set_quantity_id rows k.ids;
    pairs = Distinct-set_quantity_pair rows k.pairs;
  }

-- A record that is found keeps being found, with its new quantity.
pub find-set_quantity :
    (rows : List Inventory) (p w : Uuid) (x : Inventory) (v : ℤ)
    → Distinct same_id rows
    → find? (of_pair p w) rows ≡ some x
    → find? (of_pair p w) (set_quantity x.id v rows) ≡ some (record x { quantity = v })
find-set_quantity [] p w x v d e = cc
find-set_quantity (r ∷ rs) p w x v d e = elim (Bool-cases (of_pair p w r)) [
  | inl m ↦ ground arith
  | inr n ↦ ground (arith, find-set_quantity rs p w x v d.1, find_other_id rs p w r.id x)
]

-- Without a record the stock is zero.
pub stock-eq-zero :
    (rows : List Inventory) (p w : Uuid) → any (of_pair p w) rows ≡ false → stock rows p w ≡ pos 0
unfolding stock
stock-eq-zero [] p w h = refl
stock-eq-zero (r ∷ rs) p w h = grind (int_laws, stock-eq-zero rs p w)

-- With one record for each pair, its quantity is the stock.
pub stock-eq-quantity :
    (rows : List Inventory) (p w : Uuid) (x : Inventory)
    → Distinct same_pair rows
    → find? (of_pair p w) rows ≡ some x
    → stock rows p w ≡ x.quantity
unfolding stock
stock-eq-quantity [] p w x d e = cc
stock-eq-quantity (r ∷ rs) p w x d e = elim (Bool-cases (of_pair p w r)) [
  | inl m ↦ grind (int_laws, stock-eq-zero rs p w, AtMost-of_pair (r ∷ rs) p w d)
  | inr n ↦ grind (int_laws, stock-eq-quantity rs p w x d.1)
]
