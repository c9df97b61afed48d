-- ===== src/Stock.antt =====
-- The abstract view of the inventory: how much of a product a warehouse holds, as a function. It
-- forgets which rows there are, their ids and their order.
pub mod Laws
pub mod Ledger
use inventory_management_api.Base.{
  Bool, ◌≡◌, ◌&&◌, Option, none, some, List, [], ◌∷◌, ◌==◌, if◌then◌else◌,
}
use inventory_management_api.Base.Int.{ℤ, pos, ◌+ℤ◌, ◌-ℤ◌, ◌≤ℤ◌}
use inventory_management_api.Base.Rows.{All, Distinct}
use inventory_management_api.Models.{Uuid, Inventory, Movement, Tables, of_pair}

-- The quantity of a product in a warehouse, zero where there is no record.
unfoldable pub stock : List Inventory → Uuid → Uuid → ℤ
stock [] p w = pos 0
stock (r ∷ rs) p w = let rest = stock rs p w in if of_pair p w r then r.quantity +ℤ rest else rest

-- An amount at one product and warehouse, and zero elsewhere.
abbrev pub amount_at : Uuid → Uuid → ℤ → Uuid → Uuid → ℤ
amount_at p w d p' w' = if p == p' && w == w' then d else pos 0

-- An amount at a warehouse that may not be given.
abbrev pub amount_at? : Uuid → Option Uuid → ℤ → Uuid → Uuid → ℤ
amount_at? p none d p' w' = pos 0
amount_at? p (some w) d p' w' = amount_at p w d p' w'

-- What a movement adds to the stock: its quantity at its destination, less that at its source.
unfoldable pub delta : Movement → Uuid → Uuid → ℤ
delta m p w =
    amount_at? m.product_id m.destination_warehouse_id m.quantity p w
    -ℤ amount_at? m.product_id m.source_warehouse_id m.quantity p w

-- The stock that the audit trail accounts for.
unfoldable pub audited : List Movement → Uuid → Uuid → ℤ
audited [] p w = pos 0
audited (m ∷ ms) p w = delta m p w +ℤ audited ms p w

abbrev pub same_id : Inventory → Inventory → Bool
same_id x r = r.id == x.id

abbrev pub same_pair : Inventory → Inventory → Bool
same_pair x r = of_pair x.product_id x.warehouse_id r

-- No stock level is negative, ids are unique, and a pair has one record at most.
pub record IsStocked (rows : List Inventory) : Type 0 where
  pub nonneg : All (λ (r : Inventory). pos 0 ≤ℤ r.quantity) rows
  pub ids : Distinct same_id rows
  pub pairs : Distinct same_pair rows

-- The audit trail accounts for every stock level.
pub record IsSound (t : Tables) : Type 0 where
  pub stocked : IsStocked t.inventories
  pub audit : (p w : Uuid) → stock t.inventories p w ≡ audited t.movements p w
