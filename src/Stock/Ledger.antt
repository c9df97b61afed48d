-- ===== src/Stock/Ledger.antt =====
-- The specification of the write side: what a client knows of the inventory, and when a movement is
-- allowed. It has no rows, no trail, no locks and no alerts, and refuses without a reason.
use inventory_management_api.Base.{Bool, true, ◌&&◌, Option, none, some, if◌then◌else◌}
use inventory_management_api.Base.Int.{ℤ, ◌+ℤ◌, ◌-ℤ◌, leb_ℤ}
use inventory_management_api.Models.{Uuid, Tables}
use inventory_management_api.Schemas.Movement.{MovementCreate}
use inventory_management_api.Repositories.Inventories.{product_exists, warehouse_exists}
use inventory_management_api.Stock.{stock, amount_at?}

-- The products and warehouses that there are, and how much of a product a warehouse holds.
pub record Ledger : Type 0 where
  pub products : Uuid → Bool
  pub warehouses : Uuid → Bool
  pub level : Uuid → Uuid → ℤ

-- What the tables say.
abbrev pub view : Tables → Ledger
view t = record {
  products = λ p. product_exists p t;
  warehouses = λ w. warehouse_exists w t;
  level = stock t.inventories;
}

-- What the payload asks to add to the stock.
abbrev pub asked : MovementCreate → Uuid → Uuid → ℤ
asked d p w =
    amount_at? d.product_id d.destination_warehouse_id d.quantity p w
    -ℤ amount_at? d.product_id d.source_warehouse_id d.quantity p w

-- The destination is there, where one is given.
abbrev pub can_receive : Ledger → Option Uuid → Bool
can_receive l none = true
can_receive l (some w) = l.warehouses w

-- The source is there and holds the quantity, where one is given.
abbrev pub can_give : Ledger → Uuid → ℤ → Option Uuid → Bool
can_give l p q none = true
can_give l p q (some w) = l.warehouses w && leb_ℤ q (l.level p w)

abbrev pub is_allowed : MovementCreate → Ledger → Bool
is_allowed d l =
    l.products d.product_id
    && (can_receive l d.destination_warehouse_id
        && can_give l d.product_id d.quantity d.source_warehouse_id)

-- A movement on the ledger: all of it, or nothing.
abbrev pub move : MovementCreate → Ledger → Option Ledger
move d l =
    if is_allowed d l then some (record l { level = λ p w. l.level p w +ℤ asked d p w }) else none
