-- ===== src/Repositories/Movements.antt =====
-- app/repositories/movement.py: the listings of the audit trail.
pub mod History
use inventory_management_api.Base.{Bool, false, ◌||◌, Option, none, some, List, ◌==◌}
use inventory_management_api.Base.Int.{ℤ}
use inventory_management_api.Models.{Uuid, Movement}
use inventory_management_api.Session.{Env, Action, read, select, ◌>>=◌}
use inventory_management_api.Repositories.Base.{page}

-- A comparison with a column that may be null.
abbrev pub is_warehouse : Uuid → Option Uuid → Bool
is_warehouse w none = false
is_warehouse w (some v) = v == w

-- `Movement.product_id == product_id`
abbrev pub of_product : Uuid → Movement → Bool
of_product p m = m.product_id == p

-- `(Movement.source_warehouse_id == …) | (Movement.destination_warehouse_id == …)`
abbrev pub involves : Uuid → Movement → Bool
involves w m = is_warehouse w m.source_warehouse_id || is_warehouse w m.destination_warehouse_id

module _ ⦃env : Env⦄ where
  -- SELECT … WHERE p ORDER BY created_at DESC
  abbrev pub latest_first : (Movement → Bool) → List Movement → List Movement
  latest_first p rows = env.order_by_desc Movement (λ m. m.created_at) (select p rows)

  -- `MovementRepository.list_by_product`
  unfoldable pub list_movements_by_product : Uuid → (skip limit : ℤ) → Action (List Movement)
  list_movements_by_product product_id skip limit = do
    rows ← read (λ t. t.movements)
    page skip limit (latest_first (of_product product_id) rows)

  -- `MovementRepository.list_by_warehouse`
  unfoldable pub list_movements_by_warehouse : Uuid → (skip limit : ℤ) → Action (List Movement)
  list_movements_by_warehouse warehouse_id skip limit = do
    rows ← read (λ t. t.movements)
    page skip limit (latest_first (involves warehouse_id) rows)
