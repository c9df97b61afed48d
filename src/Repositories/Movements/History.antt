-- ===== src/Repositories/Movements/History.antt =====
-- What a listing of the audit trail shows.
use inventory_management_api.Base.{◌≤◌, ◌≡◌, ◌≢◌, ◌⊎◌, true, some, List}
use inventory_management_api.Base.Int.{ℤ, pos, pos_part, ltb_ℤ}
use inventory_management_api.Base.Rows.{length, take, drop, IsDescending}
use inventory_management_api.Base.Pages.{Picks}
use inventory_management_api.Errors.{Error, data_error}
use inventory_management_api.Models.{Uuid, Movement}
use inventory_management_api.Session.{World}
use inventory_management_api.Session.Ends.{Ends}
use inventory_management_api.Repositories.Base.{page}

abbrev pub IsOf : Uuid → Movement → Type 0
IsOf product m = m.product_id ≡ product

abbrev pub IsNotOf : Uuid → Movement → Type 0
IsNotOf product m = m.product_id ≢ product

-- From the warehouse, or to it.
abbrev pub Touches : Uuid → Movement → Type 0
Touches warehouse m =
    (m.source_warehouse_id ≡ some warehouse) ⊎ (m.destination_warehouse_id ≡ some warehouse)

abbrev pub Misses : Uuid → Movement → Type 0
Misses warehouse m =
    (m.source_warehouse_id ≢ some warehouse) × (m.destination_warehouse_id ≢ some warehouse)

-- A page of all the movements that meet `P`, where the others meet `Q`.
pub record History (P Q : Movement → Type 0) (skip limit : ℤ) (s : World) (ms : List Movement)
    (s' : World) : Type 0 where
  pub whole : List Movement
  pub picks : Picks P Q s.session.movements whole
  pub ordered : IsDescending (λ (m : Movement). m.created_at) whole
  pub page : ms ≡ take (pos_part limit) (drop (pos_part skip) whole)
  pub short : length ms ≤ pos_part limit
  pub same : s' ≡ s

pub record NoHistory (skip limit : ℤ) (s : World) (e : Error) (s' : World) : Type 0 where
  pub error : e ≡ data_error
  pub same : s' ≡ s
  pub negative : (ltb_ℤ skip (pos 0) ≡ true) ⊎ (ltb_ℤ limit (pos 0) ≡ true)
