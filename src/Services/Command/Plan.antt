-- ===== src/Services/Command/Plan.antt =====
-- The locks that a movement will need, in order, and that it takes just these.
use inventory_management_api.Base.{
  ◌<◌, ◌≡◌, ◌≢◌, refl, inl, inr, Option, none, some, List, [], ◌∷◌, arith, Bool-cases, subst, sym,
}
use inventory_management_api.Base.Rows.{All}
use inventory_management_api.Models.{Uuid, MovementType}
use inventory_management_api.Schemas.Movement.{MovementCreate}
use inventory_management_api.Schemas.Movement.Shape.{IsShaped}
use inventory_management_api.Session.{◌>>=◌}
use inventory_management_api.Services.Command.{source_first}
use inventory_management_api.Services.Command.Locks.{
  transfer_plan, first_le, second_le, source_plan, destination_plan,
}

abbrev leg_plan : Uuid → Option Uuid → List (Uuid × Uuid)
leg_plan p none = []
leg_plan p (some w) = (p, w) ∷ []

abbrev legs_plan : (product_id : Uuid) → (source destination : Option Uuid) → List (Uuid × Uuid)
legs_plan p (some v) (some w) = transfer_plan p v w
legs_plan p o o' = []

-- The pairs that a movement changes, in the order in which it changes them.
abbrev pub lock_plan : MovementType → MovementCreate → List (Uuid × Uuid)
lock_plan MovementType.in_ d = leg_plan d.product_id d.destination_warehouse_id
lock_plan MovementType.out d = leg_plan d.product_id d.source_warehouse_id
lock_plan MovementType.transfer d =
    legs_plan d.product_id d.source_warehouse_id d.destination_warehouse_id

leg_plan-some : (p w : Uuid) (o : Option Uuid) → o ≡ some w → (p, w) ∷ [] ≡ leg_plan p o
leg_plan-some p w o e = rw e refl

legs_plan-some :
    (p v w : Uuid) (o o' : Option Uuid)
    → o ≡ some v
    → o' ≡ some w
    → transfer_plan p v w ≡ legs_plan p o o'
legs_plan-some p v w o o' e f = rw (e, f) refl

-- Each lock of the plan is on a higher warehouse than those before it.
abbrev pub IsRising : List (Uuid × Uuid) → Type 0
IsRising [] = Unit
IsRising (k ∷ ks) = All (λ (j : Uuid × Uuid). k.1 < j.1) ks × IsRising ks

transfer_plan-IsRising : (p v w : Uuid) → v ≢ w → IsRising (transfer_plan p v w)
transfer_plan-IsRising p v w n = elim (Bool-cases (source_first v w)) [
  | inl y ↦
      subst IsRising (sym (source_plan p v w y)) ((omega (arith, n, first_le v w y), tt), (tt, tt))
  | inr y ↦
      subst IsRising (sym (destination_plan p v w y))
        ((omega (arith, n, second_le v w y), tt), (tt, tt))
]

pub lock_plan-IsRising :
    (ty : MovementType) (d : MovementCreate)
    → IsShaped ty d.source_warehouse_id d.destination_warehouse_id
    → IsRising (lock_plan ty d)
lock_plan-IsRising MovementType.in_ d (w, e, f) =
    subst IsRising (leg_plan-some d.product_id w _ e) (tt, tt)
lock_plan-IsRising MovementType.out d (v, e, f) =
    subst IsRising (leg_plan-some d.product_id v _ e) (tt, tt)
lock_plan-IsRising MovementType.transfer d (v, w, e, f, n) =
    subst IsRising (legs_plan-some d.product_id v w _ _ e f)
      (transfer_plan-IsRising d.product_id v w n)
