-- ===== src/Services/Command/Faults.antt =====
-- The errors of the command service: behind the commit just those that are answered with a 500.
use inventory_management_api.Base.{Option, none, some, List, [], ◌∷◌}
use inventory_management_api.Base.Int.{ℤ}
use inventory_management_api.Errors.{
  Error, app, not_found, insufficient_stock, assertion, index_error,
}
use inventory_management_api.Models.{Uuid, MovementType, Inventory}
use inventory_management_api.Schemas.Movement.{MovementCreate}
use inventory_management_api.Session.{Env}
use inventory_management_api.Session.Raises.{Raises, AllowsDatabase, raises_rules}
use inventory_management_api.Repositories.Raised.{
  Raises-get, Raises-new_inventory, Raises-new_movement, Raises-find_for_update,
  Raises-flush_quantity,
}
use inventory_management_api.Services.Raised.{Raises-evaluate}
use inventory_management_api.Services.Command.{
  build_movement_event, found_or_new, increase_stock, decrease_stock, transfer_stock, apply_in,
  apply_out, apply_transfer, apply_movement, evaluate_all, apply_and_commit, announce,
  record_movement,
}

-- The failed checks of `record_movement` meet `P`.
pub record AllowsChecks (P : Error → Type 0) : Type 0 where
  pub assertion : P assertion
  pub index_error : P index_error

-- So do its refusals.
pub record AllowsRefusal (P : Error → Type 0) : Type 0 where
  pub not_found : P (app not_found)
  pub insufficient_stock : P (app insufficient_stock)

module _ {P : Error → Type 0} (checks : AllowsChecks P) where
  Raises-build :
      (t : MovementType) (d : MovementCreate) (rs : List Inventory)
      → Raises P (build_movement_event t d rs)
  unfolding build_movement_event
  Raises-build MovementType.in_ d rs = search (raises_rules, checks.assertion, checks.index_error)
  Raises-build MovementType.out d rs = search (raises_rules, checks.assertion, checks.index_error)
  Raises-build MovementType.transfer d rs = search (raises_rules, checks.assertion)

module _ ⦃env : Env⦄ {P : Error → Type 0} (db : AllowsDatabase P) (checks : AllowsChecks P) where
  Raises-evaluate_all : (rs : List Inventory) → Raises P (evaluate_all rs)
  unfolding evaluate_all
  Raises-evaluate_all [] = search raises_rules
  Raises-evaluate_all (r ∷ rs) = search (raises_rules, Raises-evaluate db r, Raises-evaluate_all rs)

  pub Raises-announce : (d : MovementCreate) (rs : List Inventory) → Raises P (announce d rs)
  unfolding announce
  Raises-announce d rs = search (raises_rules, Raises-evaluate_all, Raises-build checks)

  module _ (refusal : AllowsRefusal P) where
    Raises-found_or_new : (p w : Uuid) (r : Option Inventory) → Raises P (found_or_new p w r)
    unfolding found_or_new
    Raises-found_or_new p w none = search (raises_rules, Raises-new_inventory)
    Raises-found_or_new p w (some r) = search raises_rules

    Raises-increase : (p w : Uuid) (q : ℤ) → Raises P (increase_stock p w q)
    unfolding increase_stock
    Raises-increase p w q = search (
      raises_rules, Raises-get, refusal.not_found, Raises-find_for_update, Raises-found_or_new,
      Raises-flush_quantity,
    )

    Raises-decrease : (p w : Uuid) (q : ℤ) → Raises P (decrease_stock p w q)
    unfolding decrease_stock
    Raises-decrease p w q = search (
      raises_rules, Raises-get, refusal.not_found, refusal.insufficient_stock,
      Raises-find_for_update, Raises-flush_quantity,
    )

    Raises-transfer : (p v w : Uuid) (q : ℤ) → Raises P (transfer_stock p v w q)
    unfolding transfer_stock
    Raises-transfer p v w q = search (raises_rules, Raises-increase, Raises-decrease)

    Raises-apply : (t : MovementType) (d : MovementCreate) → Raises P (apply_movement t d)
    unfolding apply_movement apply_in apply_out apply_transfer
    Raises-apply MovementType.in_ d = search (raises_rules, checks.assertion, Raises-increase)
    Raises-apply MovementType.out d = search (raises_rules, checks.assertion, Raises-decrease)
    Raises-apply MovementType.transfer d = search (raises_rules, checks.assertion, Raises-transfer)

    Raises-apply_and_commit :
        (d : MovementCreate) (by : Option Uuid) → Raises P (apply_and_commit d by)
    unfolding apply_and_commit
    Raises-apply_and_commit d by =
        search (raises_rules, Raises-get, refusal.not_found, Raises-apply, Raises-new_movement)
          depth 8

    pub Raises-record_movement :
        (d : MovementCreate) (by : Option Uuid) → Raises P (record_movement d by)
    unfolding record_movement
    Raises-record_movement d by = search (raises_rules, Raises-apply_and_commit, Raises-announce)
