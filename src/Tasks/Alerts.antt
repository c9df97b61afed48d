-- ===== src/Tasks/Alerts.antt =====
-- app/tasks/alerts.py: the periodic sweep over all stock levels. Its loop runs on fuel, and ends
-- with `none` where that does not suffice.
pub mod Sweep
pub mod Settled
use inventory_management_api.Base.{
  ℕ, zero, suc, ◌+◌, Option, none, some, List, [], ◌∷◌, if◌then◌else◌, is_some,
}
use inventory_management_api.Base.Int.{pos}
use inventory_management_api.Models.{Inventory}
use inventory_management_api.Session.{Env, Action, pure, with_session, ◌>>=◌}
use inventory_management_api.Repositories.Base.{list_all}
use inventory_management_api.Repositories.Inventories.{inventory_model}
use inventory_management_api.Services.Alert.{evaluate_stock_level}

abbrev pub batch_size : ℕ
batch_size = 200

-- The summary: `evaluated` and `alerts_active`.
pub record Summary : Type 0 where
  pub evaluated : ℕ
  pub alerts_active : ℕ

module _ ⦃env : Env⦄ where
  -- `for inventory in batch: …`
  unfoldable pub sweep_batch : List Inventory → Summary → Action Summary
  sweep_batch [] counts = pure counts
  sweep_batch (inventory ∷ batch) counts = do
    alert ← evaluate_stock_level inventory
    sweep_batch batch (record {
      evaluated = counts.evaluated + 1;
      alerts_active = if is_some alert then counts.alerts_active + 1 else counts.alerts_active;
    })

  -- One round of the loop: `next` is the rest of them.
  unfoldable pub sweep_page :
      List Inventory
      → Summary
      → (next : Summary → Action (Option Summary)) → Action (Option Summary)
  sweep_page [] counts next = pure (some counts)
  sweep_page (inventory ∷ batch) counts next = do
    counts' ← sweep_batch (inventory ∷ batch) counts
    next counts'

  -- `while True: …`, from `skip` on.
  unfoldable pub sweep_from : (fuel skip : ℕ) → Summary → Action (Option Summary)
  sweep_from zero skip counts = pure none
  sweep_from (suc fuel) skip counts = do
    batch ← list_all inventory_model (pos skip) (pos batch_size)
    sweep_page batch counts (λ counts'. sweep_from fuel (skip + batch_size) counts')

  -- `_check_low_stock_levels`
  unfoldable pub check_low_stock_levels : (fuel : ℕ) → Action (Option Summary)
  unfolding sweep_from
  check_low_stock_levels fuel =
      with_session (sweep_from fuel 0 (record { evaluated = 0; alerts_active = 0 }))
