-- ===== src/Services/Query/LowStock.antt =====
-- What the listing of low stock contains.
use inventory_management_api.Base.{
  ◌≤◌, ◌≡◌, refl, ◌⊎◌, inl, inr, true, some, List, [], ◌∷◌, arith, Bool-cases, Option-cases,
}
use inventory_management_api.Base.Int.{ℤ, pos, pos_part, ltb_ℤ, ◌≤ℤ◌}
use inventory_management_api.Base.Rows.{All, length, keep}
use inventory_management_api.Base.Pages.{All-take, All-drop, All-perm, length-take}
use inventory_management_api.Errors.{Error, data_error}
use inventory_management_api.Models.{Inventory}
use inventory_management_api.Session.{Env, World, select, ◌>>=◌}
use inventory_management_api.Session.Ends.{Ends}
use inventory_management_api.Repositories.Inventories.{below_own_threshold, list_low_stock}
use inventory_management_api.Services.Query.{list_low_stock_rows}

-- The record has a threshold of its own, and its level is not above it.
pub record IsLow (r : Inventory) : Type 0 where
  pub threshold : ℤ
  pub own : r.low_stock_threshold ≡ some threshold
  pub low : r.quantity ≤ℤ threshold

below-IsLow : (r : Inventory) → below_own_threshold r ≡ true → IsLow r
below-IsLow r h = elim (Option-cases r.low_stock_threshold) [
  | inl e ↦ absurd (ground (arith, e))
  | inr (n, e) ↦ record { threshold = n; own = e; low = ground (arith, e) }
]

keep-IsLow : (xs : List Inventory) → All IsLow (keep below_own_threshold xs)
keep-IsLow [] = tt
keep-IsLow (x ∷ xs) = elim (Bool-cases (below_own_threshold x)) [
  | inl y ↦ rw y (below-IsLow x y, keep-IsLow xs)
  | inr n ↦ rw n (keep-IsLow xs)
]

pub record Listed (skip limit : ℤ) (s : World) (rs : List Inventory) (s' : World) : Type 0 where
  pub low : All IsLow rs
  pub short : length rs ≤ pos_part limit
  pub same : s' ≡ s
  pub from_zero : (pos 0 ≤ℤ skip) × (pos 0 ≤ℤ limit)

pub record NotListed (skip limit : ℤ) (s : World) (e : Error) (s' : World) : Type 0 where
  pub error : e ≡ data_error
  pub same : s' ≡ s
  pub negative : (ltb_ℤ skip (pos 0) ≡ true) ⊎ (ltb_ℤ limit (pos 0) ≡ true)

module _ ⦃env : Env⦄ where
  selected-IsLow : (rows : List Inventory) → All IsLow (select below_own_threshold rows)
  selected-IsLow rows =
      All-perm IsLow (env.select_perm Inventory below_own_threshold rows) (keep-IsLow rows)

  -- A listing of low stock returns no more than `limit` records, each of which has a threshold of
  -- its own that its level is not above; records that only fall below the default threshold are
  -- never listed. It raises just where `skip` or `limit` is negative, and changes nothing.
  pub list_low_stock_rows-IsLow :
      (skip limit : ℤ) (s : World)
      → Ends (Listed skip limit s) (NotListed skip limit s) (list_low_stock_rows skip limit s)
  unfolding list_low_stock_rows list_low_stock ◌>>=◌
  list_low_stock_rows-IsLow skip limit s = elim (Bool-cases (ltb_ℤ skip (pos 0))) [
    | inl y ↦ rw y (record { outcome = record { error = refl; same = refl; negative = inl y } })
    | inr n ↦ elim (Bool-cases (ltb_ℤ limit (pos 0))) [
      | inl y ↦
          rw (n, y) (record { outcome = record { error = refl; same = refl; negative = inr y } })
      | inr m ↦
          rw (n, m)
            (record {
              outcome = record {
                low =
                    All-take IsLow (pos_part limit) _
                      (All-drop IsLow (pos_part skip) _ (selected-IsLow s.session.inventories));
                short = length-take (pos_part limit) _;
                same = refl;
                from_zero = (ground arith, ground arith);
              };
            })
    ]
  ]
