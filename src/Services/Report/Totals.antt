-- ===== src/Services/Report/Totals.antt =====
-- The totals of a report are those of the whole stock, however it is spread over the warehouses.
use inventory_management_api.Base.{
  ◌≡◌, ◌↔◌, none, some, refl, ◌∙◌, ap, inl, inr, true, not, List, [], ◌∷◌, map, ◌+◌, ◌==◌, arith,
  if◌then◌else◌, Option-cases,
}
use inventory_management_api.Base.Int.{ℤ, pos, ◌*ℤ◌}
use inventory_management_api.Base.Rows.{All, Distinct, keep, find?}
use inventory_management_api.Base.Sums.{sum_of, count_if, sum_of-perm, sum_of-same, sum_of-groups}
use inventory_management_api.Errors.{ok}
use inventory_management_api.Models.{Product, Warehouse, Inventory, Tables}
use inventory_management_api.Session.{Env, World, ◌>>=◌}
use inventory_management_api.Repositories.Inventories.{warehouse_exists}
use inventory_management_api.Repositories.Base.{has_id}
use inventory_management_api.Repositories.Catalog.{product_model}
use inventory_management_api.Services.Alert.{is_above, threshold_of}
use inventory_management_api.Services.Report.{
  InventorySummaryReport, InventoryValuationReport, of_warehouse, is_out, quantity_of, priced,
  value_of, valuation_of, is_low, summary_of, summary_report, valuation_report, by_name,
  generate_inventory_summary, generate_valuation_report,
}

-- Warehouses have their own ids, and each stock level belongs to one.
pub record IsPlaced (t : Tables) : Type 0 where
  pub ids : Distinct (λ (x w : Warehouse). w.id == x.id) t.warehouses
  pub placed : All (λ (r : Inventory). warehouse_exists r.warehouse_id t ≡ true) t.inventories

pub sum_of-map :
    {A B : Type 0} (g : A → B) (f : B → ℤ) (xs : List A)
    → sum_of f (map g xs) ≡ sum_of (λ a. f (g a)) xs
sum_of-map g f [] = refl
sum_of-map g f (x ∷ xs) = rw (sum_of-map g f xs)

module _ ⦃env : Env⦄ where
  -- Summing a figure over the groups sums it over the whole stock.
  total :
      (t : Tables) (f : Inventory → ℤ)
      → IsPlaced t
      → sum_of (λ w. sum_of f (keep (of_warehouse w) t.inventories)) (by_name t.warehouses)
        ≡ sum_of f t.inventories
  total t f h =
      sum_of-perm _ (env.order_by_perm Warehouse (λ w. w.name) t.warehouses)
      ∙ sum_of-groups (λ (w : Warehouse). w.id) (λ (r : Inventory). r.warehouse_id) f t.warehouses
          t.inventories h.ids h.placed

  -- The reports call a level low just where an evaluation finds it not above its threshold.
  low_lem : (r : Inventory) → is_low r ≡ not (is_above r)
  unfolding is_above threshold_of
  low_lem r = elim (Option-cases r.low_stock_threshold) [
    | inl e ↦ ground (arith, e)
    | inr (n, e) ↦ ground (arith, e)
  ]

  -- What a summary says of the tables `t`.
  pub record Summarises (t : Tables) (report : InventorySummaryReport) : Type 0 where
    pub total_warehouses : report.total_warehouses ≡ sum_of (λ _. pos 1) t.warehouses
    pub total_stock_quantity : report.total_stock_quantity ≡ sum_of quantity_of t.inventories
    pub low_stock_count : report.low_stock_count ≡ count_if (λ r. not (is_above r)) t.inventories
    pub is_out_iff : (r : Inventory) → (is_out r ≡ true) ↔ (r.quantity ≡ pos 0)
    pub out_of_stock_count : report.out_of_stock_count ≡ count_if is_out t.inventories
    pub rows : report.by_warehouse ≡ map (summary_of t.inventories) (by_name t.warehouses)
    pub quantities :
        report.total_stock_quantity ≡ sum_of (λ w. w.total_quantity) report.by_warehouse
    pub low : report.low_stock_count ≡ sum_of (λ w. w.low_stock_count) report.by_warehouse
    pub out : report.out_of_stock_count ≡ sum_of (λ w. w.out_of_stock_count) report.by_warehouse

  -- The worth of a stock level: its quantity times the price of its product.
  pub record IsWorth (products : List Product) (r : Inventory) (worth : ℤ) : Type 0 where
    pub priced :
        (p : Product)
        → find? (has_id product_model r.product_id) products ≡ some p
        → worth ≡ r.quantity *ℤ p.price
    pub unknown : find? (has_id product_model r.product_id) products ≡ none → worth ≡ pos 0

  value_of-IsWorth :
      (products : List Product) (r : Inventory) → IsWorth products r (value_of products r)
  value_of-IsWorth products r = record {
    priced = λ p e. ap (priced r) e;
    unknown = λ e. ap (priced r) e;
  }

  -- What a valuation says of them.
  pub record Values (t : Tables) (report : InventoryValuationReport) : Type 0 where
    pub worth : (r : Inventory) → IsWorth t.products r (value_of t.products r)
    pub total_value : report.total_value ≡ sum_of (value_of t.products) t.inventories
    pub values : report.total_value ≡ sum_of (λ w. w.total_value) report.by_warehouse

  -- Where each stock level belongs to one warehouse, a summary returns, and counts all warehouses, the
  -- stock of all levels, those that are out of stock, and those that an evaluation of alerts finds
  -- low; it changes no row.
  pub generate_inventory_summary_outcome :
      (s : World)
      → IsPlaced s.session
      → (report : InventorySummaryReport) × ((generate_inventory_summary s
            ≡ (ok report, record s { answers = s.answers + 1 }))
          × Summarises s.session report)
  unfolding generate_inventory_summary ◌>>=◌ summary_of summary_report
  generate_inventory_summary_outcome s h = (
    summary_report (env.now s.answers)
        (map (summary_of s.session.inventories) (by_name s.session.warehouses)),
    (
      refl,
      record {
        total_warehouses =
            sum_of-map (summary_of s.session.inventories) (λ _. pos 1) _
            ∙ sum_of-perm _ (env.order_by_perm Warehouse (λ w. w.name) s.session.warehouses);
        total_stock_quantity =
            sum_of-map (summary_of s.session.inventories) (λ w. w.total_quantity) _
            ∙ total s.session quantity_of h;
        low_stock_count =
            sum_of-map (summary_of s.session.inventories) (λ w. w.low_stock_count) _
            ∙ total s.session (λ r. if is_low r then pos 1 else pos 0) h
            ∙ sum_of-same _ _ s.session.inventories
                (λ r. ap (λ b. if b then pos 1 else pos 0) (low_lem r));
        is_out_iff = λ r. (λ h. ground (arith, h), λ h. ground (arith, h));
        out_of_stock_count =
            sum_of-map (summary_of s.session.inventories) (λ w. w.out_of_stock_count) _
            ∙ total s.session (λ r. if is_out r then pos 1 else pos 0) h;
        rows = refl;
        quantities = refl;
        low = refl;
        out = refl;
      },
    ),
  )

  -- Where each stock level belongs to one warehouse, a valuation returns, and sums the worth of all
  -- stock levels, each its quantity times the price of its product; it changes no row.
  pub generate_valuation_report_outcome :
      (s : World)
      → IsPlaced s.session
      → (report : InventoryValuationReport) × ((generate_valuation_report s
            ≡ (ok report, record s { answers = s.answers + 1 }))
          × Values s.session report)
  unfolding generate_valuation_report ◌>>=◌ valuation_of valuation_report
  generate_valuation_report_outcome s h = (
    valuation_report (env.now s.answers) (
        map (valuation_of s.session.products s.session.inventories) (by_name s.session.warehouses)),
    (
      refl,
      record {
        worth = value_of-IsWorth s.session.products;
        total_value =
            sum_of-map (valuation_of s.session.products s.session.inventories) (λ w. w.total_value)
              _
            ∙ total s.session (value_of s.session.products) h;
        values = refl;
      },
    ),
  )
