-- ===== src/Services/Product/Catalog.antt =====
-- The product catalogue: SKUs stay unique, and the services refuse just what they should.
use Prim.Native.String.{String}
use text.Mathlib.Text.{◌==◌ as str_eq}
use text.Mathlib.TextEquality.{eq_iff}
use inventory_management_api.Base.{
  ◌||◌, ◌≡◌, ◌≢◌, refl, ◌∙◌, ◌⊎◌, inl, inr, true, false, Option, none, some, List, arith,
  Bool-cases, is_some, Option-cases,
}
use inventory_management_api.Base.Int.{ℤ}
use inventory_management_api.Base.Rows.{
  any, find?, any-eq-find, any-find-some, count_rows, found, count_rows-keep, count_rows-perm,
}
use inventory_management_api.Errors.{
  Error, ok, err, app, conflict, not_found, integrity, data_error,
}
use inventory_management_api.Models.{Uuid, Product, Tables}
use inventory_management_api.Schemas.Catalog.{
  ProductUpdate, Patch, unset, null, set, get, is_null, all_set, assign,
}
use inventory_management_api.Schemas.Catalog.Assigned.{
  Assigned, AssignedNullable, assign-Assigned, assign_nullable-Assigned, ne-null, eq-null,
  all_set-holds, all_set-fails,
}
use inventory_management_api.Session.{
  Env, World, select, raise_if, with_session, begin, commit, pure, ◌>>◌, ◌>>=◌,
}
use inventory_management_api.Session.Ends.{Ends, Ends-ok, Ends-err, Ends-close, bind-ok}
use inventory_management_api.Repositories.Base.{has_id}
use inventory_management_api.Repositories.Base.Lookup.{get_or_raise_found, get_or_raise_missing}
use inventory_management_api.Repositories.Keyed.{
  IsKeyed, IsKeyed-replace, AtMost-has_key, replace_row, taken, taken_free, taken_own,
}
use inventory_management_api.Repositories.Catalog.{
  product_model, has_sku, get_by_sku, flush_product, price_fits,
}
use inventory_management_api.Services.Product.{
  refuse_sku, updated_product, product_fault, check_new_sku, update_product,
}

-- SKUs and ids are unique.
abbrev pub IsCatalog : List Product → Type 0
IsCatalog rows = IsKeyed (λ (x : Product). x.id) (λ x. x.sku) rows

abbrev pub with_products : List Product → Tables → Tables
with_products rows t = record t { products = rows }

abbrev pub put : Product → List Product → List Product
put p rows = replace_row (λ (x : Product). x.id) (λ x. x.sku) p rows

-- A null in a column that takes none.
abbrev pub HasNull : ProductUpdate → Type 0
HasNull payload =
    (payload.sku ≡ Patch.null)
    ⊎ ((payload.name ≡ Patch.null)
        ⊎ ((payload.price ≡ Patch.null) ⊎ ((payload.is_active ≡ Patch.null))))

-- No column refuses what the payload gives it.
pub record IsValid (payload : ProductUpdate) : Type 0 where
  pub sku : payload.sku ≢ Patch.null
  pub name : payload.name ≢ Patch.null
  pub price : payload.price ≢ Patch.null
  pub is_active : payload.is_active ≢ Patch.null
  pub fits : (price : ℤ) → payload.price ≡ Patch.set price → price_fits price ≡ true

-- A column refuses what the payload gives it, with the error.
abbrev pub IsFault : ProductUpdate → Error → Type 0
IsFault payload e =
    ((e ≡ data_error)
      × ((price : ℤ) × ((payload.price ≡ Patch.set price) × (price_fits price ≡ false))))
    ⊎ ((e ≡ integrity) × HasNull payload)

IsValid-no_fault : (payload : ProductUpdate) → product_fault payload ≡ none → IsValid payload
unfolding product_fault
IsValid-no_fault payload h = record {
  sku = ne-null payload.sku (ground (arith, h));
  name = ne-null payload.name (ground (arith, h));
  price = ne-null payload.price (ground (arith, h));
  is_active = ne-null payload.is_active (ground (arith, h));
  fits = all_set-holds payload.price price_fits (ground (arith, h));
}

HasNull-test :
    (payload : ProductUpdate)
    → (is_null payload.sku
        || is_null payload.name
        || is_null payload.price
        || is_null payload.is_active)
      ≡ true
    → HasNull payload
HasNull-test payload h = elim (Bool-cases (is_null payload.sku)) [
  | inl y ↦ inl (eq-null payload.sku y)
  | inr no_sku ↦ inr (elim (Bool-cases (is_null payload.name)) [
    | inl y ↦ inl (eq-null payload.name y)
    | inr no_name ↦ inr (elim (Bool-cases (is_null payload.price)) [
      | inl y ↦ inl (eq-null payload.price y)
      | inr no_price ↦
          inr (eq-null payload.is_active (ground (arith, h, no_sku, no_name, no_price)))
    ])
  ])
]

violated_lem :
    (payload : ProductUpdate) (e : Error) → product_fault payload ≡ some e → IsFault payload e
unfolding product_fault
violated_lem payload e h = elim (Bool-cases (all_set payload.price price_fits)) [
  | inr n ↦ inl (ground (arith, h, n), all_set-fails payload.price price_fits n)
  | inl y ↦ inr (ground (arith, h, y), HasNull-test payload (ground (arith, h, y)))
]

-- The flush of an updated row whose SKU is not another row's.
pub flush_product-cases :
    (fault : Option Error) (b : Product) (s : World)
    → taken (λ (x : Product). x.id) (λ x. x.sku) b s.session.products ≡ false
    → ((flush_product fault b s
          ≡ (ok tt, record s { session = with_products (put b s.session.products) s.session }))
        × (fault ≡ none))
      ⊎ ((e : Error) × (flush_product fault b s ≡ (err e, s)) × (fault ≡ some e))
unfolding flush_product ◌>>=◌
flush_product-cases none b s t = inl (rw t, refl)
flush_product-cases (some e) b s t = inr (e, refl, refl)

module _ ⦃env : Env⦄ where
  sku_lem :
      (sku : String) (s : World)
      → IsCatalog s.session.products
      → get_by_sku sku s ≡ (ok (find? (has_sku sku) s.session.products), s)
  unfolding get_by_sku ◌>>=◌
  sku_lem sku s h = elim (Option-cases (find? (has_sku sku) s.session.products)) [
    | inl e ↦ ground (arith, one_row)
    | inr (x, e) ↦ ground (arith, one_row)
  ]
    where
      one_row :
          count_rows (select (has_sku sku) s.session.products)
          ≡ found (find? (has_sku sku) s.session.products)
      one_row =
          count_rows-perm (env.select_perm Product (has_sku sku) s.session.products)
          ∙ count_rows-keep (has_sku sku) s.session.products
              (AtMost-has_key (λ (x : Product). x.id) (λ x. x.sku) s.session.products sku h.keys)

  -- A SKU is refused just if a row has it.
  pub refuse_sku-cases :
      (sku : String) (s : World)
      → IsCatalog s.session.products
      → ((refuse_sku sku s ≡ (ok tt, s)) × (any (has_sku sku) s.session.products ≡ false))
        ⊎ ((refuse_sku sku s ≡ (err (app conflict), s))
            × (any (has_sku sku) s.session.products ≡ true))
  refuse_sku-cases sku s h = elim (Option-cases (find? (has_sku sku) s.session.products)) [
    | inl e ↦ inl (steps ∙ rw e, any-eq-find (has_sku sku) s.session.products e)
    | inr (x, e) ↦ inr (steps ∙ rw e, any-find-some (has_sku sku) s.session.products x e)
  ]
    where
      steps :
          refuse_sku sku s
          ≡ raise_if (is_some (find? (has_sku sku) s.session.products)) (app conflict) s
      steps = unfold refuse_sku in bind-ok _ _ s _ s (sku_lem sku s h)

  -- What an update that returns has done.
  pub record Updated (i : Uuid) (payload : ProductUpdate) (before : Tables) (p : Product)
      (after : Tables) : Type 0 where
    pub old : Product
    pub found : find? (has_id product_model i) before.products ≡ some old
    pub id : p.id ≡ old.id
    pub sku : Assigned payload.sku old.sku p.sku
    pub name : Assigned payload.name old.name p.name
    pub price : Assigned payload.price old.price p.price
    pub is_active : Assigned payload.is_active old.is_active p.is_active
    pub description : AssignedNullable payload.description old.description p.description
    pub valid : IsValid payload
    pub stored : after ≡ with_products (put p before.products) before
    pub keyed : IsCatalog after.products

  -- Why one raises: the product is not there, a row has the new SKU, or a value does not fit its
  -- column.
  pub record NotUpdated (i : Uuid) (payload : ProductUpdate) (before : Tables) (e : Error)
      (after : Tables) : Type 0 where
    pub unchanged : after ≡ before
    pub cause :
        ((e ≡ app not_found) × (find? (has_id product_model i) before.products ≡ none))
        ⊎ ((e ≡ app conflict)
            × ((new_sku : String) × (payload.sku ≡ Patch.set new_sku)
                × (any (has_sku new_sku) before.products ≡ true)))
        ⊎ IsFault payload e

  -- Behind the check of a new SKU, the SKU of the updated row is not another row's.
  pub check_new_sku-cases :
      (i : Uuid) (k : Patch String) (old b : Product) (s : World)
      → IsCatalog s.session.products
      → find? (has_id product_model i) s.session.products ≡ some old
      → b.id ≡ old.id
      → b.sku ≡ assign k old.sku
      → ((check_new_sku (get k) old s ≡ (ok tt, s))
          × (taken (λ (x : Product). x.id) (λ x. x.sku) b s.session.products ≡ false))
        ⊎ ((check_new_sku (get k) old s ≡ (err (app conflict), s))
            × ((new_sku : String) × (k ≡ Patch.set new_sku)
                × (any (has_sku new_sku) s.session.products ≡ true)))
  unfolding check_new_sku
  check_new_sku-cases i unset old b s h e same_id same_sku =
      inl (refl, taken_own _ _ i old b s.session.products e h.keys same_id same_sku)
  check_new_sku-cases i null old b s h e same_id same_sku =
      inl (refl, taken_own _ _ i old b s.session.products e h.keys same_id same_sku)
  check_new_sku-cases i (set new_sku) old b s h e same_id same_sku =
      elim (Bool-cases (str_eq new_sku old.sku)) [
        | inl y ↦ inl (
          rw y,
          taken_own _ _ i old b s.session.products e h.keys same_id
              (same_sku ∙ (eq_iff new_sku old.sku).0 y),
        )
        | inr n ↦ elim (refuse_sku-cases new_sku s h) [
          | inl (run, free) ↦ inl (
            rw n run,
            taken_free (λ (x : Product). x.id) (λ x. x.sku) b s.session.products (rw same_sku free),
          )
          | inr (run, used) ↦ inr (rw n run, (new_sku, refl, used))
        ]
      ]

  saved_outcome :
      (i : Uuid) (payload : ProductUpdate) (t : World) (old : Product)
      → IsCatalog t.session.products
      → t.committed ≡ t.session
      → find? (has_id product_model i) t.session.products ≡ some old
      → taken (λ (x : Product). x.id) (λ x. x.sku) (updated_product payload old) t.session.products
        ≡ false
      → Ends
          (λ p s'. Updated i payload t.session p s'.committed)
          (λ e s'. NotUpdated i payload t.session e s'.committed)
          ((do
            flush_product (product_fault payload) (updated_product payload old)
            commit
            pure (updated_product payload old))
            t)
  saved_outcome i payload t old k same e free =
      elim (flush_product-cases (product_fault payload) (updated_product payload old) t free) [
        | inl (run, valid) ↦ Ends-ok _ _ t tt _ run (
            unfold commit ◌>>=◌ in
            record {
              outcome = record {
                old = old;
                found = e;
                id = unfold updated_product in refl;
                sku = unfold updated_product in assign-Assigned payload.sku old.sku;
                name = unfold updated_product in assign-Assigned payload.name old.name;
                price = unfold updated_product in assign-Assigned payload.price old.price;
                is_active =
                    unfold updated_product in assign-Assigned payload.is_active old.is_active;
                description =
                    unfold updated_product in
                    assign_nullable-Assigned payload.description old.description;
                valid = IsValid-no_fault payload valid;
                stored = refl;
                keyed =
                    IsKeyed-replace (λ (x : Product). x.id) (λ x. x.sku)
                      (updated_product payload old) t.session.products free k;
              };
            })
        | inr (x, run, why) ↦
            Ends-err _ _ t x t run
              (record { unchanged = same; cause = inr (inr (violated_lem payload x why)) })
      ]

  update_outcome :
      (i : Uuid) (payload : ProductUpdate) (t : World)
      → IsCatalog t.session.products
      → t.committed ≡ t.session
      → Ends
          (λ p s'. Updated i payload t.session p s'.committed)
          (λ e s'. NotUpdated i payload t.session e s'.committed)
          (update_product i payload t)
  unfolding update_product
  update_outcome i payload t k same =
      elim (Option-cases (find? (has_id product_model i) t.session.products)) [
        | inl e ↦
            Ends-err _ _ t (app not_found) t (get_or_raise_missing product_model i t e)
              (record { unchanged = same; cause = inl (refl, e) })
        | inr (old, e) ↦
            Ends-ok _ _ t old t (get_or_raise_found product_model i t old e)
              (elim (check_new_sku-cases i payload.sku old (updated_product payload old) t k e
                (unfold updated_product in refl) (unfold updated_product in refl)) [
                  | inl (run, free) ↦
                      Ends-ok _ _ t tt t run (saved_outcome i payload t old k same e free)
                  | inr (run, why) ↦
                      Ends-err _ _ t (app conflict) t run
                        (record { unchanged = same; cause = inr (inl (refl, why)) })
                ])
      ]

  -- Where SKUs and ids are unique, an update that returns has changed just the fields that it names
  -- of the one product, and SKUs and ids stay unique. One that raises commits nothing; it raises
  -- for a missing product, for a SKU in the payload that a product has, or for a null or a price
  -- that its column does not take, and never for the constraint on SKUs.
  pub update_product_outcome :
      (i : Uuid) (payload : ProductUpdate) (s : World)
      → IsCatalog s.committed.products
      → Ends
          (λ p s'. Updated i payload s.committed p s'.committed)
          (λ e s'. NotUpdated i payload s.committed e s'.committed)
          (with_session (update_product i payload) s)
  unfolding with_session
  update_product_outcome i payload s h = Ends-close _ (update_outcome i payload (begin s) h refl)
