-- ===== src/Services/Product/Lifecycle.antt =====
-- Creation and deactivation of products.
use inventory_management_api.Base.{
  ◌≡◌, refl, ◌⊎◌, inl, inr, true, false, none, some, ◌∷◌, arith, Option-cases, Bool-cases, ◌+◌,
}
use inventory_management_api.Base.Rows.{any, find?}
use inventory_management_api.Errors.{Error, app, conflict, not_found, integrity, data_error}
use inventory_management_api.Models.{Uuid, Product, Tables}
use inventory_management_api.Schemas.Catalog.{ProductCreate}
use inventory_management_api.Session.{
  Env, World, with_session, begin, commit, pure, uuid4, ◌>>=◌, ◌>>◌,
}
use inventory_management_api.Session.Ends.{Ends, Ends-ok, Ends-err, Ends-close}
use inventory_management_api.Repositories.Base.{has_id, create}
use inventory_management_api.Repositories.Base.Lookup.{
  get_or_raise_found, get_or_raise_missing, create-cases, IsNew,
}
use inventory_management_api.Repositories.Keyed.{IsKeyed-replace, taken, taken_own}
use inventory_management_api.Repositories.Catalog.{
  product_model, product_violates, has_sku, price_fits, flush_product,
}
use inventory_management_api.Services.Product.{new_product, create_product, deactivate_product}
use inventory_management_api.Services.Product.Catalog.{
  IsCatalog, with_products, put, refuse_sku-cases, flush_product-cases,
}

-- What a creation that returns has done.
pub record Created (payload : ProductCreate) (before : Tables) (p : Product) (after : Tables)
    : Type 0 where
  pub sku : p.sku ≡ payload.sku
  pub name : p.name ≡ payload.name
  pub description : p.description ≡ payload.description
  pub price : p.price ≡ payload.price
  pub active : p.is_active ≡ true
  pub free : any (has_sku payload.sku) before.products ≡ false
  pub stored : after ≡ with_products (p ∷ before.products) before
  pub keyed : IsCatalog after.products

-- Why one raises: a product has the SKU, or the price or the new id does not go into the table.
pub record NotCreated (payload : ProductCreate) (before : Tables) (e : Error) (after : Tables)
    : Type 0 where
  pub unchanged : after ≡ before
  pub cause :
      ((e ≡ app conflict) × (any (has_sku payload.sku) before.products ≡ true))
      ⊎ ((any (has_sku payload.sku) before.products ≡ false)
          × ((e ≡ integrity) ⊎ ((e ≡ data_error) × (price_fits payload.price ≡ false))))

-- What a deactivation that returns has done.
pub record Deactivated (i : Uuid) (before : Tables) (p : Product) (after : Tables) : Type 0 where
  pub old : Product
  pub found : find? (has_id product_model i) before.products ≡ some old
  pub row : p ≡ record old { is_active = false }
  pub stored : after ≡ with_products (put p before.products) before
  pub keyed : IsCatalog after.products

pub record Missing (i : Uuid) (before : Tables) (e : Error) (after : Tables) : Type 0 where
  pub unchanged : after ≡ before
  pub error : e ≡ app not_found
  pub missing : find? (has_id product_model i) before.products ≡ none

module _ ⦃env : Env⦄ where
  violation_cases :
      (payload : ProductCreate) (id : Uuid) (t : Tables) (e : Error)
      → product_violates (new_product payload id) t ≡ some e
      → (e ≡ integrity) ⊎ ((e ≡ data_error) × (price_fits payload.price ≡ false))
  unfolding product_violates new_product
  violation_cases payload id t e v = elim (Bool-cases (price_fits payload.price)) [
    | inl y ↦ inl (ground arith)
    | inr n ↦ inr (ground arith, n)
  ]

  new_keyed :
      (payload : ProductCreate) (id : Uuid) (s : World)
      → IsCatalog s.session.products
      → IsNew product_model (new_product payload id) s
      → any (has_sku payload.sku) s.session.products ≡ false
      → IsCatalog (new_product payload id ∷ s.session.products)
  unfolding new_product
  new_keyed payload id s k new free = record { ids = (new.new_id, k.ids); keys = (free, k.keys) }

  new_row_outcome :
      (payload : ProductCreate) (id : Uuid) (t : World)
      → IsCatalog t.session.products
      → t.committed ≡ t.session
      → any (has_sku payload.sku) t.session.products ≡ false
      → Ends
          (λ p s'. Created payload t.session p s'.committed)
          (λ e s'. NotCreated payload t.session e s'.committed)
          ((do product ← create product_model (new_product payload id); commit; pure product) t)
  new_row_outcome payload id t k same free =
      elim (create-cases product_model (new_product payload id) t) [
        | inl (run, new) ↦ Ends-ok _ _ t (new_product payload id) _ run (
            unfold commit ◌>>=◌ in
            record {
              outcome = record {
                sku = unfold new_product in refl;
                name = unfold new_product in refl;
                description = unfold new_product in refl;
                price = unfold new_product in refl;
                active = unfold new_product in refl;
                free = free;
                stored = refl;
                keyed = new_keyed payload id t k new free;
              };
            })
        | inr (e, run, inl why) ↦
            Ends-err _ _ t e t run (record { unchanged = same; cause = inr (free, inl why) })
        | inr (e, run, inr v) ↦ Ends-err _ _ t e t run (record {
          unchanged = same;
          cause = inr (free, violation_cases payload id t.session e v);
        })
      ]

  create_outcome :
      (payload : ProductCreate) (t : World)
      → IsCatalog t.session.products
      → t.committed ≡ t.session
      → Ends
          (λ p s'. Created payload t.session p s'.committed)
          (λ e s'. NotCreated payload t.session e s'.committed)
          (create_product payload t)
  unfolding create_product
  create_outcome payload t k same = elim (refuse_sku-cases payload.sku t k) [
    | inl (run, free) ↦ Ends-ok _ _ t tt t run (
        Ends-ok uuid4 _ t _ (record t { answers = t.answers + 1 }) refl
          (new_row_outcome payload (env.uuid4 t.answers) (record t { answers = t.answers + 1 }) k
            same free))
    | inr (run, used) ↦
        Ends-err _ _ t (app conflict) t run (record { unchanged = same; cause = inl (refl, used) })
  ]

  -- Where SKUs and ids are unique, a creation that returns has committed one new active product
  -- with the fields of the payload and a SKU that no product had, and SKUs and ids stay unique. One
  -- that raises commits nothing; it raises a conflict just if a product has the SKU.
  pub create_product_outcome :
      (payload : ProductCreate) (s : World)
      → IsCatalog s.committed.products
      → Ends
          (λ p s'. Created payload s.committed p s'.committed)
          (λ e s'. NotCreated payload s.committed e s'.committed)
          (with_session (create_product payload) s)
  unfolding with_session
  create_product_outcome payload s h = Ends-close _ (create_outcome payload (begin s) h refl)

inactive_row_outcome :
    (i : Uuid) (t : World) (old : Product)
    → IsCatalog t.session.products
    → find? (has_id product_model i) t.session.products ≡ some old
    → Ends
        (λ p s'. Deactivated i t.session p s'.committed)
        (λ e s'. Missing i t.session e s'.committed)
        ((do
          flush_product none (record old { is_active = false })
          commit
          pure (record old { is_active = false }))
          t)
inactive_row_outcome i t old k e =
    elim (flush_product-cases none (record old { is_active = false }) t own) [
      | inl (run, _) ↦ Ends-ok _ _ t tt _ run (
          unfold commit ◌>>=◌ in
          record {
            outcome = record {
              old = old;
              found = e;
              row = refl;
              stored = refl;
              keyed =
                  IsKeyed-replace (λ (x : Product). x.id) (λ x. x.sku)
                    (record old { is_active = false }) t.session.products own k;
            };
          })
      | inr (x, run, never) ↦ absurd (cc never)
    ]
  where
    own :
        taken
          (λ (x : Product). x.id)
          (λ x. x.sku)
          (record old { is_active = false })
          t.session.products
        ≡ false
    own =
        taken_own (λ (x : Product). x.id) (λ x. x.sku) i old (record old { is_active = false })
          t.session.products e k.keys refl refl

deactivate_outcome :
    (i : Uuid) (t : World)
    → IsCatalog t.session.products
    → t.committed ≡ t.session
    → Ends
        (λ p s'. Deactivated i t.session p s'.committed)
        (λ e s'. Missing i t.session e s'.committed)
        (deactivate_product i t)
unfolding deactivate_product
deactivate_outcome i t k same =
    elim (Option-cases (find? (has_id product_model i) t.session.products)) [
      | inl e ↦
          Ends-err _ _ t (app not_found) t (get_or_raise_missing product_model i t e)
            (record { unchanged = same; error = refl; missing = e })
      | inr (old, e) ↦
          Ends-ok _ _ t old t (get_or_raise_found product_model i t old e)
            (inactive_row_outcome i t old k e)
    ]

-- Where SKUs and ids are unique, a deactivation returns just if the product exists: then only its
-- `is_active` is changed, SKUs and ids stay unique, and no row is deleted. Else it raises that the
-- product is missing and commits nothing.
pub deactivate_product_outcome :
    (i : Uuid) (s : World)
    → IsCatalog s.committed.products
    → Ends
        (λ p s'. Deactivated i s.committed p s'.committed)
        (λ e s'. Missing i s.committed e s'.committed)
        (with_session (deactivate_product i) s)
unfolding with_session
deactivate_product_outcome i s h = Ends-close _ (deactivate_outcome i (begin s) h refl)
