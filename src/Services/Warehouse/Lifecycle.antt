-- ===== src/Services/Warehouse/Lifecycle.antt =====
-- Creation and deactivation of warehouses.
use inventory_management_api.Base.{
  ◌≡◌, refl, ◌⊎◌, inl, inr, true, false, none, some, ◌∷◌, arith, Option-cases, ◌+◌,
}
use inventory_management_api.Base.Rows.{any, find?}
use inventory_management_api.Errors.{Error, app, conflict, not_found, integrity}
use inventory_management_api.Models.{Uuid, Warehouse, Tables}
use inventory_management_api.Schemas.Catalog.{WarehouseCreate}
use inventory_management_api.Session.{
  Env, World, with_session, begin, commit, pure, uuid4, ◌>>=◌, ◌>>◌,
}
use inventory_management_api.Session.Ends.{Ends, Ends-ok, Ends-err, Ends-close}
use inventory_management_api.Repositories.Base.{has_id, create}
use inventory_management_api.Repositories.Base.Lookup.{
  get_or_raise_found, get_or_raise_missing, create-cases, IsNew,
}
use inventory_management_api.Repositories.Keyed.{IsKeyed-replace, taken, taken_own}
use inventory_management_api.Repositories.Catalog.{
  warehouse_model, warehouse_violates, has_code, flush_warehouse,
}
use inventory_management_api.Services.Warehouse.{
  new_warehouse, create_warehouse, deactivate_warehouse,
}
use inventory_management_api.Services.Warehouse.Catalog.{
  IsCatalog, with_warehouses, put, refuse_code-cases, flush_warehouse-cases,
}

-- What a creation that returns has done.
pub record Created (payload : WarehouseCreate) (before : Tables) (p : Warehouse) (after : Tables)
    : Type 0 where
  pub code : p.code ≡ payload.code
  pub name : p.name ≡ payload.name
  pub address : p.address ≡ payload.address
  pub active : p.is_active ≡ true
  pub free : any (has_code payload.code) before.warehouses ≡ false
  pub stored : after ≡ with_warehouses (p ∷ before.warehouses) before
  pub keyed : IsCatalog after.warehouses

-- Why one raises: a warehouse has the code, or another row has the new id.
pub record NotCreated (payload : WarehouseCreate) (before : Tables) (e : Error) (after : Tables)
    : Type 0 where
  pub unchanged : after ≡ before
  pub cause :
      ((e ≡ app conflict) × (any (has_code payload.code) before.warehouses ≡ true))
      ⊎ ((any (has_code payload.code) before.warehouses ≡ false) × (e ≡ integrity))

-- What a deactivation that returns has done.
pub record Deactivated (i : Uuid) (before : Tables) (p : Warehouse) (after : Tables) : Type 0 where
  pub old : Warehouse
  pub found : find? (has_id warehouse_model i) before.warehouses ≡ some old
  pub row : p ≡ record old { is_active = false }
  pub stored : after ≡ with_warehouses (put p before.warehouses) before
  pub keyed : IsCatalog after.warehouses

pub record Missing (i : Uuid) (before : Tables) (e : Error) (after : Tables) : Type 0 where
  pub unchanged : after ≡ before
  pub error : e ≡ app not_found
  pub missing : find? (has_id warehouse_model i) before.warehouses ≡ none

module _ ⦃env : Env⦄ where
  violation_cases :
      (payload : WarehouseCreate) (id : Uuid) (t : Tables) (e : Error)
      → warehouse_violates (new_warehouse payload id) t ≡ some e
      → e ≡ integrity
  unfolding warehouse_violates new_warehouse
  violation_cases payload id t e v = ground arith

  new_keyed :
      (payload : WarehouseCreate) (id : Uuid) (s : World)
      → IsCatalog s.session.warehouses
      → IsNew warehouse_model (new_warehouse payload id) s
      → any (has_code payload.code) s.session.warehouses ≡ false
      → IsCatalog (new_warehouse payload id ∷ s.session.warehouses)
  unfolding new_warehouse
  new_keyed payload id s k new free = record { ids = (new.new_id, k.ids); keys = (free, k.keys) }

  new_row_outcome :
      (payload : WarehouseCreate) (id : Uuid) (t : World)
      → IsCatalog t.session.warehouses
      → t.committed ≡ t.session
      → any (has_code payload.code) t.session.warehouses ≡ false
      → Ends
          (λ p s'. Created payload t.session p s'.committed)
          (λ e s'. NotCreated payload t.session e s'.committed)
          ((do
            warehouse ← create warehouse_model (new_warehouse payload id)
            commit
            pure warehouse)
            t)
  new_row_outcome payload id t k same free =
      elim (create-cases warehouse_model (new_warehouse payload id) t) [
        | inl (run, new) ↦ Ends-ok _ _ t (new_warehouse payload id) _ run (
            unfold commit ◌>>=◌ in
            record {
              outcome = record {
                code = unfold new_warehouse in refl;
                name = unfold new_warehouse in refl;
                address = unfold new_warehouse in refl;
                active = unfold new_warehouse in refl;
                free = free;
                stored = refl;
                keyed = new_keyed payload id t k new free;
              };
            })
        | inr (e, run, inl why) ↦
            Ends-err _ _ t e t run (record { unchanged = same; cause = inr (free, why) })
        | inr (e, run, inr v) ↦ Ends-err _ _ t e t run (record {
          unchanged = same;
          cause = inr (free, violation_cases payload id t.session e v);
        })
      ]

  create_outcome :
      (payload : WarehouseCreate) (t : World)
      → IsCatalog t.session.warehouses
      → t.committed ≡ t.session
      → Ends
          (λ p s'. Created payload t.session p s'.committed)
          (λ e s'. NotCreated payload t.session e s'.committed)
          (create_warehouse payload t)
  unfolding create_warehouse
  create_outcome payload t k same = elim (refuse_code-cases payload.code t k) [
    | inl (run, free) ↦ Ends-ok _ _ t tt t run (
        Ends-ok uuid4 _ t _ (record t { answers = t.answers + 1 }) refl
          (new_row_outcome payload (env.uuid4 t.answers) (record t { answers = t.answers + 1 }) k
            same free))
    | inr (run, used) ↦
        Ends-err _ _ t (app conflict) t run (record { unchanged = same; cause = inl (refl, used) })
  ]

  -- Where codes and ids are unique, a creation that returns has committed one new active warehouse
  -- with the fields of the payload and a code that no warehouse had, and codes and ids stay unique. One
  -- that raises commits nothing; it raises a conflict just if a warehouse has the code.
  pub create_warehouse_outcome :
      (payload : WarehouseCreate) (s : World)
      → IsCatalog s.committed.warehouses
      → Ends
          (λ p s'. Created payload s.committed p s'.committed)
          (λ e s'. NotCreated payload s.committed e s'.committed)
          (with_session (create_warehouse payload) s)
  unfolding with_session
  create_warehouse_outcome payload s h = Ends-close _ (create_outcome payload (begin s) h refl)

inactive_row_outcome :
    (i : Uuid) (t : World) (old : Warehouse)
    → IsCatalog t.session.warehouses
    → find? (has_id warehouse_model i) t.session.warehouses ≡ some old
    → Ends
        (λ p s'. Deactivated i t.session p s'.committed)
        (λ e s'. Missing i t.session e s'.committed)
        ((do
          flush_warehouse none (record old { is_active = false })
          commit
          pure (record old { is_active = false }))
          t)
inactive_row_outcome i t old k e =
    elim (flush_warehouse-cases none (record old { is_active = false }) t own) [
      | inl (run, _) ↦ Ends-ok _ _ t tt _ run (
          unfold commit ◌>>=◌ in
          record {
            outcome = record {
              old = old;
              found = e;
              row = refl;
              stored = refl;
              keyed =
                  IsKeyed-replace (λ (x : Warehouse). x.id) (λ x. x.code)
                    (record old { is_active = false }) t.session.warehouses own k;
            };
          })
      | inr (x, run, never) ↦ absurd (cc never)
    ]
  where
    own :
        taken
          (λ (x : Warehouse). x.id)
          (λ x. x.code)
          (record old { is_active = false })
          t.session.warehouses
        ≡ false
    own =
        taken_own (λ (x : Warehouse). x.id) (λ x. x.code) i old (record old { is_active = false })
          t.session.warehouses e k.keys refl refl

deactivate_outcome :
    (i : Uuid) (t : World)
    → IsCatalog t.session.warehouses
    → t.committed ≡ t.session
    → Ends
        (λ p s'. Deactivated i t.session p s'.committed)
        (λ e s'. Missing i t.session e s'.committed)
        (deactivate_warehouse i t)
unfolding deactivate_warehouse
deactivate_outcome i t k same =
    elim (Option-cases (find? (has_id warehouse_model i) t.session.warehouses)) [
      | inl e ↦
          Ends-err _ _ t (app not_found) t (get_or_raise_missing warehouse_model i t e)
            (record { unchanged = same; error = refl; missing = e })
      | inr (old, e) ↦
          Ends-ok _ _ t old t (get_or_raise_found warehouse_model i t old e)
            (inactive_row_outcome i t old k e)
    ]

-- Where codes and ids are unique, a deactivation returns just if the warehouse exists: then only its
-- `is_active` is changed, codes and ids stay unique, and no row is deleted. Else it raises that the
-- warehouse is missing and commits nothing.
pub deactivate_warehouse_outcome :
    (i : Uuid) (s : World)
    → IsCatalog s.committed.warehouses
    → Ends
        (λ p s'. Deactivated i s.committed p s'.committed)
        (λ e s'. Missing i s.committed e s'.committed)
        (with_session (deactivate_warehouse i) s)
unfolding with_session
deactivate_warehouse_outcome i s h = Ends-close _ (deactivate_outcome i (begin s) h refl)
