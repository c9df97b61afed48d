-- ===== src/Services/Warehouse/Catalog.antt =====
-- The warehouses: their codes stay unique, and the services refuse just what they should.
use Prim.Native.String.{String}
use text.Mathlib.Text.{◌==◌ as str_eq}
use text.Mathlib.TextEquality.{eq_iff}
use inventory_management_api.Base.{
  ◌||◌, ◌≡◌, ◌≢◌, refl, ◌∙◌, ◌⊎◌, inl, inr, true, false, Option, none, some, List, arith,
  Bool-cases, is_some, Option-cases,
}
use inventory_management_api.Base.Rows.{
  any, find?, any-eq-find, any-find-some, count_rows, found, count_rows-keep, count_rows-perm,
}
use inventory_management_api.Errors.{Error, ok, err, app, conflict, not_found, integrity}
use inventory_management_api.Models.{Uuid, Warehouse, Tables}
use inventory_management_api.Schemas.Catalog.{
  WarehouseUpdate, Patch, unset, null, set, get, is_null, assign,
}
use inventory_management_api.Schemas.Catalog.Assigned.{
  Assigned, AssignedNullable, assign-Assigned, assign_nullable-Assigned, ne-null, eq-null,
}
use inventory_management_api.Session.{
  Env, World, select, raise_if, with_session, begin, commit, pure, ◌>>◌, ◌>>=◌,
}
use inventory_management_api.Session.Ends.{Ends, Ends-ok, Ends-err, Ends-close, bind-ok}
use inventory_management_api.Repositories.Base.{has_id}
use inventory_management_api.Repositories.Base.Lookup.{get_or_raise_found, get_or_raise_missing}
use inventory_management_api.Repositories.Keyed.{
  IsKeyed, IsKeyed-replace, AtMost-has_key, replace_row, taken, taken_free, taken_own,
}
use inventory_management_api.Repositories.Catalog.{
  warehouse_model, has_code, get_by_code, flush_warehouse,
}
use inventory_management_api.Services.Warehouse.{
  refuse_code, updated_warehouse, warehouse_fault, check_new_code, update_warehouse,
}

-- Codes and ids are unique.
abbrev pub IsCatalog : List Warehouse → Type 0
IsCatalog rows = IsKeyed (λ (x : Warehouse). x.id) (λ x. x.code) rows

abbrev pub with_warehouses : List Warehouse → Tables → Tables
with_warehouses rows t = record t { warehouses = rows }

abbrev pub put : Warehouse → List Warehouse → List Warehouse
put p rows = replace_row (λ (x : Warehouse). x.id) (λ x. x.code) p rows

-- A null in a column that takes none.
abbrev pub HasNull : WarehouseUpdate → Type 0
HasNull payload =
    (payload.name ≡ Patch.null) ⊎ ((payload.code ≡ Patch.null) ⊎ ((payload.is_active ≡ Patch.null)))

-- No column refuses what the payload gives it.
pub record IsValid (payload : WarehouseUpdate) : Type 0 where
  pub name : payload.name ≢ Patch.null
  pub code : payload.code ≢ Patch.null
  pub is_active : payload.is_active ≢ Patch.null

-- A column refuses what the payload gives it, with the error.
abbrev pub IsFault : WarehouseUpdate → Error → Type 0
IsFault payload e = (e ≡ integrity) × HasNull payload

IsValid-no_fault : (payload : WarehouseUpdate) → warehouse_fault payload ≡ none → IsValid payload
unfolding warehouse_fault
IsValid-no_fault payload h = record {
  name = ne-null payload.name (ground (arith, h));
  code = ne-null payload.code (ground (arith, h));
  is_active = ne-null payload.is_active (ground (arith, h));
}

HasNull-test :
    (payload : WarehouseUpdate)
    → (is_null payload.name || is_null payload.code || is_null payload.is_active) ≡ true
    → HasNull payload
HasNull-test payload h = elim (Bool-cases (is_null payload.name)) [
  | inl y ↦ inl (eq-null payload.name y)
  | inr no_name ↦ inr (elim (Bool-cases (is_null payload.code)) [
    | inl y ↦ inl (eq-null payload.code y)
    | inr no_code ↦ inr (eq-null payload.is_active (ground (arith, h, no_name, no_code)))
  ])
]

violated_lem :
    (payload : WarehouseUpdate) (e : Error) → warehouse_fault payload ≡ some e → IsFault payload e
unfolding warehouse_fault
violated_lem payload e h = (ground (arith, h), HasNull-test payload (ground (arith, h)))

-- The flush of an updated row whose code is not another row's.
pub flush_warehouse-cases :
    (fault : Option Error) (b : Warehouse) (s : World)
    → taken (λ (x : Warehouse). x.id) (λ x. x.code) b s.session.warehouses ≡ false
    → ((flush_warehouse fault b s
          ≡ (ok tt, record s { session = with_warehouses (put b s.session.warehouses) s.session }))
        × (fault ≡ none))
      ⊎ ((e : Error) × (flush_warehouse fault b s ≡ (err e, s)) × (fault ≡ some e))
unfolding flush_warehouse ◌>>=◌
flush_warehouse-cases none b s t = inl (rw t, refl)
flush_warehouse-cases (some e) b s t = inr (e, refl, refl)

module _ ⦃env : Env⦄ where
  code_lem :
      (code : String) (s : World)
      → IsCatalog s.session.warehouses
      → get_by_code code s ≡ (ok (find? (has_code code) s.session.warehouses), s)
  unfolding get_by_code ◌>>=◌
  code_lem code s h = elim (Option-cases (find? (has_code code) s.session.warehouses)) [
    | inl e ↦ ground (arith, one_row)
    | inr (x, e) ↦ ground (arith, one_row)
  ]
    where
      one_row :
          count_rows (select (has_code code) s.session.warehouses)
          ≡ found (find? (has_code code) s.session.warehouses)
      one_row =
          count_rows-perm (env.select_perm Warehouse (has_code code) s.session.warehouses)
          ∙ count_rows-keep (has_code code) s.session.warehouses (
              AtMost-has_key (λ (x : Warehouse). x.id) (λ x. x.code) s.session.warehouses code
                h.keys)

  -- A code is refused just if a row has it.
  pub refuse_code-cases :
      (code : String) (s : World)
      → IsCatalog s.session.warehouses
      → ((refuse_code code s ≡ (ok tt, s)) × (any (has_code code) s.session.warehouses ≡ false))
        ⊎ ((refuse_code code s ≡ (err (app conflict), s))
            × (any (has_code code) s.session.warehouses ≡ true))
  refuse_code-cases code s h = elim (Option-cases (find? (has_code code) s.session.warehouses)) [
    | inl e ↦ inl (steps ∙ rw e, any-eq-find (has_code code) s.session.warehouses e)
    | inr (x, e) ↦ inr (steps ∙ rw e, any-find-some (has_code code) s.session.warehouses x e)
  ]
    where
      steps :
          refuse_code code s
          ≡ raise_if (is_some (find? (has_code code) s.session.warehouses)) (app conflict) s
      steps = unfold refuse_code in bind-ok _ _ s _ s (code_lem code s h)

  -- What an update that returns has done.
  pub record Updated (i : Uuid) (payload : WarehouseUpdate) (before : Tables) (p : Warehouse)
      (after : Tables) : Type 0 where
    pub old : Warehouse
    pub found : find? (has_id warehouse_model i) before.warehouses ≡ some old
    pub id : p.id ≡ old.id
    pub code : Assigned payload.code old.code p.code
    pub name : Assigned payload.name old.name p.name
    pub is_active : Assigned payload.is_active old.is_active p.is_active
    pub address : AssignedNullable payload.address old.address p.address
    pub valid : IsValid payload
    pub stored : after ≡ with_warehouses (put p before.warehouses) before
    pub keyed : IsCatalog after.warehouses

  -- Why one raises: the warehouse is not there, a row has the new code, or a null is
  -- given for a column that takes none.
  pub record NotUpdated (i : Uuid) (payload : WarehouseUpdate) (before : Tables) (e : Error)
      (after : Tables) : Type 0 where
    pub unchanged : after ≡ before
    pub cause :
        ((e ≡ app not_found) × (find? (has_id warehouse_model i) before.warehouses ≡ none))
        ⊎ ((e ≡ app conflict)
            × ((new_code : String) × (payload.code ≡ Patch.set new_code)
                × (any (has_code new_code) before.warehouses ≡ true)))
        ⊎ IsFault payload e

  -- Behind the check of a new code, the code of the updated row is not another row's.
  pub check_new_code-cases :
      (i : Uuid) (k : Patch String) (old b : Warehouse) (s : World)
      → IsCatalog s.session.warehouses
      → find? (has_id warehouse_model i) s.session.warehouses ≡ some old
      → b.id ≡ old.id
      → b.code ≡ assign k old.code
      → ((check_new_code (get k) old s ≡ (ok tt, s))
          × (taken (λ (x : Warehouse). x.id) (λ x. x.code) b s.session.warehouses ≡ false))
        ⊎ ((check_new_code (get k) old s ≡ (err (app conflict), s))
            × ((new_code : String) × (k ≡ Patch.set new_code)
                × (any (has_code new_code) s.session.warehouses ≡ true)))
  unfolding check_new_code
  check_new_code-cases i unset old b s h e same_id same_code =
      inl (refl, taken_own _ _ i old b s.session.warehouses e h.keys same_id same_code)
  check_new_code-cases i null old b s h e same_id same_code =
      inl (refl, taken_own _ _ i old b s.session.warehouses e h.keys same_id same_code)
  check_new_code-cases i (set new_code) old b s h e same_id same_code =
      elim (Bool-cases (str_eq new_code old.code)) [
        | inl y ↦ inl (
          rw y,
          taken_own _ _ i old b s.session.warehouses e h.keys same_id
              (same_code ∙ (eq_iff new_code old.code).0 y),
        )
        | inr n ↦ elim (refuse_code-cases new_code s h) [
          | inl (run, free) ↦ inl (
            rw n run,
            taken_free (λ (x : Warehouse). x.id) (λ x. x.code) b s.session.warehouses
                (rw same_code free),
          )
          | inr (run, used) ↦ inr (rw n run, (new_code, refl, used))
        ]
      ]

  saved_outcome :
      (i : Uuid) (payload : WarehouseUpdate) (t : World) (old : Warehouse)
      → IsCatalog t.session.warehouses
      → t.committed ≡ t.session
      → find? (has_id warehouse_model i) t.session.warehouses ≡ some old
      → taken
          (λ (x : Warehouse). x.id)
          (λ x. x.code)
          (updated_warehouse payload old)
          t.session.warehouses
        ≡ false
      → Ends
          (λ p s'. Updated i payload t.session p s'.committed)
          (λ e s'. NotUpdated i payload t.session e s'.committed)
          ((do
            flush_warehouse (warehouse_fault payload) (updated_warehouse payload old)
            commit
            pure (updated_warehouse payload old))
            t)
  saved_outcome i payload t old k same e free =
      elim (flush_warehouse-cases (warehouse_fault payload) (updated_warehouse payload old) t
        free) [
          | inl (run, valid) ↦ Ends-ok _ _ t tt _ run (
              unfold commit ◌>>=◌ in
              record {
                outcome = record {
                  old = old;
                  found = e;
                  id = unfold updated_warehouse in refl;
                  code = unfold updated_warehouse in assign-Assigned payload.code old.code;
                  name = unfold updated_warehouse in assign-Assigned payload.name old.name;
                  is_active =
                      unfold updated_warehouse in assign-Assigned payload.is_active old.is_active;
                  address =
                      unfold updated_warehouse in
                      assign_nullable-Assigned payload.address old.address;
                  valid = IsValid-no_fault payload valid;
                  stored = refl;
                  keyed =
                      IsKeyed-replace (λ (x : Warehouse). x.id) (λ x. x.code)
                        (updated_warehouse payload old) t.session.warehouses free k;
                };
              })
          | inr (x, run, why) ↦
              Ends-err _ _ t x t run
                (record { unchanged = same; cause = inr (inr (violated_lem payload x why)) })
        ]

  update_outcome :
      (i : Uuid) (payload : WarehouseUpdate) (t : World)
      → IsCatalog t.session.warehouses
      → t.committed ≡ t.session
      → Ends
          (λ p s'. Updated i payload t.session p s'.committed)
          (λ e s'. NotUpdated i payload t.session e s'.committed)
          (update_warehouse i payload t)
  unfolding update_warehouse
  update_outcome i payload t k same =
      elim (Option-cases (find? (has_id warehouse_model i) t.session.warehouses)) [
        | inl e ↦
            Ends-err _ _ t (app not_found) t (get_or_raise_missing warehouse_model i t e)
              (record { unchanged = same; cause = inl (refl, e) })
        | inr (old, e) ↦
            Ends-ok _ _ t old t (get_or_raise_found warehouse_model i t old e)
              (elim (check_new_code-cases i payload.code old (updated_warehouse payload old) t k e
                (unfold updated_warehouse in refl) (unfold updated_warehouse in refl)) [
                  | inl (run, free) ↦
                      Ends-ok _ _ t tt t run (saved_outcome i payload t old k same e free)
                  | inr (run, why) ↦
                      Ends-err _ _ t (app conflict) t run
                        (record { unchanged = same; cause = inr (inl (refl, why)) })
                ])
      ]

  -- Where codes and ids are unique, an update that returns has changed just the fields that it names
  -- of the one warehouse, and codes and ids stay unique. One that raises commits nothing; it raises
  -- for a missing warehouse, for a code in the payload that a warehouse has, or for a null in a
  -- column that takes none, and never for the constraint on codes.
  pub update_warehouse_outcome :
      (i : Uuid) (payload : WarehouseUpdate) (s : World)
      → IsCatalog s.committed.warehouses
      → Ends
          (λ p s'. Updated i payload s.committed p s'.committed)
          (λ e s'. NotUpdated i payload s.committed e s'.committed)
          (with_session (update_warehouse i payload) s)
  unfolding with_session
  update_warehouse_outcome i payload s h = Ends-close _ (update_outcome i payload (begin s) h refl)
