-- ===== src/Repositories/Base.antt =====
-- app/repositories/base.py: the generic repository over a model of app/models/.
pub mod Lookup
use inventory_management_api.Base.{
  ℕ, ⊤, Bool, Option, none, some, List, ◌∷◌, true, false, ◌==◌, ltb, if◌then◌else◌,
}
use inventory_management_api.Base.Int.{ℤ, pos, pos_part, ltb_ℤ}
use inventory_management_api.Base.Rows.{any, find?, take, drop}
use inventory_management_api.Errors.{Error, app, integrity, data_error, not_found}
use inventory_management_api.Models.{Uuid, Tables}
use inventory_management_api.Session.{
  Env, Action, pure, raise, or_raise, read, raise_if, write, select, ◌>>=◌, ◌>>◌,
}

-- A model class: its table, its primary key, and the constraints that its columns declare.
pub record Model (R : Type 0) : Type 0 where
  pub rows : Tables → List R
  pub with_rows : List R → Tables → Tables
  pub id : R → Uuid
  -- What a flush of a new row violates, the primary key apart.
  pub violates : R → Tables → Option Error

abbrev pub has_id : {R : Type 0} → Model R → Uuid → R → Bool
has_id m id r = m.id r == id

module _ {R : Type 0} (model : Model R) where
  -- `BaseRepository.get_by_id`
  unfoldable pub get_by_id : Uuid → Action (Option R)
  get_by_id entity_id = read (λ t. find? (has_id model entity_id) (model.rows t))

  -- `BaseRepository.get_by_id_or_raise`
  unfoldable pub get_by_id_or_raise : Uuid → Action R
  unfolding get_by_id
  get_by_id_or_raise entity_id = do entity ← get_by_id entity_id; or_raise entity (app not_found)

  -- The flush of a new row: the primary key and the declared constraints are checked.
  abbrev flush_new : R → Action ⊤
  flush_new r s = raise_if (any (has_id model (model.id r)) (model.rows s.session)) integrity s

  abbrev check_new : R → Action ⊤
  check_new r s = elim (model.violates r s.session) [ none ↦ pure tt s | some e ↦ raise e s ]

  -- `BaseRepository.create`
  unfoldable pub create : R → Action R
  create entity = do
    flush_new entity
    check_new entity
    write (λ t. model.with_rows (entity ∷ model.rows t) t)
    pure entity

-- OFFSET and LIMIT: PostgreSQL refuses negative ones.
abbrev pub page : {A : Type 0} → ℤ → ℤ → List A → Action (List A)
page skip limit rows =
    if ltb_ℤ skip (pos 0)
    then raise data_error
    else if ltb_ℤ limit (pos 0)
    then raise data_error
    else pure (take (pos_part limit) (drop (pos_part skip) rows))

-- `BaseRepository.list_all`
unfoldable pub list_all : ⦃env : Env⦄ {R : Type 0} → Model R → (skip limit : ℤ) → Action (List R)
list_all model skip limit = do rows ← read model.rows; page skip limit (select (λ _. true) rows)
