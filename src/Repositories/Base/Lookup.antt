-- ===== src/Repositories/Base/Lookup.antt =====
-- What a lookup by primary key returns, by whether the row is there.
use inventory_management_api.Base.{
  ◌≡◌, refl, ◌⊎◌, inl, inr, false, none, some, ◌∷◌, arith, Bool-cases, Option-cases,
}
use inventory_management_api.Base.Rows.{find?, any}
use inventory_management_api.Errors.{Error, integrity, ok, err, app, not_found}
use inventory_management_api.Models.{Uuid}
use inventory_management_api.Session.{World, ◌>>=◌}
use inventory_management_api.Repositories.Base.{Model, has_id, get_by_id_or_raise, create}

module _ {R : Type 0} (m : Model R) (i : Uuid) (s : World) where
  pub get_or_raise_missing :
      find? (has_id m i) (m.rows s.session) ≡ none
      → get_by_id_or_raise m i s ≡ (err (app not_found), s)
  unfolding get_by_id_or_raise ◌>>=◌
  get_or_raise_missing e = ground arith

  pub get_or_raise_found :
      (x : R)
      → find? (has_id m i) (m.rows s.session) ≡ some x
      → get_by_id_or_raise m i s ≡ (ok x, s)
  unfolding get_by_id_or_raise ◌>>=◌
  get_or_raise_found x e = ground arith

-- The state behind a successful `create`.
abbrev pub inserted : {R : Type 0} → Model R → R → World → World
inserted m r s = record s { session = m.with_rows (r ∷ m.rows s.session) s.session }

-- The row was new, and violated nothing.
pub record IsNew {R : Type 0} (m : Model R) (r : R) (s : World) : Type 0 where
  pub new_id : any (has_id m (m.id r)) (m.rows s.session) ≡ false
  pub allowed : m.violates r s.session ≡ none

-- `create` adds the row, or raises and changes nothing.
pub create-cases :
    {R : Type 0} (m : Model R) (r : R) (s : World)
    → ((create m r s ≡ (ok r, inserted m r s)) × IsNew m r s)
      ⊎ ((e : Error) × (create m r s ≡ (err e, s))
          × ((e ≡ integrity) ⊎ (m.violates r s.session ≡ some e)))
unfolding create ◌>>=◌
create-cases m r s = elim (Bool-cases (any (has_id m (m.id r)) (m.rows s.session))) [
  | inl old ↦ inr (integrity, ground arith, inl refl)
  | inr fresh ↦ elim (Option-cases (m.violates r s.session)) [
    | inl none_violated ↦ inl (ground arith, record { new_id = fresh; allowed = none_violated })
    | inr (e, violated) ↦ inr (e, ground arith, inr violated)
  ]
]
