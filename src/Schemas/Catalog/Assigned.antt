-- ===== src/Schemas/Catalog/Assigned.antt =====
-- What an update must make of a field, by what its payload says of it.
use inventory_management_api.Base.{◌≡◌, ◌≢◌, refl, subst, Bool, true, false, Option, none, some}
use inventory_management_api.Schemas.Catalog.{
  Patch, unset, null, set, is_null, all_set, assign, assign_nullable,
}

module _ {A : Type 0} where
  -- A field that is not in the payload keeps its value, and one that is has the given one.
  pub record Assigned (field : Patch A) (old new : A) : Type 0 where
    pub kept : field ≡ Patch.unset → new ≡ old
    pub given : (a : A) → field ≡ Patch.set a → new ≡ a

  pub record AssignedNullable (field : Patch A) (old new : Option A) : Type 0 where
    pub kept : field ≡ Patch.unset → new ≡ old
    pub cleared : field ≡ Patch.null → new ≡ none
    pub given : (a : A) → field ≡ Patch.set a → new ≡ some a

  pub assign-Assigned : (field : Patch A) (old : A) → Assigned field old (assign field old)
  assign-Assigned field old = record { kept = λ e. rw e refl; given = λ a e. rw e refl }

  pub assign_nullable-Assigned :
      (field : Patch A) (old : Option A) → AssignedNullable field old (assign_nullable field old)
  assign_nullable-Assigned field old = record {
    kept = λ e. rw e refl;
    cleared = λ e. rw e refl;
    given = λ a e. rw e refl;
  }

  pub ne-null : (field : Patch A) → is_null field ≡ false → field ≢ Patch.null
  ne-null unset h e = cc
  ne-null null h e = cc
  ne-null (set a) h e = cc

  pub eq-null : (field : Patch A) → is_null field ≡ true → field ≡ Patch.null
  eq-null unset h = cc
  eq-null null h = refl
  eq-null (set a) h = cc

  pub all_set-holds :
      (field : Patch A) (p : A → Bool)
      → all_set field p ≡ true
      → (a : A) → field ≡ Patch.set a
      → p a ≡ true
  all_set-holds field p h a e = subst (λ (x : Patch A). all_set x p ≡ true) e h

  pub all_set-fails :
      (field : Patch A) (p : A → Bool)
      → all_set field p ≡ false
      → (a : A) × ((field ≡ Patch.set a) × (p a ≡ false))
  all_set-fails unset p h = absurd (cc h)
  all_set-fails null p h = absurd (cc h)
  all_set-fails (set a) p h = (a, (refl, h))
