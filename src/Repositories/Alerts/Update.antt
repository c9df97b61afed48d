-- ===== src/Repositories/Alerts/Update.antt =====
-- How the UPDATE of an alert that a query found acts on what queries find.
use inventory_management_api.Base.{
  ◌≡◌, refl, ◌∙◌, Bool, true, false, none, some, List, [], ◌∷◌, ◌==◌, arith, inl, inr, Bool-cases,
}
use inventory_management_api.Base.Rows.{Distinct, AtMost, any, find?, find-eq-none}
use inventory_management_api.Models.{Uuid, Alert}
use inventory_management_api.Repositories.Alerts.{replace_alert, active_of_pair}

abbrev pub same_alert : Alert → Alert → Bool
same_alert x a = a.id == x.id

-- Alerts have their own ids, and a pair has one active alert at most.
pub record IsConsistent (alerts : List Alert) : Type 0 where
  pub ids : Distinct same_alert alerts
  pub single : (p w : Uuid) → AtMost (active_of_pair p w) alerts

replace_other :
    (b : Alert) (xs : List Alert)
    → any (λ (a : Alert). a.id == b.id) xs ≡ false
    → replace_alert b xs ≡ xs
replace_other b [] h = refl
replace_other b (x ∷ xs) h = ground (arith, replace_other b xs)

find_other_id :
    (q : Alert → Bool) (xs : List Alert) (a : Alert) (i : Uuid)
    → find? q xs ≡ some a
    → any (λ (x : Alert). x.id == i) xs ≡ false
    → (i == a.id) ≡ false
find_other_id q [] a i e h = cc
find_other_id q (x ∷ xs) a i e h = ground (arith, find_other_id q xs a i)

-- `b` is the new state of `a`, the first alert that meets `q`.
module _ (q : Alert → Bool) (a b : Alert) (same : b.id ≡ a.id) where
  pub find-replace :
      (xs : List Alert)
      → Distinct same_alert xs
      → find? q xs ≡ some a
      → q b ≡ true
      → find? q (replace_alert b xs) ≡ some b
  find-replace [] d e h = cc
  find-replace (x ∷ xs) d e h = elim (Bool-cases (q x)) [
    | inl y ↦ ground arith
    | inr n ↦ ground (arith, find-replace xs d.1, find_other_id q xs a x.id)
  ]

  pub find-replace_others :
      (r : Alert → Bool) (xs : List Alert)
      → Distinct same_alert xs
      → find? q xs ≡ some a
      → r a ≡ false
      → r b ≡ false
      → find? r (replace_alert b xs) ≡ find? r xs
  find-replace_others r [] d e h k = refl
  find-replace_others r (x ∷ xs) d e h k = elim (Bool-cases (q x)) [
    | inl y ↦ ground (arith, replace_other b xs)
    | inr n ↦ ground (arith, find-replace_others r xs d.1, find_other_id q xs a x.id)
  ]

  pub find-replace_gone :
      (xs : List Alert)
      → Distinct same_alert xs
      → AtMost q xs
      → find? q xs ≡ some a
      → q b ≡ false
      → find? q (replace_alert b xs) ≡ none
  find-replace_gone [] d m e h = cc
  find-replace_gone (x ∷ xs) d m e h = elim (Bool-cases (q x)) [
    | inl y ↦ ground (arith, replace_other b xs, find-eq-none q xs)
    | inr n ↦ ground (arith, find-replace_gone xs d.1 m.1, find_other_id q xs a x.id)
  ]

  any-replace :
      (r : Alert → Bool) (xs : List Alert)
      → (r b ≡ true → r a ≡ true)
      → find? q xs ≡ some a
      → Distinct same_alert xs
      → any r xs ≡ false
      → any r (replace_alert b xs) ≡ false
  any-replace r [] i e d h = refl
  any-replace r (x ∷ xs) i e d h = elim (Bool-cases (q x)) [
    | inl y ↦ ground (arith, replace_other b xs)
    | inr n ↦ ground (arith, any-replace r xs i, find_other_id q xs a x.id)
  ]

  AtMost-replace :
      (r : Alert → Bool) (xs : List Alert)
      → (r b ≡ true → r a ≡ true)
      → find? q xs ≡ some a
      → Distinct same_alert xs
      → AtMost r xs
      → AtMost r (replace_alert b xs)
  AtMost-replace r [] i e d h = tt
  AtMost-replace r (x ∷ xs) i e d h = elim (Bool-cases (q x)) [
    | inl y ↦ ground (arith, replace_other b xs)
    | inr n ↦ ground (arith, AtMost-replace r xs i, any-replace r xs i, find_other_id q xs a x.id)
  ]

any-replace_id :
    (b : Alert) (xs : List Alert) (y : Alert)
    → any (same_alert y) (replace_alert b xs) ≡ any (same_alert y) xs
any-replace_id b [] y = refl
any-replace_id b (x ∷ xs) y = ground (arith, any-replace_id b xs y)

Distinct-replace :
    (b : Alert) (xs : List Alert)
    → Distinct same_alert xs
    → Distinct same_alert (replace_alert b xs)
Distinct-replace b [] d = tt
Distinct-replace b (x ∷ xs) d = elim (Bool-cases (x.id == b.id)) [
  | inl e ↦
      rw e (
        any_own x b (replace_alert b xs) e ∙ any-replace_id b xs x ∙ d.0,
        Distinct-replace b xs d.1,
      )
  | inr e ↦ rw e (any-replace_id b xs x ∙ d.0, Distinct-replace b xs d.1)
]
  where
    any_own :
        (x b : Alert) (ys : List Alert)
        → (x.id == b.id) ≡ true
        → any (same_alert b) ys ≡ any (same_alert x) ys
    any_own x b [] e = refl
    any_own x b (y ∷ ys) e = ground (arith, any_own x b ys e)

-- The new state of an alert is active for a pair only if the old state was.
pub IsConsistent-replace :
    (p w : Uuid) (a b : Alert) (xs : List Alert)
    → b.id ≡ a.id
    → ((p' w' : Uuid) → active_of_pair p' w' b ≡ true → active_of_pair p' w' a ≡ true)
    → find? (active_of_pair p w) xs ≡ some a
    → IsConsistent xs
    → IsConsistent (replace_alert b xs)
IsConsistent-replace p w a b xs same i e h = record {
  ids = Distinct-replace b xs h.ids;
  single = λ p' w'.
      AtMost-replace (active_of_pair p w) a b same (active_of_pair p' w') xs (i p' w') e h.ids
        (h.single p' w');
}
