-- ===== src/Repositories/Keyed.antt =====
-- Rows with a unique text besides their id: products with their SKU, warehouses with their code.
use Prim.Native.String.{String}
use text.Mathlib.Text.{◌==◌ as str_eq}
use text.Mathlib.TextEquality.{eq_iff}
use inventory_management_api.Base.{
  ◌≡◌, refl, Bool, true, false, not, ◌&&◌, some, List, [], ◌∷◌, ◌==◌, arith, inl, inr,
  if◌then◌else◌, Bool-cases,
}
use inventory_management_api.Base.Rows.{Distinct, AtMost, any, find?}
use inventory_management_api.Models.{Uuid}

module _ {R : Type 0} (id : R → Uuid) (key : R → String) where
  abbrev pub has_key : String → R → Bool
  has_key k r = str_eq (key r) k

  -- The UPDATE of one row.
  abbrev pub replace_row : R → List R → List R
  replace_row b [] = []
  replace_row b (x ∷ xs) = (if id x == id b then b else x) ∷ replace_row b xs

  -- Another row has the key.
  abbrev pub taken : R → List R → Bool
  taken b xs = any (λ r. str_eq (key r) (key b) && not (id r == id b)) xs

  -- Ids are unique, and so are the keys.
  pub record IsKeyed (xs : List R) : Type 0 where
    pub ids : Distinct (λ x r. id r == id x) xs
    pub keys : Distinct (λ x r. str_eq (key r) (key x)) xs

  AtMost-has_key_of :
      (xs : List R) (k : String) (x : R)
      → any (λ r. str_eq (key r) (key x)) xs ≡ false
      → has_key k x ≡ true
      → any (has_key k) xs ≡ false
  AtMost-has_key_of [] k x h e = refl
  AtMost-has_key_of (y ∷ ys) k x h e =
      ground (
        arith,
        AtMost-has_key_of ys k x,
        eq_iff (key x) k,
        eq_iff (key y) k,
        eq_iff (key y) (key x),
      )

  -- A query by key finds one row at most.
  pub AtMost-has_key :
      (xs : List R) (k : String)
      → Distinct (λ x r. str_eq (key r) (key x)) xs
      → AtMost (has_key k) xs
  AtMost-has_key [] k d = tt
  AtMost-has_key (x ∷ xs) k d = (AtMost-has_key_of xs k x d.0, AtMost-has_key xs k d.1)

  replace_row_other :
      (b : R) (xs : List R) → any (λ r. id r == id b) xs ≡ false → replace_row b xs ≡ xs
  replace_row_other b [] h = refl
  replace_row_other b (x ∷ xs) h = ground (arith, replace_row_other b xs)

  free_of_taken :
      (b : R) (xs : List R)
      → taken b xs ≡ false
      → any (λ r. id r == id b) xs ≡ false
      → any (λ r. str_eq (key r) (key b)) xs ≡ false
  free_of_taken b [] t n = refl
  free_of_taken b (x ∷ xs) t n = ground (arith, free_of_taken b xs)

  any-replace_key :
      (b x : R) (xs : List R)
      → any (λ r. str_eq (key r) (key x)) xs ≡ false
      → str_eq (key b) (key x) ≡ false
      → any (λ r. str_eq (key r) (key x)) (replace_row b xs) ≡ false
  any-replace_key b x [] h n = refl
  any-replace_key b x (y ∷ ys) h n = ground (arith, any-replace_key b x ys)

  any-replace_id :
      (b x : R) (xs : List R)
      → any (λ r. id r == id x) (replace_row b xs) ≡ any (λ r. id r == id x) xs
  any-replace_id b x [] = refl
  any-replace_id b x (y ∷ ys) = ground (arith, any-replace_id b x ys)

  any_same_id :
      (b x : R) (xs : List R)
      → (id x == id b) ≡ true
      → any (λ r. id r == id x) xs ≡ any (λ r. id r == id b) xs
  any_same_id b x [] e = refl
  any_same_id b x (y ∷ ys) e = ground (arith, any_same_id b x ys e)

  Distinct-replace_id :
      (b : R) (xs : List R)
      → Distinct (λ x r. id r == id x) xs
      → Distinct (λ x r. id r == id x) (replace_row b xs)
  Distinct-replace_id b [] d = tt
  Distinct-replace_id b (x ∷ xs) d = elim (Bool-cases (id x == id b)) [
    | inl e ↦
        ground (arith, any_same_id b x xs e, any-replace_id b b xs, Distinct-replace_id b xs d.1)
    | inr e ↦ ground (arith, any-replace_id b x xs, Distinct-replace_id b xs d.1)
  ]

  Distinct-replace_key :
      (b : R) (xs : List R)
      → Distinct (λ x r. id r == id x) xs
      → Distinct (λ x r. str_eq (key r) (key x)) xs
      → taken b xs ≡ false
      → Distinct (λ x r. str_eq (key r) (key x)) (replace_row b xs)
  Distinct-replace_key b [] i d t = tt
  Distinct-replace_key b (x ∷ xs) i d t = elim (Bool-cases (id x == id b)) [
    | inl e ↦ ground (
      arith,
      any_same_id b x xs e,
      replace_row_other b xs,
      free_of_taken b xs,
      eq_iff (key x) (key b),
    )
    | inr e ↦ ground (
      arith,
      any-replace_key b x xs,
      Distinct-replace_key b xs i.1 d.1,
      eq_iff (key x) (key b),
      eq_iff (key b) (key x),
    )
  ]

  -- An update whose key no other row has keeps ids and keys unique.
  pub IsKeyed-replace :
      (b : R) (xs : List R) → taken b xs ≡ false → IsKeyed xs → IsKeyed (replace_row b xs)
  IsKeyed-replace b xs t h = record {
    ids = Distinct-replace_id b xs h.ids;
    keys = Distinct-replace_key b xs h.ids h.keys t;
  }

  -- A key that no row has is not taken.
  pub taken_free : (b : R) (xs : List R) → any (has_key (key b)) xs ≡ false → taken b xs ≡ false
  taken_free b [] h = refl
  taken_free b (x ∷ xs) h = ground (arith, taken_free b xs)

  unlike :
      (q p : R → Bool) (xs : List R) (a : R) → find? p xs ≡ some a → any q xs ≡ false → q a ≡ false
  unlike q p [] a e h = cc
  unlike q p (x ∷ xs) a e h = ground (arith, unlike q p xs a)

  -- Nor is the key that a row has already.
  pub taken_own :
      (i : Uuid) (a b : R) (xs : List R)
      → find? (λ r. id r == i) xs ≡ some a
      → Distinct (λ x r. str_eq (key r) (key x)) xs
      → id b ≡ id a
      → key b ≡ key a
      → taken b xs ≡ false
  taken_own i a b [] e d same_id same_key = cc
  taken_own i a b (x ∷ xs) e d same_id same_key = elim (Bool-cases (id x == i)) [
    | inl y ↦ ground (arith, taken_free b xs)
    | inr n ↦ ground (
      arith,
      taken_own i a b xs,
      unlike (λ r. str_eq (key r) (key x)) (λ r. id r == i) xs a,
      eq_iff (key x) (key b),
      eq_iff (key a) (key x),
    )
  ]
