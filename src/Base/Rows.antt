-- ===== src/Base/Rows.antt =====
-- Lists of rows: what a SELECT without further clauses can be told from, and pages of it.
use mathlib.Core.List.{Permᴰ}
use Prim.Native.Nat.{ℕ, zero, suc, ◌≤◌}
use mathlib.Core.Path.{◌≡◌, refl, ◌∙◌, ap}
use mathlib.Core.Logic.{inl, inr}
use mathlib.Core.Bool.{Bool, true, false, ◌||◌}
use mathlib.Core.Option.{Option, none, some}
use mathlib.Core.List.{List, [], ◌∷◌}
use native.Mathlib.Omega.{arith}
use inventory_management_api.Base.Tests.{if◌then◌else◌, Bool-cases}

-- A list of at most one row, or the fact that there are more.
pub data AtMostOne (A : Type 0) : Type 0 where
  nothing : AtMostOne A
  one : A → AtMostOne A
  several : AtMostOne A

module _ {A : Type 0} where
  abbrev pub length : List A → ℕ
  length [] = 0
  length (x ∷ xs) = suc (length xs)

  abbrev pub take : ℕ → List A → List A
  take zero xs = []
  take (suc n) [] = []
  take (suc n) (x ∷ xs) = x ∷ take n xs

  abbrev pub drop : ℕ → List A → List A
  drop zero xs = xs
  drop (suc n) [] = []
  drop (suc n) (x ∷ xs) = drop n xs

  -- The rows that meet a condition, in their order.
  abbrev pub keep : (A → Bool) → List A → List A
  keep p [] = []
  keep p (x ∷ xs) = if p x then x ∷ keep p xs else keep p xs

  abbrev pub any : (A → Bool) → List A → Bool
  any p [] = false
  any p (x ∷ xs) = p x || any p xs

  -- The first row that meets a condition.
  abbrev pub find? : (A → Bool) → List A → Option A
  find? p [] = none
  find? p (x ∷ xs) = if p x then some x else find? p xs

  -- No two rows agree by `same`.
  abbrev pub Distinct : (A → A → Bool) → List A → Type 0
  Distinct same [] = Unit
  Distinct same (x ∷ xs) = (any (same x) xs ≡ false) × Distinct same xs

  -- No element has a larger key than one before it.
  abbrev pub IsDescending : (A → ℕ) → List A → Type 0
  IsDescending key [] = Unit
  IsDescending key (x ∷ []) = Unit
  IsDescending key (x ∷ y ∷ xs) = (key y ≤ key x) × IsDescending key (y ∷ xs)

  abbrev pub All : (A → Type 0) → List A → Type 0
  All P [] = Unit
  All P (x ∷ xs) = P x × All P xs

  abbrev pub count_rows : List A → AtMostOne A
  count_rows [] = nothing
  count_rows (x ∷ []) = one x
  count_rows (x ∷ y ∷ xs) = several

  count_rows-cons :
      (x : A) (xs ys : List A) → length xs ≡ length ys → count_rows (x ∷ xs) ≡ count_rows (x ∷ ys)
  count_rows-cons x [] [] e = refl
  count_rows-cons x [] (y ∷ ys) e = absurd (omega arith)
  count_rows-cons x (x' ∷ xs) [] e = absurd (omega arith)
  count_rows-cons x (x' ∷ xs) (y ∷ ys) e = refl

  pub length-perm : {xs ys : List A} → Permᴰ xs ys → length xs ≡ length ys
  length-perm Permᴰ.nil = refl
  length-perm (Permᴰ.cons e p) = ap suc (length-perm p)
  length-perm (Permᴰ.swap e f) = refl
  length-perm (Permᴰ.trans p q) = length-perm p ∙ length-perm q

  -- The order of the rows does not matter to a query for at most one row.
  pub count_rows-perm : {xs ys : List A} → Permᴰ xs ys → count_rows xs ≡ count_rows ys
  count_rows-perm Permᴰ.nil = refl
  count_rows-perm (Permᴰ.cons {a = a} {b = b} {l₁ = l₁} {l₂ = l₂} e p) =
      count_rows-cons a l₁ l₂ (length-perm p) ∙ ap (λ x. count_rows (x ∷ l₂)) e
  count_rows-perm (Permᴰ.swap e f) = refl
  count_rows-perm (Permᴰ.trans p q) = count_rows-perm p ∙ count_rows-perm q

  keep-eq-nil : (p : A → Bool) (xs : List A) → any p xs ≡ false → keep p xs ≡ []
  keep-eq-nil p [] h = refl
  keep-eq-nil p (x ∷ xs) h = ground (arith, keep-eq-nil p xs)

  pub any-eq-find : (p : A → Bool) (xs : List A) → find? p xs ≡ none → any p xs ≡ false
  any-eq-find p [] h = refl
  any-eq-find p (x ∷ xs) h = ground (arith, any-eq-find p xs)

  pub find-eq-none : (p : A → Bool) (xs : List A) → any p xs ≡ false → find? p xs ≡ none
  find-eq-none p [] h = refl
  find-eq-none p (x ∷ xs) h = ground (arith, find-eq-none p xs)

  -- At most one row meets the condition.
  abbrev pub AtMost : (A → Bool) → List A → Type 0
  AtMost p [] = Unit
  AtMost p (x ∷ xs) = (p x ≡ true → any p xs ≡ false) × AtMost p xs

  abbrev pub found : Option A → AtMostOne A
  found none = nothing
  found (some x) = one x

  -- A query that at most one row meets returns the first such row.
  pub count_rows-keep :
      (p : A → Bool) (xs : List A) → AtMost p xs → count_rows (keep p xs) ≡ found (find? p xs)
  count_rows-keep p [] h = refl
  count_rows-keep p (x ∷ xs) h = elim (Bool-cases (p x)) [
    | inl yes_x ↦ rw (yes_x, keep-eq-nil p xs (h.0 yes_x))
    | inr no_x ↦ rw no_x (count_rows-keep p xs h.1)
  ]

  pub find-holds : (p : A → Bool) (xs : List A) (x : A) → find? p xs ≡ some x → p x ≡ true
  find-holds p [] x h = cc
  find-holds p (y ∷ xs) x h = ground (arith, find-holds p xs x)

  pub any-find-some : (p : A → Bool) (xs : List A) (x : A) → find? p xs ≡ some x → any p xs ≡ true
  any-find-some p [] x h = cc
  any-find-some p (y ∷ xs) x h = ground (arith, any-find-some p xs x)
