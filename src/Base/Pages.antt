-- ===== src/Base/Pages.antt =====
-- Lemmas on the pages of a list: how long they are, and what holds of all their rows.
use mathlib.Core.List.{Permᴰ}
use mathlib.Core.List.Permᴰ
use Prim.Native.Nat.{ℕ, zero, suc, ◌-◌, ◌≤◌}
use mathlib.Core.Path.{◌≡◌, refl, ap, sym, subst}
use mathlib.Core.Logic.{◌⊎◌, inl, inr}
use mathlib.Core.Bool.{Bool, true, false, not}
use mathlib.Core.List.{List, [], ◌∷◌, ◌++◌}
use native.Mathlib.Omega.{arith}
use inventory_management_api.Base.Tests.{leb, Bool-cases}
use inventory_management_api.Base.Rows.{All, length, take, drop, keep}

module _ {A : Type 0} (P : A → Type 0) where
  pub All-take : (n : ℕ) (xs : List A) → All P xs → All P (take n xs)
  All-take zero xs h = tt
  All-take (suc n) [] h = tt
  All-take (suc n) (x ∷ xs) h = (h.0, All-take n xs h.1)

  pub All-drop : (n : ℕ) (xs : List A) → All P xs → All P (drop n xs)
  All-drop zero xs h = h
  All-drop (suc n) [] h = tt
  All-drop (suc n) (x ∷ xs) h = All-drop n xs h.1

pub length-drop : {A : Type 0} (n : ℕ) (xs : List A) → length (drop n xs) ≡ length xs - n
length-drop zero xs = omega arith
length-drop (suc n) [] = omega arith
length-drop (suc n) (x ∷ xs) = omega (arith, length-drop n xs)

pub length-take : {A : Type 0} (n : ℕ) (xs : List A) → length (take n xs) ≤ n
length-take zero xs = omega arith
length-take (suc n) [] = omega arith
length-take (suc n) (x ∷ xs) = omega (arith, length-take n xs)

pub length-take_all :
    {A : Type 0} (n : ℕ) (xs : List A) → length xs ≤ n → length (take n xs) ≡ length xs
length-take_all zero [] h = refl
length-take_all zero (x ∷ xs) h = absurd (omega arith)
length-take_all (suc n) [] h = refl
length-take_all (suc n) (x ∷ xs) h = omega (arith, length-take_all n xs)

pub length-take_full : {A : Type 0} (n : ℕ) (xs : List A) → n ≤ length xs → length (take n xs) ≡ n
length-take_full zero xs h = refl
length-take_full (suc n) [] h = absurd (omega arith)
length-take_full (suc n) (x ∷ xs) h = omega (arith, length-take_full n xs)

pub le_total : (a b : ℕ) → (a ≤ b) ⊎ (b ≤ a)
le_total a b = elim (Bool-cases (leb a b)) [
  | inl y ↦ inl (ground arith)
  | inr n ↦ inr (ground arith)
]

pub length-keep_all : {A : Type 0} (xs : List A) → length (keep (λ _. true) xs) ≡ length xs
length-keep_all [] = refl
length-keep_all (x ∷ xs) = ap suc (length-keep_all xs)

pub All-perm : {A : Type 0} (P : A → Type 0) {xs ys : List A} → Permᴰ xs ys → All P ys → All P xs
All-perm P Permᴰ.nil h = h
All-perm P (Permᴰ.cons e p) h = (subst P (sym e) h.0, All-perm P p h.1)
All-perm P (Permᴰ.swap e f) h = (subst P (sym e) h.1.0, (subst P (sym f) h.0, h.1.1))
All-perm P (Permᴰ.trans p q) h = All-perm P p (All-perm P q h)

-- The elements of `xs` that meet `P`, in some order: the others meet `Q`.
pub record Picks {A : Type 0} (P Q : A → Type 0) (xs picked : List A) : Type 0 where
  pub others : List A
  pub split : Permᴰ (picked ++ others) xs
  pub meet : All P picked
  pub fail : All Q others

module _ {A : Type 0} (p : A → Bool) where
  keep_split : (xs : List A) → Permᴰ (keep p xs ++ keep (λ x. not (p x)) xs) xs
  keep_split [] = Permᴰ.nil
  keep_split (x ∷ xs) = elim (Bool-cases (p x)) [
    | inl y ↦ rw y (Permᴰ.cons refl (keep_split xs))
    | inr n ↦ rw n (
        Permᴰ.trans (Permᴰ.middle x (keep p xs) (keep (λ x. not (p x)) xs))
          (Permᴰ.cons refl (keep_split xs)))
  ]

  keep-All : (P : A → Type 0) → ((a : A) → p a ≡ true → P a) → (xs : List A) → All P (keep p xs)
  keep-All P h [] = tt
  keep-All P h (x ∷ xs) = elim (Bool-cases (p x)) [
    | inl y ↦ rw y (h x y, keep-All P h xs)
    | inr n ↦ rw n (keep-All P h xs)
  ]

  keep_not-All :
      (Q : A → Type 0)
      → ((a : A) → p a ≡ false → Q a)
      → (xs : List A) → All Q (keep (λ x. not (p x)) xs)
  keep_not-All Q h [] = tt
  keep_not-All Q h (x ∷ xs) = elim (Bool-cases (p x)) [
    | inl y ↦ rw y (keep_not-All Q h xs)
    | inr n ↦ rw n (h x n, keep_not-All Q h xs)
  ]

  -- What a filter keeps, reordered.
  pub keep-Picks :
      (P Q : A → Type 0)
      → ((a : A) → p a ≡ true → P a)
      → ((a : A) → p a ≡ false → Q a)
      → (xs picked : List A) → Permᴰ picked (keep p xs)
      → Picks P Q xs picked
  keep-Picks P Q h k xs picked perm = record {
    others = keep (λ x. not (p x)) xs;
    split = Permᴰ.trans (Permᴰ.append_right (keep (λ x. not (p x)) xs) perm) (keep_split xs);
    meet = All-perm P perm (keep-All P h xs);
    fail = keep_not-All Q k xs;
  }
