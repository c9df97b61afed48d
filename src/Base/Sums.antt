-- ===== src/Base/Sums.antt =====
-- Sums over lists, and the sum over groups.
use mathlib.Core.List.{Permᴰ}
use mathlib.Core.Path.{◌≡◌, refl, ap, sym, ◌∙◌}
use mathlib.Core.Logic.{inl, inr}
use mathlib.Core.Bool.{Bool, true, false}
use mathlib.Core.List.{List, [], ◌∷◌}
use native.Mathlib.Omega.{arith}
use Prim.Native.Nat.{ℕ}
use inventory_management_api.Base.Tests.{if◌then◌else◌, ◌==◌, ==_iff, Bool-cases}
use inventory_management_api.Base.Int.{ℤ, pos, ◌+ℤ◌, +ℤ_parts, eq_of_parts}
use inventory_management_api.Base.Rows.{keep, any, Distinct, All}

pub +ℤ_zero_left : (a : ℤ) → pos 0 +ℤ a ≡ a
+ℤ_zero_left a = eq_of_parts (pos 0 +ℤ a) a (omega (arith, +ℤ_parts))

pub +ℤ_zero_right : (a : ℤ) → a +ℤ pos 0 ≡ a
+ℤ_zero_right a = eq_of_parts (a +ℤ pos 0) a (omega (arith, +ℤ_parts))

+ℤ_swap : (a b c : ℤ) → a +ℤ (b +ℤ c) ≡ b +ℤ (a +ℤ c)
+ℤ_swap a b c = eq_of_parts (a +ℤ (b +ℤ c)) (b +ℤ (a +ℤ c)) (omega (arith, +ℤ_parts))

+ℤ_pairs : (a b c d : ℤ) → (a +ℤ b) +ℤ (c +ℤ d) ≡ (a +ℤ c) +ℤ (b +ℤ d)
+ℤ_pairs a b c d =
    eq_of_parts ((a +ℤ b) +ℤ (c +ℤ d)) ((a +ℤ c) +ℤ (b +ℤ d)) (omega (arith, +ℤ_parts))

module _ {A : Type 0} where
  abbrev pub sum_of : (A → ℤ) → List A → ℤ
  sum_of f [] = pos 0
  sum_of f (x ∷ xs) = f x +ℤ sum_of f xs

  -- How many meet a test.
  abbrev pub count_if : (A → Bool) → List A → ℤ
  count_if p xs = sum_of (λ x. if p x then pos 1 else pos 0) xs

  pub sum_of-perm : (f : A → ℤ) {xs ys : List A} → Permᴰ xs ys → sum_of f xs ≡ sum_of f ys
  sum_of-perm f Permᴰ.nil = refl
  sum_of-perm f (Permᴰ.cons e p) = rw (e, sum_of-perm f p)
  sum_of-perm f (Permᴰ.swap e g) = rw (e, g) (+ℤ_swap _ _ _)
  sum_of-perm f (Permᴰ.trans p q) = sum_of-perm f p ∙ sum_of-perm f q

  sum_of-zero : (xs : List A) → sum_of (λ _. pos 0) xs ≡ pos 0
  sum_of-zero [] = refl
  sum_of-zero (x ∷ xs) = +ℤ_zero_left _ ∙ sum_of-zero xs

  pub sum_of-same : (f g : A → ℤ) (xs : List A) → ((a : A) → f a ≡ g a) → sum_of f xs ≡ sum_of g xs
  sum_of-same f g [] h = refl
  sum_of-same f g (x ∷ xs) h = rw (h x, sum_of-same f g xs h)

  sum_of-add :
      (f g : A → ℤ) (xs : List A) → sum_of (λ a. f a +ℤ g a) xs ≡ sum_of f xs +ℤ sum_of g xs
  sum_of-add f g [] = sym (+ℤ_zero_left (pos 0))
  sum_of-add f g (x ∷ xs) =
      ap (λ v. (f x +ℤ g x) +ℤ v) (sum_of-add f g xs)
      ∙ +ℤ_pairs (f x) (g x) (sum_of f xs) (sum_of g xs)

module _ {B : Type 0} (id : B → ℕ) where
  pick_none :
      (k : ℕ) (v : ℤ) (ws : List B)
      → any (λ w. id w == k) ws ≡ false
      → sum_of (λ w. if k == id w then v else pos 0) ws ≡ pos 0
  pick_none k v [] h = refl
  pick_none k v (w ∷ ws) h = rw (differ, pick_none k v ws rest) (+ℤ_zero_left (pos 0))
    where
      differ : (k == id w) ≡ false
      differ = ground arith

      rest : any (λ w. id w == k) ws ≡ false
      rest = ground arith

  -- One of the groups has the key.
  pick :
      (k : ℕ) (v : ℤ) (ws : List B)
      → Distinct (λ x w. id w == id x) ws
      → any (λ w. id w == k) ws ≡ true
      → sum_of (λ w. if k == id w then v else pos 0) ws ≡ v
  pick k v [] d h = absurd (cc h)
  pick k v (w ∷ ws) d h = elim (Bool-cases (k == id w)) [
    | inl y ↦
        rw
          (
            y,
            pick_none k v ws
                (ground (arith, ap (λ j. any (λ w. id w == j) ws) ((==_iff k (id w)).0 y), d.0)),
          )
          (+ℤ_zero_right v)
    | inr n ↦ rw (n, pick k v ws d.1 (ground arith)) (+ℤ_zero_left v)
  ]

  module _ {A : Type 0} (key : A → ℕ) (f : A → ℤ) where
    group_step :
        (r : A) (rows : List A) (w : B)
        → sum_of f (keep (λ x. key x == id w) (r ∷ rows))
          ≡ (if key r == id w then f r else pos 0) +ℤ sum_of f (keep (λ x. key x == id w) rows)
    group_step r rows w = elim (Bool-cases (key r == id w)) [
      | inl y ↦ rw y
      | inr n ↦ rw n (sym (+ℤ_zero_left _))
    ]

    -- The sum over the groups is the sum over all, where each element is of one group.
    pub sum_of-groups :
        (ws : List B) (rows : List A)
        → Distinct (λ x w. id w == id x) ws
        → All (λ r. any (λ w. id w == key r) ws ≡ true) rows
        → sum_of (λ w. sum_of f (keep (λ x. key x == id w) rows)) ws ≡ sum_of f rows
    sum_of-groups ws [] d h = sum_of-zero ws
    sum_of-groups ws (r ∷ rows) d h =
        sum_of-same _ _ ws (group_step r rows)
        ∙ sum_of-add (λ w. if key r == id w then f r else pos 0) _ ws
        ∙ ap (λ v. v +ℤ sum_of (λ w. sum_of f (keep (λ x. key x == id w) rows)) ws)
            (pick (key r) (f r) ws d h.0)
        ∙ ap (λ v. f r +ℤ v) (sum_of-groups ws rows d h.1)
