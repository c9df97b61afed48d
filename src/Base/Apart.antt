-- ===== src/Base/Apart.antt =====
-- Lists whose elements are apart, in any order.
use mathlib.Core.List.{Permᴰ}
use mathlib.Core.Path.{◌≡◌, refl, ap, ◌∙◌}
use mathlib.Core.Bool.{Bool, true, false, ◌||◌}
use mathlib.Core.List.{List, [], ◌∷◌}
use inventory_management_api.Base.Rows.{any, keep, Distinct}

pub keep_all : {A : Type 0} (xs : List A) → keep (λ _. true) xs ≡ xs
keep_all [] = refl
keep_all (x ∷ xs) = ap (λ ys. x ∷ ys) (keep_all xs)

pub or_left : (a b : Bool) → a || b ≡ false → a ≡ false
or_left false b h = refl
or_left true b h = h

pub or_right : (a b : Bool) → a || b ≡ false → b ≡ false
or_right false b h = h
or_right true b h = absurd (cc h)

or_both : (a b : Bool) → a ≡ false → b ≡ false → a || b ≡ false
or_both a b h k = rw (h, k) refl

module _ {A : Type 0} where
  none-perm : (p : A → Bool) {xs ys : List A} → Permᴰ xs ys → any p ys ≡ false → any p xs ≡ false
  none-perm p Permᴰ.nil h = refl
  none-perm p (Permᴰ.cons {a = a} {b = b} {l₁ = l} {l₂ = m} e d) h =
      or_both (p a) (any p l) (ap p e ∙ or_left (p b) (any p m) h)
        (none-perm p d (or_right (p b) (any p m) h))
  none-perm p (Permᴰ.swap {a = a} {b = b} {a' = c} {b' = d} {l = l} e f) h =
      or_both (p a) (p b || any p l)
        (ap p e ∙ or_left (p d) (any p l) (or_right (p c) (p d || any p l) h))
        (or_both (p b) (any p l) (ap p f ∙ or_left (p c) (p d || any p l) h)
          (or_right (p d) (any p l) (or_right (p c) (p d || any p l) h)))
  none-perm p (Permᴰ.trans d e) h = none-perm p d (none-perm p e h)

  pub Distinct-perm :
      (same : A → A → Bool)
      → ((x y : A) → same x y ≡ false → same y x ≡ false)
      → {xs ys : List A} → Permᴰ xs ys
      → Distinct same ys
      → Distinct same xs
  Distinct-perm same s Permᴰ.nil h = tt
  Distinct-perm same s (Permᴰ.cons {a = a} {b = b} {l₁ = l} {l₂ = m} e d) h =
      (ap (λ x. any (same x) l) e ∙ none-perm (same b) d h.0, Distinct-perm same s d h.1)
  Distinct-perm same s (Permᴰ.swap {a = a} {b = b} {a' = c} {b' = d} {l = l} e f) h = (
    or_both (same a b) (any (same a) l)
        (ap (λ x. same x b) e ∙ ap (same d) f ∙ s c d (or_left (same c d) (any (same c) l) h.0))
        (ap (λ x. any (same x) l) e ∙ h.1.0),
    (ap (λ x. any (same x) l) f ∙ or_right (same c d) (any (same c) l) h.0, h.1.1),
  )
  Distinct-perm same s (Permᴰ.trans d e) h = Distinct-perm same s d (Distinct-perm same s e h)
