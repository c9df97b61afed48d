-- ===== src/Locking/Family.antt =====
-- Families indexed by session: the update at one index, and sums over the first `n`.
use inventory_management_api.Base.{
  ℕ, zero, suc, ◌+◌, ◌≤◌, ◌<◌, ◌≡◌, ◌≢◌, ◌⊎◌, inl, inr, refl, ◌==◌, if◌then◌else◌, arith,
}

module _ {A : Type 0} where
  abbrev pub update : (ℕ → A) → ℕ → A → ℕ → A
  update f i a j = if i == j then a else f j

  pub update-at : (f : ℕ → A) (i : ℕ) (a : A) → update f i a i ≡ a
  update-at f i a = ground arith

  pub update-else : (f : ℕ → A) (i j : ℕ) (a : A) → j ≢ i → update f i a j ≡ f j
  update-else f i j a n = ground arith

pub below_or_last : (i n : ℕ) → i < suc n → (i < n) ⊎ (i ≡ n)
below_or_last i n h = ground arith

module _ {A : Type 0} (w : A → ℕ) where
  unfoldable pub total : ℕ → (ℕ → A) → ℕ
  total zero f = 0
  total (suc n) f = total n f + w (f n)

  pub total-member : (n : ℕ) (f : ℕ → A) (i : ℕ) → i < n → w (f i) ≤ total n f
  unfolding total
  total-member zero f i h = absurd (omega (arith, h))
  total-member (suc n) f i h = elim (below_or_last i n h) [
    | inl b ↦ omega (arith, total-member n f i b)
    | inr e ↦ rw e (omega arith)
  ]

  total-above : (n : ℕ) (f : ℕ → A) (i : ℕ) (a : A) → n ≤ i → total n (update f i a) ≡ total n f
  unfolding total
  total-above zero f i a h = refl
  total-above (suc n) f i a h = ground (arith, total-above n f i a)

  -- The sum falls with one of its terms.
  pub total-update :
      (n : ℕ) (f : ℕ → A) (i : ℕ) (a : A)
      → i < n
      → w a < w (f i)
      → total n (update f i a) < total n f
  unfolding total
  total-update zero f i a h l = absurd (omega (arith, h))
  total-update (suc n) f i a h l = elim (below_or_last i n h) [
    | inl b ↦ ground (arith, total-update n f i a b l)
    | inr e ↦ ground (arith, e, total-above n f i a)
  ]
