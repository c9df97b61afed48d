-- ===== src/Locking/Progress.antt =====
-- While a session waits, some session can go on: a lock that a session waits for is held by one that
-- wants a higher warehouse, or nothing more.
use inventory_management_api.Base.{
  ℕ, zero, suc, ◌+◌, ◌≤◌, ◌<◌, ◌≡◌, ◌≢◌, ◌⊎◌, inl, inr, refl, subst, sym, true, false, List, [],
  ◌∷◌, ◌==◌, arith, Bool-cases,
}
use inventory_management_api.Models.{Uuid}
use inventory_management_api.Locking.{Txn, running, ended, holds, Advance, take, commit}
use inventory_management_api.Locking.Family.{total, total-member, below_or_last}
use inventory_management_api.Locking.Order.{IsOrdered, AreOrdered, wanted_above}

-- The warehouse of the next lock.
abbrev pub next : Txn → ℕ
next (running held []) = 0
next (running held (k ∷ wanted)) = k.1
next ended = 0

-- Another session has the lock, or none has.
abbrev HolderOrFree : ℕ → (ℕ → Txn) → ℕ → Uuid × Uuid → Type 0
HolderOrFree n f i k =
    ((j : ℕ) × (j < n) × (j ≢ i) × (holds k (f j) ≡ true))
    ⊎ ((j : ℕ) → j < n → j ≢ i → holds k (f j) ≡ false)

find_holder : (n : ℕ) (f : ℕ → Txn) (i : ℕ) (k : Uuid × Uuid) → HolderOrFree n f i k
find_holder zero f i k = inr (λ j l n. absurd (omega (arith, l)))
find_holder (suc n) f i k = elim (find_holder n f i k) [
  | inl (j, l, ne, h) ↦ inl (j, omega (arith, l), ne, h)
  | inr free ↦ elim (Bool-cases (holds k (f n))) [
    | inr absent ↦ inr (λ j l ne. elim (below_or_last j n l) [
      | inl b ↦ free j b ne
      | inr e ↦ subst (λ x. holds k (f x) ≡ false) (sym e) absent
    ])
    | inl y ↦ elim (Bool-cases (n == i)) [
      | inl same ↦ inr (λ j l ne. elim (below_or_last j n l) [
        | inl b ↦ free j b ne
        | inr e ↦ absurd (ground (arith, same, ne, e))
      ])
      | inr other ↦ inl (n, omega arith, ground (arith, other), y)
    ]
  ]
]

-- A session that holds a lock has them all, or waits for a higher warehouse.
holder_cases :
    (k : Uuid × Uuid) (t : Txn)
    → IsOrdered t
    → holds k t ≡ true
    → ((held : List (Uuid × Uuid)) × (t ≡ running held []))
      ⊎ ((held : List (Uuid × Uuid)) × ((j : Uuid × Uuid) × ((wanted : List (Uuid × Uuid)) × ((t
                  ≡ running held (j ∷ wanted))
                × (k.1 < j.1)))))
holder_cases k (running held []) o h = inl (held, refl)
holder_cases k (running held (j ∷ js)) ((b, bs), r) h =
    inr (held, (j, (js, (refl, wanted_above k held j h b))))
holder_cases k ended o h = absurd (ground (arith, h))

-- From a session that waits, along the sessions that hold what is waited for. The warehouses on the
-- way rise, so that the way ends.
pub someone_advances :
    (fuel n : ℕ) (f : ℕ → Txn) (i : ℕ) (held : List (Uuid × Uuid)) (k : Uuid × Uuid)
    → (wanted : List (Uuid × Uuid)) → AreOrdered n f
    → i < n
    → f i ≡ running held (k ∷ wanted)
    → total next n f < fuel + k.1
    → (g : ℕ → Txn) × Advance n f g
someone_advances zero n f i held k wanted o l e enough =
    absurd
      (omega (arith, enough, subst (λ t. next t ≤ total next n f) e (total-member next n f i l)))
someone_advances (suc fuel) n f i held k wanted o l e enough = elim (find_holder n f i k) [
  | inr free ↦ (_, take i held k wanted l e free)
  | inl (j, below, other, h) ↦ elim (holder_cases k (f j) (o j below) h) [
    | inl (held', e') ↦ (_, commit j held' below e')
    | inr (held', (k', (wanted', (e', higher)))) ↦
        someone_advances fuel n f j held' k' wanted' o below e' (omega (arith, enough, higher))
  ]
]
