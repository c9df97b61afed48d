-- ===== src/Locking/Finish.antt =====
-- No schedule of the sessions gets stuck or goes on for ever.
use inventory_management_api.Base.{
  ℕ, zero, suc, ◌<◌, ◌≡◌, ◌⊎◌, inl, inr, refl, subst, sym, List, [], ◌∷◌, arith,
}
use inventory_management_api.Base.Rows.{All, length}
use inventory_management_api.Models.{Uuid}
use inventory_management_api.Schemas.Movement.{MovementCreate}
use inventory_management_api.Schemas.Movement.Shape.{IsAccepted}
use inventory_management_api.Services.Command.Plan.{lock_plan-IsRising}
use inventory_management_api.Locking.{
  Txn, running, ended, Advance, take, commit, Step, advance, pass_over, roll_back, init,
}
use inventory_management_api.Locking.Family.{total, total-update, below_or_last}
use inventory_management_api.Locking.Order.{IsBelow, AreOrdered, Step-AreOrdered}
use inventory_management_api.Locking.Progress.{next, someone_advances}

-- Every schedule ends with all sessions ended: they have, or some session can go on and from
-- whatever step is taken every schedule ends so.
pub data Finishes (n : ℕ) : (ℕ → Txn) → Type 0 where
  over : (f : ℕ → Txn) → ((i : ℕ) → i < n → f i ≡ ended) → Finishes n f
  goes_on :
      (f g : ℕ → Txn) → Advance n f g → ((h : ℕ → Txn) → Step n f h → Finishes n h) → Finishes n f

-- The steps that a session has left.
abbrev work : Txn → ℕ
work (running held wanted) = suc (length wanted)
work ended = 0

shrinks : (f : ℕ → Txn) (i : ℕ) (t t' : Txn) → f i ≡ t → work t' < work t → work t' < work (f i)
shrinks f i t t' e l = subst (λ x. work t' < work x) (sym e) l

Step-shrinks : (n : ℕ) (f g : ℕ → Txn) → Step n f g → total work n g < total work n f
Step-shrinks n f _ (advance _ (take i held k wanted l e free)) =
    total-update work n f i _ l (shrinks f i _ (running (k ∷ held) wanted) e (omega arith))
Step-shrinks n f _ (advance _ (commit i held l e)) =
    total-update work n f i _ l (shrinks f i _ ended e (omega arith))
Step-shrinks n f _ (pass_over i held k wanted l e) =
    total-update work n f i _ l (shrinks f i _ (running held wanted) e (omega arith))
Step-shrinks n f _ (roll_back i held wanted l e) =
    total-update work n f i _ l (shrinks f i _ ended e (omega arith))

-- A session that runs, or none.
abbrev Runner : ℕ → (ℕ → Txn) → Type 0
Runner n f =
    ((i : ℕ) × ((i < n)
        × ((held : List (Uuid × Uuid)) × ((wanted : List (Uuid × Uuid)) × (f i
                ≡ running held wanted)))))
    ⊎ ((i : ℕ) → i < n → f i ≡ ended)

someone_running : (n : ℕ) (f : ℕ → Txn) → Runner n f
someone_running zero f = inr (λ i l. absurd (omega (arith, l)))
someone_running (suc n) f = elim (someone_running n f) [
  | inl (i, (l, r)) ↦ inl (i, (omega (arith, l), r))
  | inr none_below ↦ last (f n) refl none_below
]
  where
    last : (t : Txn) → f n ≡ t → ((i : ℕ) → i < n → f i ≡ ended) → Runner (suc n) f
    last (running held wanted) e below = inl (n, (omega arith, (held, (wanted, e))))
    last ended e below = inr (λ i l. elim (below_or_last i n l) [
      | inl b ↦ below i b
      | inr same ↦ subst (λ x. f x ≡ ended) (sym same) e
    ])

-- A session that runs commits, or some session goes on.
one_advances :
    (n : ℕ) (f : ℕ → Txn) (i : ℕ) (held wanted : List (Uuid × Uuid))
    → AreOrdered n f
    → i < n
    → f i ≡ running held wanted
    → (g : ℕ → Txn) × Advance n f g
one_advances n f i held [] o l e = (_, commit i held l e)
one_advances n f i held (k ∷ wanted) o l e =
    someone_advances (suc (total next n f)) n f i held k wanted o l e (omega arith)

finishes : (fuel n : ℕ) (f : ℕ → Txn) → AreOrdered n f → total work n f < fuel → Finishes n f
finishes zero n f o l = absurd (omega (arith, l))
finishes (suc fuel) n f o l = elim (someone_running n f) [
  | inr done ↦ over f done
  | inl (i, (below, (held, (wanted, e)))) ↦
      let (g, a) = one_advances n f i held wanted o below e in
      goes_on f g a (λ h step.
        finishes fuel n h (Step-AreOrdered n f h step o)
          (omega (arith, l, Step-shrinks n f h step)))
]

nothing_held : (wanted : List (Uuid × Uuid)) → All (IsBelow []) wanted
nothing_held [] = tt
nothing_held (k ∷ ks) = (tt, nothing_held ks)

-- Any number of sessions, each about to record a movement of an accepted payload, which take the
-- locks of its plan in order, or find no row, and keep them until they end: in whatever order the
-- database lets them run, and whichever of them roll back, there is never a deadlock, and all end.
pub init-Finishes :
    (n : ℕ) (ds : ℕ → MovementCreate) → ((i : ℕ) → i < n → IsAccepted (ds i)) → Finishes n (init ds)
init-Finishes n ds h =
    finishes (suc (total work n (init ds))) n (init ds)
      (λ i l. (nothing_held _, lock_plan-IsRising (ds i).movement_type (ds i) (h i l).shaped))
      (omega arith)
