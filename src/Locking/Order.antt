-- ===== src/Locking/Order.antt =====
-- What each session keeps to: it holds locks on lower warehouses than those that it still wants.
use inventory_management_api.Base.{
  ℕ, ◌<◌, ◌≡◌, inl, inr, subst, true, List, [], ◌∷◌, ◌==◌, arith, Bool-cases, ⊤,
}
use inventory_management_api.Base.Rows.{All, any}
use inventory_management_api.Models.{Uuid}
use inventory_management_api.Services.Command.Plan.{IsRising}
use inventory_management_api.Locking.{
  Txn, running, ended, same_key, take, commit, Step, advance, pass_over, roll_back,
}
use inventory_management_api.Locking.Family.{update}

abbrev pub IsBelow : List (Uuid × Uuid) → Uuid × Uuid → Type 0
IsBelow held k = All (λ (j : Uuid × Uuid). j.1 < k.1) held

-- What is held is below what is wanted, and what is wanted rises.
abbrev pub IsOrdered : Txn → Type 0
IsOrdered (running held wanted) = All (IsBelow held) wanted × IsRising wanted
IsOrdered ended = ⊤

-- Every session of the first `n` is in order.
abbrev pub AreOrdered : ℕ → (ℕ → Txn) → Type 0
AreOrdered n f = (i : ℕ) → i < n → IsOrdered (f i)

IsBelow-cons :
    (held : List (Uuid × Uuid)) (k : Uuid × Uuid) (wanted : List (Uuid × Uuid))
    → All (IsBelow held) wanted
    → All (λ (j : Uuid × Uuid). k.1 < j.1) wanted
    → All (IsBelow (k ∷ held)) wanted
IsBelow-cons held k [] b r = tt
IsBelow-cons held k (j ∷ js) (b, bs) (r, rs) = ((r, b), IsBelow-cons held k js bs rs)

-- A session that holds a lock wants only higher ones.
pub wanted_above :
    (k : Uuid × Uuid) (held : List (Uuid × Uuid)) (j : Uuid × Uuid)
    → any (same_key k) held ≡ true
    → IsBelow held j
    → k.1 < j.1
wanted_above k [] j e b = absurd (ground (arith, e))
wanted_above k (i ∷ is) j e (b, bs) = elim (Bool-cases (same_key k i)) [
  | inl y ↦ ground (arith, b, y)
  | inr n ↦ wanted_above k is j (ground (arith, n, e)) bs
]

update-AreOrdered :
    (n : ℕ) (f : ℕ → Txn) (i : ℕ) (t : Txn)
    → AreOrdered n f
    → IsOrdered t
    → AreOrdered n (update f i t)
update-AreOrdered n f i t h o j l = elim (Bool-cases (i == j)) [
  | inl y ↦ rw y o
  | inr y ↦ rw y (h j l)
]

-- Every step keeps the sessions in order.
pub Step-AreOrdered : (n : ℕ) (f g : ℕ → Txn) → Step n f g → AreOrdered n f → AreOrdered n g
Step-AreOrdered n f _ (advance _ (take i held k wanted l e free)) h =
    let (b, r) = subst IsOrdered e (h i l) in
    update-AreOrdered n f i _ h (IsBelow-cons held k wanted b.1 r.0, r.1)
Step-AreOrdered n f _ (advance _ (commit i held l e)) h = update-AreOrdered n f i ended h tt
Step-AreOrdered n f _ (pass_over i held k wanted l e) h =
    let (b, r) = subst IsOrdered e (h i l) in update-AreOrdered n f i _ h (b.1, r.1)
Step-AreOrdered n f _ (roll_back i held wanted l e) h = update-AreOrdered n f i ended h tt
