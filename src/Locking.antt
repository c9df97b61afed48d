-- ===== src/Locking.antt =====
-- Requests that record movements at the same time: sessions that take row locks, each in the order
-- of its plan, and keep them until they commit or roll back (app/core/session.py, `SELECT … FOR
-- UPDATE` in app/repositories/inventory.py).
pub mod Family
pub mod Order
pub mod Progress
pub mod Finish
use inventory_management_api.Base.{ℕ, ◌<◌, ◌≡◌, ◌≢◌, Bool, true, false, ◌&&◌, List, [], ◌∷◌, ◌==◌}
use inventory_management_api.Base.Rows.{any}
use inventory_management_api.Models.{Uuid}
use inventory_management_api.Schemas.Movement.{MovementCreate}
use inventory_management_api.Services.Command.Plan.{lock_plan}
use inventory_management_api.Locking.Family.{update}

abbrev pub same_key : Uuid × Uuid → Uuid × Uuid → Bool
same_key k j = k.0 == j.0 && k.1 == j.1

-- A transaction: the locks that it holds, and those that it has yet to take.
pub data Txn : Type 0 where
  running : (held wanted : List (Uuid × Uuid)) → Txn
  ended : Txn

abbrev pub holds : Uuid × Uuid → Txn → Bool
holds k (running held wanted) = any (same_key k) held
holds k ended = false

-- What the database lets one of `n` sessions do by itself: take its next lock once no other session
-- holds it, or commit when it has them all.
pub data Advance (n : ℕ) (f : ℕ → Txn) : (ℕ → Txn) → Type 0 where
  take :
      (i : ℕ) (held : List (Uuid × Uuid)) (k : Uuid × Uuid) (wanted : List (Uuid × Uuid))
      → i < n
      → f i ≡ running held (k ∷ wanted)
      → ((j : ℕ) → j < n → j ≢ i → holds k (f j) ≡ false)
      → Advance n f (update f i (running (k ∷ held) wanted))
  commit :
      (i : ℕ) (held : List (Uuid × Uuid))
      → i < n
      → f i ≡ running held []
      → Advance n f (update f i ended)

-- A session may also find no row to lock, or fail at any time and roll back.
pub data Step (n : ℕ) (f : ℕ → Txn) : (ℕ → Txn) → Type 0 where
  advance : (g : ℕ → Txn) → Advance n f g → Step n f g
  pass_over :
      (i : ℕ) (held : List (Uuid × Uuid)) (k : Uuid × Uuid) (wanted : List (Uuid × Uuid))
      → i < n
      → f i ≡ running held (k ∷ wanted)
      → Step n f (update f i (running held wanted))
  roll_back :
      (i : ℕ) (held wanted : List (Uuid × Uuid))
      → i < n
      → f i ≡ running held wanted
      → Step n f (update f i ended)

-- Each session is about to record its movement.
abbrev pub init : (ℕ → MovementCreate) → ℕ → Txn
init ds i = let d = ds i in running [] (lock_plan d.movement_type d)
