-- ===== src/Services/Command/Locks.antt =====
-- The rows that a movement locks, in the order of the locks: what keeps two movements from waiting
-- for each other.
use inventory_management_api.Base.{
  ◌≤◌, ◌≡◌, ◌∙◌, ap, ◌⊎◌, subst, refl, inl, inr, true, false, List, [], ◌∷◌, arith, if◌then◌else◌,
  none, Bool-cases,
}
use inventory_management_api.Base.Int.{ℤ, pos, ◌≤ℤ◌, ◌-ℤ◌}
use inventory_management_api.Base.Rows.{find?}
use inventory_management_api.Errors.{Result}
use inventory_management_api.Models.{Uuid, Inventory, Tables}
use inventory_management_api.Session.{Env, Action, World, pure, ◌>>=◌}
use inventory_management_api.Session.Ends.{
  Ends, Ends-bind, Ends-and, Ends-map, Ends-with, Uncommitted,
}
use inventory_management_api.Session.Keeps.{Keeps}
use inventory_management_api.Repositories.Base.{has_id}
use inventory_management_api.Repositories.Catalog.{warehouse_model}
use inventory_management_api.Stock.{IsStocked}
use inventory_management_api.Services.Command.{transfer_stock, source_first}
use inventory_management_api.Services.Command.Changes.{Leg, decrease_stock-Leg}
use inventory_management_api.Services.Command.Increase.{increase_stock-Leg}
use inventory_management_api.Services.Command.LegLocks.{
  HasNoRow, IsMissing, Took, OneLock, increase-OneLock, decrease-OneLock,
}
use inventory_management_api.Services.Command.RowsStay.{
  HasRow, increase-HasRow, decrease-HasRow, no_row_before,
}

pub first_le : (a b : Uuid) → source_first a b ≡ true → a ≤ b
unfolding source_first
first_le a b h = ground arith

pub second_le : (a b : Uuid) → source_first a b ≡ false → b ≤ a
unfolding source_first
second_le a b h = ground arith

-- The locks, the latest first, have grown by those of the plan, in its order, less the pairs that
-- were not locked for the reason `S`.
abbrev pub Takes : (S : Uuid × Uuid → Type 0) (plan before after : List (Uuid × Uuid)) → Type 0
Takes S [] l l' = l' ≡ l
Takes S (k ∷ ks) l l' = (S k × Takes S ks l l') ⊎ Takes S ks (k ∷ l) l'

-- The same for the pairs up to the one at which it stopped.
abbrev pub Stops : (S : Uuid × Uuid → Type 0) (plan before after : List (Uuid × Uuid)) → Type 0
Stops S [] l l' = l' ≡ l
Stops S (k ∷ ks) l l' = Took S k l l' ⊎ ((S k × Stops S ks l l') ⊎ Stops S ks (k ∷ l) l')

-- A run that returns has locked all pairs of the plan that have a row; one that raises has locked
-- them up to the one at which it stopped, and may have stopped at a missing warehouse.
abbrev pub Follows :
    ⦃env : Env⦄ {A : Type 0} (plan : List (Uuid × Uuid)) (s : World) → Result A × World → Type 0
Follows plan s r =
    Ends (λ _ s'. Takes (HasNoRow s.session) plan s.locks s'.locks)
      (λ _ s'. Stops (IsMissing s.session) plan s.locks s'.locks) r

-- The pairs of a transfer, the one that it changes first at the head.
abbrev pub transfer_plan : (product_id source destination : Uuid) → List (Uuid × Uuid)
transfer_plan p v w = if source_first v w then (p, v) ∷ (p, w) ∷ [] else (p, w) ∷ (p, v) ∷ []

pub source_plan :
    (p v w : Uuid) → source_first v w ≡ true → transfer_plan p v w ≡ (p, v) ∷ (p, w) ∷ []
source_plan p v w y = rw y refl

pub destination_plan :
    (p v w : Uuid) → source_first v w ≡ false → transfer_plan p v w ≡ (p, w) ∷ (p, v) ∷ []
destination_plan p v w n = rw n refl

module _ (S S' T : Uuid × Uuid → Type 0) (a b : Uuid × Uuid) where
  Takes-both :
      (l l' l'' : List (Uuid × Uuid))
      → (T b → S b)
      → Took S a l l'
      → Took T b l' l''
      → Takes S (a ∷ b ∷ []) l l''
  Takes-both l l' l'' t (inl (n, e)) (inl (m, f)) = inl (n, inl (t m, f ∙ e))
  Takes-both l l' l'' t (inl (n, e)) (inr f) = inl (n, inr (f ∙ ap (λ x. b ∷ x) e))
  Takes-both l l' l'' t (inr e) (inl (m, f)) = inr (inl (t m, f ∙ e))
  Takes-both l l' l'' t (inr e) (inr f) = inr (inr (f ∙ ap (λ x. b ∷ x) e))

  Stops-both :
      (l l' l'' : List (Uuid × Uuid))
      → (S a → S' a)
      → (T b → S' b)
      → Took S a l l'
      → Took T b l' l''
      → Stops S' (a ∷ b ∷ []) l l''
  Stops-both l l' l'' s t (inl (n, e)) (inl (m, f)) = inr (inl (s n, inl (inl (t m, f ∙ e))))
  Stops-both l l' l'' s t (inl (n, e)) (inr f) = inr (inl (s n, inl (inr (f ∙ ap (λ x. b ∷ x) e))))
  Stops-both l l' l'' s t (inr e) (inl (m, f)) = inr (inr (inl (inl (t m, f ∙ e))))
  Stops-both l l' l'' s t (inr e) (inr f) = inr (inr (inl (inr (f ∙ ap (λ x. b ∷ x) e))))

module _ ⦃env : Env⦄ where
  IsMissing-before :
      (k : Uuid × Uuid) (t t' : Tables)
      → (HasNoRow t' k → HasNoRow t k)
      → t' ≡ record t { inventories = t'.inventories }
      → IsMissing t' k
      → IsMissing t k
  IsMissing-before k t t' back others (inl n) = inl (back n)
  IsMissing-before k t t' back others (inr n) = inr (
      subst (λ ws. find? (has_id warehouse_model k.1) ws ≡ none)
        (ap (λ (u : Tables). u.warehouses) others) n)

  -- One leg, and then the other.
  two_legs :
      (p v w : Uuid) (d : ℤ) (first second : Action Inventory)
      → (finish : Inventory → Inventory → Inventory × Inventory) → (s : World)
      → Ends (Leg p v d s) (λ e s'. Uncommitted s s') (first s)
      → OneLock p v s (first s)
      → Keeps (HasRow p w) first
      → ((s' : World) → IsStocked s'.session.inventories → OneLock p w s' (second s'))
      → Follows ((p, v) ∷ (p, w) ∷ []) s ((do x ← first; y ← second; pure (finish x y)) s)
  two_legs p v w d first second finish s leg one stays two =
      Ends-bind
        (λ x s'.
          (Leg p v d s x s' × Took (HasNoRow s.session) (p, v) s.locks s'.locks)
          × (HasNoRow s'.session (p, w) → HasNoRow s.session (p, w)))
        first _ s
        (Ends-map _
          (Ends-with (λ s'. HasNoRow s'.session (p, w) → HasNoRow s.session (p, w)) _
            (Ends-and _ leg one) (no_row_before p w first s stays))
          (λ x s' h. h) (λ e s' h. inl h.0.1))
        (λ x s' h.
          Ends-bind (λ _ s''. Takes (HasNoRow s.session) ((p, v) ∷ (p, w) ∷ []) s.locks s''.locks)
            second _ s'
            (Ends-map _ (two s' h.0.0.changed.stocked)
              (λ y s'' k.
                Takes-both (HasNoRow s.session) (HasNoRow s.session) (HasNoRow s'.session) (p, v)
                  (p, w) s.locks s'.locks s''.locks h.1 h.0.1 k)
              (λ e s'' k.
                Stops-both (HasNoRow s.session) (IsMissing s.session) (IsMissing s'.session) (p, v)
                  (p, w) s.locks s'.locks s''.locks (λ n. inl n)
                  (IsMissing-before (p, w) s.session s'.session h.1 h.0.0.changed.others) h.0.1 k))
            (λ y s'' k. record { outcome = k }))

  pub transfer_stock-Follows :
      (p a b : Uuid) (q : ℤ) (s : World)
      → pos 0 ≤ℤ q
      → IsStocked s.session.inventories
      → Follows (transfer_plan p a b) s (transfer_stock p a b q s)
  unfolding transfer_stock
  transfer_stock-Follows p a b q s pos_q h = elim (Bool-cases (source_first a b)) [
    | inl y ↦ rw y (
        two_legs p a b (pos 0 -ℤ q) _ _ _ s (decrease_stock-Leg p a q s h)
          (decrease-OneLock p a q s h) (decrease-HasRow p b p a q) (increase-OneLock p b q))
    | inr n ↦ rw n (
        two_legs p b a q _ _ _ s (increase_stock-Leg p b q s pos_q h) (increase-OneLock p b q s h)
          (increase-HasRow p a p b q) (decrease-OneLock p a q))
  ]
