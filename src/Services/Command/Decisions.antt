-- ===== src/Services/Command/Decisions.antt =====
-- When a movement is refused: on every branch, just where the ledger does not allow it.
use inventory_management_api.Base.{
  ◌≡◌, ◌≢◌, refl, ◌∙◌, ap, sym, subst, ◌⊎◌, inl, inr, Bool, true, false, ◌&&◌, Option, List, arith,
  Bool-cases, Option-cases,
}
use inventory_management_api.Base.Int.{ℤ, pos, ◌≤ℤ◌, leb_ℤ, int_laws}
use inventory_management_api.Base.Rows.{find?, any-eq-find, any-find-some}
use inventory_management_api.Errors.{Error, Result}
use inventory_management_api.Models.{Uuid, MovementType, Inventory, Movement, Tables}
use inventory_management_api.Schemas.Movement.{MovementCreate}
use inventory_management_api.Schemas.Movement.Shape.{IsShaped, IsAccepted}
use inventory_management_api.Session.{Env, Action, World, pure, uuid4, now, commit, ◌>>=◌, ◌>>◌}
use inventory_management_api.Session.Ends.{Ends, Ends-ok, Ends-err, Ends-bind, Ends-map, Ends-and}
use inventory_management_api.Session.Raises.{Raises, raises_rules}
use inventory_management_api.Session.Atomic.{IsInternal}
use inventory_management_api.Repositories.Base.{has_id, create}
use inventory_management_api.Repositories.Base.Lookup.{get_or_raise_missing, get_or_raise_found}
use inventory_management_api.Repositories.Catalog.{product_model}
use inventory_management_api.Repositories.Inventories.{movement_model}
use inventory_management_api.Repositories.Raised.{Raises-new_movement}
use inventory_management_api.Services.Atomic.{database_IsInternal}
use inventory_management_api.Stock.{IsStocked}
use inventory_management_api.Stock.Ledger.{view, is_allowed, can_receive, can_give}
use inventory_management_api.Services.Command.{
  source_first, transfer_stock, apply_in, apply_out, apply_transfer, apply_movement, new_movement,
  apply_and_commit,
}
use inventory_management_api.Services.Command.Changes.{Leg, decrease_stock-Leg}
use inventory_management_api.Services.Command.Increase.{increase_stock-Leg}
use inventory_management_api.Services.Command.Causes.{
  Decides, IsRefusal, knows, enough, Decides-internal, increase_stock-Decides,
  decrease_stock-Decides,
}

Decides-same : {A : Type 0} {a b : Bool} (r : Result A × World) → a ≡ b → Decides a r → Decides b r
Decides-same r e h = subst (λ t. Decides t r) e h

-- One test after another.
Decides-bind :
    {A B : Type 0} {Q : A → World → Type 0} {E : Error → World → Type 0} (a b : Bool)
    (first : Action A) (second : A → Action B) (s : World)
    → Ends Q E (first s)
    → Decides a (first s)
    → ((x : A) (s' : World) → Q x s' → Decides b (second x s'))
    → Decides (a && b) ((first >>= second) s)
Decides-bind {A} {B} {Q} a b first second s q h k =
    Ends-bind (λ x s'. Q x s' × (a ≡ true)) first second s
      (Ends-map (first s) (Ends-and (first s) q h) (λ x s' g. g) (λ e s' g. early e g.1))
      (λ x s' g. Ends-map (second x s') (k x s' g.0) (λ y t e. rw (g.1, e)) (λ e t f. late e f g.1))
  where
    early :
        (e : Error)
        → IsInternal e ⊎ (IsRefusal e × (a ≡ false))
        → IsInternal e ⊎ (IsRefusal e × ((a && b) ≡ false))
    early e (inl i) = inl i
    early e (inr (r, n)) = inr (r, rw n)

    late :
        (e : Error)
        → IsInternal e ⊎ (IsRefusal e × (b ≡ false))
        → a ≡ true
        → IsInternal e ⊎ (IsRefusal e × ((a && b) ≡ false))
    late e (inl i) y = inl i
    late e (inr (r, n)) y = inr (r, rw (y, n))

and_comm : (a b : Bool) → (a && b) ≡ (b && a)
and_comm a b = ground arith

-- A test, and then an answer.
Decides-last :
    {A B : Type 0} (a : Bool) (first : Action A) (f : A → B) (s : World)
    → Decides a (first s)
    → Decides a ((do x ← first; pure (f x)) s)
Decides-last a first f s h =
    Ends-bind (λ _ _. a ≡ true) first (λ x. pure (f x)) s h (λ x s' e. record { outcome = e })

module _ ⦃env : Env⦄ where
  knows-Leg :
      (v p w : Uuid) (d : ℤ) (s : World) (r : Inventory) (s' : World)
      → Leg p w d s r s'
      → knows v s' ≡ knows v s
  knows-Leg v p w d s r s' l =
      ap (λ (t : Tables). knows v (record s { session = t })) l.changed.others

  -- A leg at another warehouse leaves the stock at this one.
  enough-Leg :
      (p v w : Uuid) (q d : ℤ) (s : World) (r : Inventory) (s' : World)
      → v ≢ w
      → Leg p w d s r s'
      → enough p v q s' ≡ enough p v q s
  enough-Leg p v w q d s r s' n l = ap (leb_ℤ q) (l.changed.level p v ∙ grind (int_laws, n))

  decrease-later :
      (p v w : Uuid) (q d : ℤ) (s : World) (r : Inventory) (s' : World)
      → v ≢ w
      → Leg p w d s r s'
      → (knows v s' && enough p v q s') ≡ (knows v s && enough p v q s)
  decrease-later p v w q d s r s' n l =
      ap (λ k. k && enough p v q s') (knows-Leg v p w d s r s' l)
      ∙ ap (λ k. knows v s && k) (enough-Leg p v w q d s r s' n l)

  transfer_stock-Decides :
      (p v w : Uuid) (q : ℤ) (s : World)
      → v ≢ w
      → pos 1 ≤ℤ q
      → IsStocked s.session.inventories
      → Decides (knows w s && (knows v s && enough p v q s)) (transfer_stock p v w q s)
  unfolding transfer_stock
  transfer_stock-Decides p v w q s n positive h = elim (Bool-cases (source_first v w)) [
    | inl y ↦ rw y (
        Decides-same _ (and_comm (knows v s && enough p v q s) (knows w s)) (
          Decides-bind (knows v s && enough p v q s) (knows w s) _ _ s
            (decrease_stock-Leg p v q s h) (decrease_stock-Decides p v q s positive h)
            λ x s' l.
              Decides-last (knows w s) _ _ s'
                (Decides-same _ (knows-Leg w p v _ s x s' l) (increase_stock-Decides p w q s'))))
    | inr y ↦ rw y (
        Decides-bind (knows w s) (knows v s && enough p v q s) _ _ s
          (increase_stock-Leg p w q s (omega (arith, positive)) h) (increase_stock-Decides p w q s)
          λ x s' l. Decides-last (knows v s && enough p v q s) _ _ s' (
            Decides-same _ (decrease-later p v w q q s x s' n l)
              (decrease_stock-Decides p v q s' positive l.changed.stocked)))
  ]

  -- The warehouses of the movement can do their part.
  abbrev places : MovementCreate → World → Bool
  places d s =
      can_receive (view s.session) d.destination_warehouse_id
      && can_give (view s.session) d.product_id d.quantity d.source_warehouse_id

  apply_in-Decides :
      (d : MovementCreate) (s : World)
      → IsShaped MovementType.in_ d.source_warehouse_id d.destination_warehouse_id
      → Decides (places d s) (apply_in d s)
  unfolding apply_in
  apply_in-Decides d s (w, e, f) = Ends-ok _ _ _ w s (rw e) (
      Decides-last (places d s) _ _ s (
        Decides-same _ (rw (e, f) (ground arith))
          (increase_stock-Decides d.product_id w d.quantity s)))

  apply_out-Decides :
      (d : MovementCreate) (s : World)
      → pos 1 ≤ℤ d.quantity
      → IsShaped MovementType.out d.source_warehouse_id d.destination_warehouse_id
      → IsStocked s.session.inventories
      → Decides (places d s) (apply_out d s)
  unfolding apply_out
  apply_out-Decides d s n (v, e, f) h = Ends-ok _ _ _ v s (rw e) (
      Decides-last (places d s) _ _ s
        (Decides-same _ (rw (e, f) refl) (decrease_stock-Decides d.product_id v d.quantity s n h)))

  apply_transfer-Decides :
      (d : MovementCreate) (s : World)
      → pos 1 ≤ℤ d.quantity
      → IsShaped MovementType.transfer d.source_warehouse_id d.destination_warehouse_id
      → IsStocked s.session.inventories
      → Decides (places d s) (apply_transfer d s)
  unfolding apply_transfer
  apply_transfer-Decides d s n (v, w, e, f, ne) h = Ends-ok _ _ _ v s (rw e) (
      Ends-ok _ _ _ w s (rw f) (
        Decides-last (places d s) _ _ s (
          Decides-same _ (rw (e, f) refl)
            (transfer_stock-Decides d.product_id v w d.quantity s ne n h))))

  apply_movement-Decides :
      (ty : MovementType) (d : MovementCreate) (s : World)
      → pos 1 ≤ℤ d.quantity
      → IsShaped ty d.source_warehouse_id d.destination_warehouse_id
      → IsStocked s.session.inventories
      → Decides (places d s) (apply_movement ty d s)
  unfolding apply_movement
  apply_movement-Decides MovementType.in_ d s n sh h = apply_in-Decides d s sh
  apply_movement-Decides MovementType.out d s n sh h = apply_out-Decides d s n sh h
  apply_movement-Decides MovementType.transfer d s n sh h = apply_transfer-Decides d s n sh h

  -- What follows the change of the stock.
  abbrev insert_and_commit :
      MovementCreate → Option Uuid → List Inventory → Action (Movement × List Inventory)
  insert_and_commit d by affected = do
    id ← uuid4
    time ← now
    movement ← create movement_model (new_movement d by id time)
    commit
    pure (movement, affected)

  Raises-insert :
      (d : MovementCreate) (by : Option Uuid) (affected : List Inventory)
      → Raises IsInternal (insert_and_commit d by affected)
  Raises-insert d by affected =
      search (raises_rules, Raises-new_movement, database_IsInternal) depth 8

  -- The transaction gets to its commit only where the ledger allows the movement, and is refused
  -- only where it does not.
  pub apply_and_commit-Decides :
      (d : MovementCreate) (by : Option Uuid) (s : World)
      → IsAccepted d
      → IsStocked s.session.inventories
      → Decides (is_allowed d (view s.session)) (apply_and_commit d by s)
  unfolding apply_and_commit
  apply_and_commit-Decides d by s a h =
      elim (Option-cases (find? (has_id product_model d.product_id) s.session.products)) [
        | inl e ↦
            Ends-err _ _ s _ s (get_or_raise_missing product_model d.product_id s e)
              (inr (inl refl, ap (λ k. k && places d s) (any-eq-find _ s.session.products e)))
        | inr (x, e) ↦ Ends-ok _ _ s x s (get_or_raise_found product_model d.product_id s x e) (
            Decides-same _
              (ap (λ k. k && places d s) (sym (any-find-some _ s.session.products x e)))
              (Ends-bind (λ _ _. places d s ≡ true) _ _ _
                (apply_movement-Decides d.movement_type d s a.positive a.shaped h)
                λ affected s' t.
                  Decides-internal (places d s) _ s' (Raises-insert d by affected) t))
      ]
