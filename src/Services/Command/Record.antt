-- ===== src/Services/Command/Record.antt =====
-- `record_movement` as a request: what is committed when it ends, on success and on every error.
use inventory_management_api.Base.{
  ⊤, ◌≡◌, refl, ◌∙◌, ap, subst, sym, ◌⊎◌, inl, inr, Option, List, [], ◌∷◌,
}
use inventory_management_api.Errors.{Error, Result, ok, err}
use inventory_management_api.Models.{Uuid, MovementType, Inventory, Movement, Tables}
use inventory_management_api.Events.{Event}
use inventory_management_api.Schemas.Movement.{MovementCreate}
use inventory_management_api.Schemas.Movement.Shape.{IsAccepted}
use inventory_management_api.Session.{Env, World, publish, begin, with_session}
use inventory_management_api.Session.Ends.{
  Ends, Ends-bind, Ends-map, Ends-close, Ends-always, Uncommitted,
}
use inventory_management_api.Session.Keeps.{Keeps, Keeps-bind, Keeps-pure, keeps_rules}
use inventory_management_api.Stock.{IsStocked, IsSound}
use inventory_management_api.Services.Alert.Frame.{OnlyAlerts, evaluate-OnlyAlerts}
use inventory_management_api.Services.Command.{
  build_movement_event, evaluate_all, announce, record_movement,
}
use inventory_management_api.Services.Command.Transaction.{
  Recorded, Recorded-IsSound, Done, apply_and_commit-Done,
}

module _ ⦃env : Env⦄ (t : Tables) where
  publish-OnlyAlerts : (e : Event) → Keeps (OnlyAlerts t) (publish e)
  unfolding publish
  publish-OnlyAlerts e = record {
    at = λ s h. record { session = h.session; committed = h.committed };
  }

  evaluate_all-OnlyAlerts : (rs : List Inventory) → Keeps (OnlyAlerts t) (evaluate_all rs)
  unfolding evaluate_all
  evaluate_all-OnlyAlerts [] = Keeps-pure tt
  evaluate_all-OnlyAlerts (r ∷ rs) =
      Keeps-bind _ _ (evaluate-OnlyAlerts t r) (λ _. evaluate_all-OnlyAlerts rs)

  build-OnlyAlerts :
      (ty : MovementType) (d : MovementCreate) (rs : List Inventory)
      → Keeps (OnlyAlerts t) (build_movement_event ty d rs)
  unfolding build_movement_event
  build-OnlyAlerts MovementType.in_ d rs = search keeps_rules
  build-OnlyAlerts MovementType.out d rs = search keeps_rules
  build-OnlyAlerts MovementType.transfer d rs = search keeps_rules

  announce-OnlyAlerts :
      (d : MovementCreate) (rs : List Inventory) → Keeps (OnlyAlerts t) (announce d rs)
  unfolding announce
  announce-OnlyAlerts d rs =
      search (keeps_rules, evaluate_all-OnlyAlerts, build-OnlyAlerts, publish-OnlyAlerts)

-- A record of a movement does not depend on the alerts.
Recorded-alerts :
    (d : MovementCreate) (by : Option Uuid) (t : Tables) (m : Movement) (u v : Tables)
    → Recorded d by t m u
    → v ≡ record u { alerts = v.alerts }
    → Recorded d by t m v
Recorded-alerts d by t m u v r e = subst (Recorded d by t m) (sym e) (record {
  product_id = r.product_id;
  movement_type = r.movement_type;
  quantity = r.quantity;
  source = r.source;
  destination = r.destination;
  reason = r.reason;
  performer = r.performer;
  trail = r.trail;
  stocked = r.stocked;
  level = r.level;
  products = r.products;
  warehouses = r.warehouses;
  users = r.users;
})

-- The failures of a request: before the commit, with nothing committed or announced, or behind it,
-- with the movement on record.
abbrev pub Failed : MovementCreate → Option Uuid → World → World → Type 0
Failed d by s s' = Uncommitted s s' ⊎ ((m : Movement) × Recorded d by s.committed m s'.committed)

module _ ⦃env : Env⦄ (d : MovementCreate) (by : Option Uuid) where
  pub keeps_record :
      (s : World) (m : Movement) (s' : World)
      → Done d by s m s'
      → (rs : List Inventory) → Recorded d by s.session m (announce d rs s').1.committed
  keeps_record s m s' done rs =
      Recorded-alerts d by s.session m s'.session _ done.recorded
        ((announce-OnlyAlerts s'.session d rs).at s' (record {
          session = refl;
          committed =
              done.committed
              ∙ ap (λ (x : Tables). record s'.session { alerts = x.alerts }) (sym done.committed);
        })).committed

  record_movement-Ends :
      (s : World)
      → IsAccepted d
      → IsStocked s.session.inventories
      → Ends
          (λ m s'. Recorded d by s.session m s'.committed)
          (λ e s'. Uncommitted s s' ⊎ ((m : Movement) × Recorded d by s.session m s'.committed))
          (record_movement d by s)
  unfolding record_movement
  record_movement-Ends s a h =
      Ends-bind (λ (r : Movement × List Inventory) s'. Done d by s r.0 s') _ _ _
        (Ends-map _ (apply_and_commit-Done d by s a h) (λ r s' done. done) (λ e s' u. inl u))
        λ r s' done.
          Ends-bind (λ _ s''. Recorded d by s.session r.0 s''.committed) _ _ _
            (either (announce d r.1 s') r.0 (keeps_record s r.0 s' done r.1))
            λ _ s'' k. record { outcome = k }
    where
      either :
          (o : Result ⊤ × World) (m : Movement)
          → Recorded d by s.session m o.1.committed
          → Ends
              (λ _ s''. Recorded d by s.session m s''.committed)
              (λ e s''.
                Uncommitted s s'' ⊎ ((n : Movement) × Recorded d by s.session n s''.committed))
              o
      either (ok tt, s'') m k = record { outcome = k }
      either (err e, s'') m k = record { outcome = inr (m, k) }

  -- A request that records a movement, from whatever is committed. If it returns, the movement
  -- stands in the committed trail as the payload gave it, every stock level has moved as asked and
  -- no product, warehouse or user has changed. If it raises, either nothing is committed, published
  -- or queued, or the same is committed (an alert failed behind the commit).
  pub record_movement_outcome :
      (s : World)
      → IsAccepted d
      → IsStocked s.committed.inventories
      → Ends
          (λ m s'. Recorded d by s.committed m s'.committed)
          (λ e s'. Failed d by s s')
          (with_session (record_movement d by) s)
  unfolding with_session
  record_movement_outcome s a h =
      Ends-close _ (Ends-map _ (record_movement-Ends (begin s) a h) (λ m s' r. r) failed)
    where
      failed :
          (e : Error) (s' : World)
          → Uncommitted (begin s) s' ⊎ ((m : Movement) × Recorded d by s.committed m s'.committed)
          → Failed d by s (begin s')
      failed e s' (inl u) =
          inl (record { committed = u.committed; published = u.published; queued = u.queued })
      failed e s' (inr r) = inr r

  -- The committed audit trail accounts for every committed stock level, and no level is negative,
  -- after any request, whether it returns or raises.
  pub record_movement-IsSound :
      (s : World)
      → IsAccepted d
      → IsSound s.committed
      → IsSound (with_session (record_movement d by) s).1.committed
  record_movement-IsSound s a h =
      Ends-always (λ s'. IsSound s'.committed) _ (record_movement_outcome s a h.stocked)
        (λ m s' r. Recorded-IsSound d by s.committed m s'.committed r h) failed
    where
      failed : (e : Error) (s' : World) → Failed d by s s' → IsSound s'.committed
      failed e s' (inl u) = subst IsSound (sym u.committed) h
      failed e s' (inr (m, r)) = Recorded-IsSound d by s.committed m s'.committed r h
