-- ===== src/Core/Scheduler/Lifespan.antt =====
-- The heartbeat has one job, and what is left of a process when it ends.
use inventory_management_api.Base.{
  ◌≡◌, ◌≢◌, ◌≤◌, refl, ◌==◌, ◌⊎◌, inl, inr, true, false, Option, arith, Bool-cases,
}
use inventory_management_api.Core.Scheduler.{
  JobScheduler, RelayTask, relaying, cancelled, crashed, heartbeat_id, heartbeat_interval_seconds,
  add_heartbeat, start_scheduler, stop_scheduler, App, tear_down, lifespan,
}

module _ (js : JobScheduler) where
  -- A start leaves the scheduler running, with just one job of the heartbeat if it had one at most.
  pub record Started (s : js.State) : Type 0 where
    pub runs : js.running s ≡ true
    pub job : js.jobs heartbeat_id s ≡ 1

  add_heartbeat-one :
      (s : js.State) → js.jobs heartbeat_id s ≤ 1 → js.jobs heartbeat_id (add_heartbeat js s) ≡ 1
  unfolding add_heartbeat
  add_heartbeat-one s l = elim (Bool-cases (js.jobs heartbeat_id s == 0)) [
    | inl y ↦ rw y (ground (arith, y, js.jobs-add_job heartbeat_interval_seconds heartbeat_id s))
    | inr n ↦ rw n (ground (arith, n, l))
  ]

  pub start_scheduler-Started :
      (s : js.State) → js.jobs heartbeat_id s ≤ 1 → Started (start_scheduler js s)
  unfolding start_scheduler
  start_scheduler-Started s l = elim (Bool-cases (js.running (add_heartbeat js s))) [
    | inl y ↦ rw y (record { runs = y; job = add_heartbeat-one s l })
    | inr n ↦ rw n (record {
      runs = js.running-start (add_heartbeat js s);
      job = rw (js.jobs-start heartbeat_id (add_heartbeat js s)) (add_heartbeat-one s l);
    })
  ]

  -- A second start changes nothing.
  pub start_scheduler-again : (s : js.State) → Started s → start_scheduler js s ≡ s
  unfolding start_scheduler add_heartbeat
  start_scheduler-again s h = rw (h.job, h.runs) refl

  stop_scheduler-stops : (s : js.State) → js.running (stop_scheduler js s) ≡ false
  unfolding stop_scheduler
  stop_scheduler-stops s = elim (Bool-cases (js.running s)) [
    | inl y ↦ rw y (js.running-shutdown s)
    | inr n ↦ rw n n
  ]

  module _ {E : Type 0} where
    -- What is left of the process: nothing runs, and the broadcaster is closed unless the relay
    -- task has crashed.
    pub record Ended (a : App js E) : Type 0 where
      pub stopped : js.running a.scheduler ≡ false
      pub relay : a.relay_task ≢ relaying
      pub closed : (a.closed ≡ true) ⊎ ((e : E) × (a.relay_task ≡ crashed e))

    tear_down-Ended : (raised : Option E) (a : App js E) → Ended (tear_down js (raised, a)).1
    tear_down-Ended raised a = by_task a.relay_task refl
      where
        by_task : (t : RelayTask E) → a.relay_task ≡ t → Ended (tear_down js (raised, a)).1
        by_task relaying h = rw h (record {
          stopped = stop_scheduler-stops a.scheduler;
          relay = λ p. cc p;
          closed = inl refl;
        })
        by_task cancelled h = rw h (record {
          stopped = stop_scheduler-stops a.scheduler;
          relay = λ p. cc p;
          closed = inl refl;
        })
        by_task (crashed e) h = rw h (record {
          stopped = stop_scheduler-stops a.scheduler;
          relay = λ p. cc p;
          closed = inr (e, refl);
        })

    -- However a process ends, its scheduler is stopped and its relay task does not run any more; the
    -- connection of the broadcaster is released, unless the relay task had crashed.
    pub lifespan-Ended :
        (meanwhile : App js E → Option E × App js E) (s : js.State)
        → Ended (lifespan js meanwhile s).1
    unfolding lifespan
    lifespan-Ended meanwhile s = tear_down-Ended _ _
