-- ===== src/Core/Scheduler.antt =====
-- app/core/scheduler.py: the start and the stop of the scheduler, and app/main.py's `lifespan`, which
-- calls them. APScheduler is the parameter `JobScheduler`.
pub mod Lifespan
use Prim.Native.String.{String}
use inventory_management_api.Base.{
  ℕ, suc, ◌≡◌, ◌==◌, Bool, true, false, not, Option, none, some, if◌then◌else◌,
}

-- A scheduler, with the number of its jobs that have an id.
pub record JobScheduler : Type 1 where
  pub State : Type 0
  pub jobs : String → State → ℕ
  pub running : State → Bool
  pub add_job : (seconds : ℕ) → (id : String) → State → State
  pub start : State → State
  pub shutdown : State → State
  pub jobs-add_job :
      (seconds : ℕ) (id : String) (s : State) → jobs id (add_job seconds id s) ≡ suc (jobs id s)
  pub running-add_job :
      (seconds : ℕ) (id : String) (s : State) → running (add_job seconds id s) ≡ running s
  pub jobs-start : (id : String) (s : State) → jobs id (start s) ≡ jobs id s
  pub running-start : (s : State) → running (start s) ≡ true
  pub running-shutdown : (s : State) → running (shutdown s) ≡ false

-- `_HEARTBEAT_INTERVAL_SECONDS`
abbrev pub heartbeat_interval_seconds : ℕ
heartbeat_interval_seconds = 30

abbrev pub heartbeat_id : String
heartbeat_id = "websocket_heartbeat"

-- The task that relays messages: it runs, or has been cancelled, or has ended by an exception.
pub data RelayTask (E : Type 0) : Type 0 where
  relaying cancelled : RelayTask E
  crashed : E → RelayTask E

module _ (js : JobScheduler) where
  -- `if scheduler.get_job(…) is None: scheduler.add_job(…)`
  unfoldable pub add_heartbeat : js.State → js.State
  add_heartbeat s =
      if js.jobs heartbeat_id s == 0
      then js.add_job heartbeat_interval_seconds heartbeat_id s
      else s

  -- `start_scheduler`
  unfoldable pub start_scheduler : js.State → js.State
  unfolding add_heartbeat
  start_scheduler s = let t = add_heartbeat s in if not (js.running t) then js.start t else t

  -- `stop_scheduler`
  unfoldable pub stop_scheduler : js.State → js.State
  stop_scheduler s = if js.running s then js.shutdown s else s

  module _ (E : Type 0) where
    -- What the API process holds while it runs. `closed` says whether the broadcaster's connection
    -- has been released.
    pub record App : Type 0 where
      pub scheduler : js.State
      pub relay_task : RelayTask E
      pub closed : Bool

  module _ {E : Type 0} where
    -- `relay_task.cancel()`: no effect on a task that has ended.
    abbrev pub cancel : RelayTask E → RelayTask E
    cancel relaying = cancelled
    cancel cancelled = cancelled
    cancel (crashed e) = crashed e

    -- `with contextlib.suppress(asyncio.CancelledError): await relay_task`, where the exception of the
    -- task itself comes through, and then the close.
    abbrev pub await_and_close : RelayTask E → App E → Option E × App E
    await_and_close (crashed e) a = (some e, a)
    await_and_close _ a = (none, record a { closed = true })

    -- The `finally` of `lifespan`: an exception in it replaces that of the body.
    abbrev pub finish : Option E → Option E × App E → Option E × App E
    finish raised (none, a) = (raised, a)
    finish raised (some e, a) = (some e, a)

    abbrev pub tear_down : Option E × App E → Option E × App E
    tear_down (raised, a) =
        let task = cancel a.relay_task in
        finish raised (
          await_and_close task
            (record a { scheduler = stop_scheduler a.scheduler; relay_task = task }))

    -- `lifespan`, around what the process does meanwhile.
    unfoldable pub lifespan : (meanwhile : App E → Option E × App E) → js.State → Option E × App E
    unfolding start_scheduler stop_scheduler
    lifespan meanwhile s = tear_down (
        meanwhile (record { scheduler = start_scheduler s; relay_task = relaying; closed = false }))
