-- ===== src/Tasks/Monitoring.antt =====
-- app/tasks/monitoring.py: the handlers of Celery's signals, and the table of start times that they
-- share. A reading of the clock is a number of tenths of a millisecond, the unit of the durations.
pub mod Running
use Prim.Native.String.{String}
use text.Mathlib.Text.{◌==◌ as str_eq}
use inventory_management_api.Base.{ℕ, ◌-◌, ◌==◌, Option, none, some, List, [], ◌∷◌, if◌then◌else◌}

-- The signals, with the arguments that the handlers use.
pub data Signal : Type 0 where
  task_prerun : (task_id name : Option String) → Signal
  task_postrun : (task_id name state : Option String) → Signal
  task_failure : (task_id name : Option String) → Signal
  task_retry : (task_id name : Option String) → Signal

-- The lines logged: the name of the task, its id, and how it ended.
pub data TaskLine : Type 0 where
  started : (name task_id : Option String) → TaskLine
  finished : (name task_id state : Option String) (duration_ms : Option ℕ) → TaskLine
  failed : (name task_id : Option String) → TaskLine
  retrying : (name task_id : Option String) → TaskLine

-- `_start_times`, and the log with the latest line first.
pub record Monitor : Type 0 where
  pub start_times : String → Option ℕ
  pub lines : List TaskLine

abbrev pub initial : Monitor
initial = record { start_times = λ id. none; lines = [] }

abbrev pub put : String → Option ℕ → (String → Option ℕ) → String → Option ℕ
put id time table j = if str_eq j id then time else table j

-- `_start_times[task_id] = …`
abbrev pub started_at : Option String → ℕ → (String → Option ℕ) → String → Option ℕ
started_at none time table = table
started_at (some id) time table = put id (some time) table

-- `_start_times.pop(task_id, None)`: the value, and the table without it.
abbrev pub popped : Option String → (String → Option ℕ) → Option ℕ
popped none table = none
popped (some id) table = table id

abbrev pub without : Option String → (String → Option ℕ) → String → Option ℕ
without none table = table
without (some id) table = put id none table

-- `… if start_time else None`: zero counts as no start time.
unfoldable pub duration_since : Option ℕ → ℕ → Option ℕ
duration_since none time = none
duration_since (some start) time = if start == 0 then none else some (time - start)

-- The handlers, at a reading of the clock.
unfoldable pub on_task_prerun : Option String → Option String → ℕ → Monitor → Monitor
on_task_prerun task_id name time m = record {
  start_times = started_at task_id time m.start_times;
  lines = started name task_id ∷ m.lines;
}

unfoldable pub on_task_postrun :
    Option String → Option String → Option String → ℕ → Monitor → Monitor
on_task_postrun task_id name state time m = record {
  start_times = without task_id m.start_times;
  lines =
      finished name task_id state (duration_since (popped task_id m.start_times) time) ∷ m.lines;
}

unfoldable pub on_task_failure : Option String → Option String → Monitor → Monitor
on_task_failure task_id name m = record m { lines = failed name task_id ∷ m.lines }

unfoldable pub on_task_retry : Option String → Option String → Monitor → Monitor
on_task_retry task_id name m = record m { lines = retrying name task_id ∷ m.lines }

-- `@signals.….connect`
unfoldable pub on_signal : Signal → ℕ → Monitor → Monitor
unfolding on_task_prerun on_task_postrun on_task_failure on_task_retry
on_signal (task_prerun task_id name) time m = on_task_prerun task_id name time m
on_signal (task_postrun task_id name state) time m = on_task_postrun task_id name state time m
on_signal (task_failure task_id name) time m = on_task_failure task_id name m
on_signal (task_retry task_id name) time m = on_task_retry task_id name m

-- The signals of a worker process, in their order, each with its time.
abbrev pub on_signals : List (Signal × ℕ) → Monitor → Monitor
on_signals [] m = m
on_signals ((signal, time) ∷ rest) m = on_signals rest (on_signal signal time m)
