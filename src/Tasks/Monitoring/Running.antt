-- ===== src/Tasks/Monitoring/Running.antt =====
-- The table of start times: just the tasks that run, however their signals interleave.
use Prim.Native.String.{String}
use text.Mathlib.Text.{◌==◌ as str_eq}
use text.Mathlib.TextPositions.{eq_refl}
use inventory_management_api.Base.{
  ℕ, ◌-◌, ◌≡◌, refl, ◌∙◌, ap, Bool, true, false, not, Option, none, some, List, [], ◌∷◌, ◌==◌,
  if◌then◌else◌, arith,
}
use inventory_management_api.Base.Rows.{All}
use inventory_management_api.Tasks.Monitoring.{
  Signal, task_prerun, task_postrun, task_failure, task_retry, Monitor, duration_since, on_signal,
  on_signals, finished,
}

abbrev names : Option String → String → Bool
names none id = false
names (some task_id) id = str_eq id task_id

-- When the task that runs under an id was started, by the signals: the time of its last start, if it
-- has not finished since.
abbrev pub running_since : String → Signal → ℕ → Option ℕ → Option ℕ
running_since id (task_prerun task_id name) time before =
    if names task_id id then some time else before
running_since id (task_postrun task_id name state) time before =
    if names task_id id then none else before
running_since id (task_failure task_id name) time before = before
running_since id (task_retry task_id name) time before = before

abbrev pub running_after : String → List (Signal × ℕ) → Option ℕ → Option ℕ
running_after id [] before = before
running_after id ((signal, time) ∷ rest) before =
    running_after id rest (running_since id signal time before)

on_signal-running :
    (id : String) (signal : Signal) (time : ℕ) (m : Monitor)
    → (on_signal signal time m).start_times id ≡ running_since id signal time (m.start_times id)
unfolding on_signal
on_signal-running id (task_prerun none name) time m = refl
on_signal-running id (task_prerun (some i) name) time m = refl
on_signal-running id (task_postrun none name state) time m = refl
on_signal-running id (task_postrun (some i) name state) time m = refl
on_signal-running id (task_failure i name) time m = refl
on_signal-running id (task_retry i name) time m = refl

-- Behind any signals, the table has a start time for an id just if the last of its task's signals
-- that started or finished it was a start, and that start's time: it grows with the tasks that run
-- at a time, and not with those that have run.
pub on_signals-running :
    (id : String) (signals : List (Signal × ℕ)) (m : Monitor)
    → (on_signals signals m).start_times id ≡ running_after id signals (m.start_times id)
on_signals-running id [] m = refl
on_signals-running id ((signal, time) ∷ rest) m =
    on_signals-running id rest (on_signal signal time m)
    ∙ ap (running_after id rest) (on_signal-running id signal time m)

-- A signal that neither starts nor finishes the task.
abbrev is_other : String → Signal → Bool
is_other id (task_prerun task_id name) = not (names task_id id)
is_other id (task_postrun task_id name state) = not (names task_id id)
is_other id (task_failure task_id name) = true
is_other id (task_retry task_id name) = true

abbrev AreOthers : String → List (Signal × ℕ) → Type 0
AreOthers id signals = All (λ (s : Signal × ℕ). is_other id s.0 ≡ true) signals

others_keep :
    (id : String) (signal : Signal) (time : ℕ) (before : Option ℕ)
    → is_other id signal ≡ true
    → running_since id signal time before ≡ before
others_keep id (task_prerun i name) time before h = ground (arith, h)
others_keep id (task_postrun i name state) time before h = ground (arith, h)
others_keep id (task_failure i name) time before h = refl
others_keep id (task_retry i name) time before h = refl

running_after-others :
    (id : String) (signals : List (Signal × ℕ)) (before : Option ℕ)
    → AreOthers id signals
    → running_after id signals before ≡ before
running_after-others id [] before h = refl
running_after-others id ((signal, time) ∷ rest) before (h, hs) =
    ap (running_after id rest) (others_keep id signal time before h)
    ∙ running_after-others id rest before hs

started_now :
    (id : String) (name : Option String) (t : ℕ) (m : Monitor)
    → (on_signal (task_prerun (some id) name) t m).start_times id ≡ some t
started_now id name t m =
    on_signal-running id (task_prerun (some id) name) t m ∙ rw (eq_refl id) refl

-- A task that starts and then finishes, with any signals of other tasks between, logs the time
-- between as its duration, unless it started at the clock's zero.
pub postrun-duration :
    (id : String) (name name' state : Option String) (t t' : ℕ) (between : List (Signal × ℕ))
    → (m : Monitor) → AreOthers id between
    → (let m' = on_signals between (on_signal (task_prerun (some id) name) t m) in
        (on_signal (task_postrun (some id) name' state) t' m').lines
        ≡ finished name' (some id) state (if t == 0 then none else some (t' - t)) ∷ m'.lines)
unfolding on_signal duration_since
postrun-duration id name name' state t t' between m h =
    ap (λ d. finished name' (some id) state (duration_since d t') ∷ m'.lines) start
  where
    m' : Monitor
    m' = on_signals between (on_signal (task_prerun (some id) name) t m)

    start : m'.start_times id ≡ some t
    start =
        on_signals-running id between (on_signal (task_prerun (some id) name) t m)
        ∙ ap (running_after id between) (started_now id name t m)
        ∙ running_after-others id between (some t) h
