-- ===== src/Worker.antt =====
-- worker.go: the state of a worker, its ring buffer of events, its exit and `Stop`. The process,
-- its pipes and the clock are outside: `now` is what `time.Now` returns, a line is an argument.
pub mod Ring
pub mod Start
use sticky_overseer.Base.{
  ℕ, ◌≤◌, String, Bool, true, false, Option, none, some, List, [], ◌∷◌, ◌++◌, ℤ, leb, ltb, not,
  length, if◌then◌else◌, keep,
}

pub data WorkerState : Type 0 where
  worker_running worker_exited : WorkerState

pub data Stream : Type 0 where
  stream_stdout stream_stderr : Stream

-- `Event` of messages.go: `type` is "output" or "exited", and each kind has its own fields.
pub data Event : Type 0 where
  output : Stream → String → ℕ → ℕ → Event
  exited : ℤ → Bool → ℕ → Event

-- `TS`
abbrev pub event_ts : Event → ℕ
event_ts (output stream line seq ts) = ts
event_ts (exited code intentional ts) = ts

-- `is_virtual` tells whether `cmd` is nil. `stop_closed` tells whether `stopCh` is closed.
pub record Worker : Type 0 where
  pub pid : ℕ
  pub task_id : String
  pub state : WorkerState
  pub started_at : ℕ
  pub exited_at : Option ℕ
  pub exit_code : Option ℤ
  pub is_virtual : Bool
  pub events : List Event
  pub intentional_stop : Bool
  pub stop_closed : Bool

abbrev pub ring_buffer_size : ℕ
ring_buffer_size = 100

-- `xs[1:]`
abbrev pub tail {ℓ} : {A : Type ℓ} → List A → List A
tail [] = []
tail (x ∷ xs) = xs

unfoldable pub add_event : Event → Worker → Worker
add_event e w =
    if leb ring_buffer_size (length w.events)
    then record w { events = tail w.events ++ e ∷ [] }
    else record w { events = w.events ++ e ∷ [] }

unfoldable pub get_events : Option ℕ → Worker → List Event
get_events none w = w.events
get_events (some since) w = keep (λ e. not (ltb (event_ts e) since)) w.events

-- `events[len(events)-1]`
abbrev pub last_of : List Event → Option Event
last_of [] = none
last_of (e ∷ es) = elim (last_of es) [ none ↦ some e | some l ↦ some l ]

unfoldable pub last_event_at : Worker → Option ℕ
last_event_at w = elim (last_of w.events) [ none ↦ none | some e ↦ some (event_ts e) ]

abbrev pub is_running : Worker → Bool
is_running w = elim (w.state) [ worker_running ↦ true | worker_exited ↦ false ]

-- `StartWorker` and `StartVirtualWorker`, once the process or the goroutine runs.
abbrev pub new_worker : Bool → ℕ → String → ℕ → Worker
new_worker is_virtual pid task_id now = record {
  pid = pid;
  task_id = task_id;
  state = worker_running;
  started_at = now;
  exited_at = none;
  exit_code = none;
  is_virtual = is_virtual;
  events = [];
  intentional_stop = false;
  stop_closed = false;
}

-- The goroutine after `cmd.Wait`, or after `fn`, as far as `OnExited`.
unfoldable pub worker_exits : ℤ → ℕ → Worker → Worker
worker_exits code now w =
    add_event (exited code w.intentional_stop now)
      (record w { state = worker_exited; exited_at = some now; exit_code = some code })

-- `scan` after its loop, where the scanner has an error, such as a line of more than ten megabytes.
unfoldable pub scan_failed : Worker → Worker
scan_failed w = if is_running w then record w { state = worker_exited } else w

-- What `Stop` does to the process or the context; closing a closed channel panics.
pub data Signal : Type 0 where
  sigterm sigkill : ℕ → Signal
  cancels_context panics : Signal

unfoldable pub stop : Worker → Worker × List Signal
stop w =
    let asked : Worker = record w { intentional_stop = true } in
    if not (is_running w)
    then (w, [])
    else if w.is_virtual
    then (asked, cancels_context ∷ [])
    else if w.stop_closed
    then (asked, sigterm w.pid ∷ panics ∷ [])
    else (record asked { stop_closed = true }, sigterm w.pid ∷ [])

-- The goroutine that `Stop` starts: `timed_out` tells which channel `select` received from.
unfoldable pub escalate : Bool → Worker → List Signal
escalate timed_out w = if timed_out then (if is_running w then sigkill w.pid ∷ [] else []) else []
