-- ===== src/Hub/Processes.antt =====
-- What a worker of a task reports to the hub: worker.go from its scanners and the goroutine that
-- waits for the process, with the callbacks of hub.go.
use sticky_overseer.Base.{ℕ, String, Bool, true, false, none, some, List, [], ◌∷◌, ℤ, lookup, keep}
use sticky_overseer.Worker.{Worker, Stream, stream_stdout, stream_stderr}
use sticky_overseer.Worker.Start.{WorkerConfig}
use sticky_overseer.Hub.Types.{Hub, Task, Message, World, emit, log_event}
use sticky_overseer.Hub.Launch.{set_task}
use sticky_overseer.Hub.Exit.{withheld_task, ended_task, broken_task, on_output, on_worker_exited}

-- A line that a scanner returns: what the clock says then, and whether the handler's filter forwards
-- it.
pub record Line : Type 0 where
  pub stream : Stream
  pub text : String
  pub ts : ℕ
  pub forwarded : Bool

-- The end of `scan` where the scanner failed, for the worker that `task` has.
unfoldable pub scan_breaks : String → Task → Worker → Hub → Hub
scan_breaks task_id task w h = set_task task_id (broken_task task w) h

-- `if !include { continue }`
abbrev pub is_included : WorkerConfig → Line → Bool
is_included cfg l = elim (l.stream) [
  | stream_stdout ↦ cfg.include_stdout
  | stream_stderr ↦ cfg.include_stderr
]

module _ (world : World) where
  -- A round of `scan`, for a line of `w`, the worker that `task` has: the handler's filter forwards
  -- the line to `OnOutput` of the hub or not.
  unfoldable pub scan_line : Bool → ℕ → Stream → String → String → Task → Worker → Hub → Hub
  scan_line true now stream line task_id task w h = on_output world now stream line task_id task w h
  scan_line false now stream line task_id task w h =
      emit (log_event (Message.output task_id w.pid stream line now 0))
        (set_task task_id (withheld_task now stream line task w) h)

  -- The loops of `scan` over the lines of both streams, in the order in which they are read, as long
  -- as the task has a worker.
  unfoldable pub scan_lines : String → List Line → Hub → Hub
  scan_lines task_id [] h = h
  scan_lines task_id (l ∷ ls) h = elim (lookup task_id h.tasks) [
    | none ↦ h
    | some task ↦ elim (task.worker) [
      | none ↦ h
      | some w ↦ scan_lines task_id ls (scan_line l.forwarded l.ts l.stream l.text task_id task w h)
    ]
  ]

  -- `scan` on both streams, without its end.
  unfoldable pub scan : WorkerConfig → String → List Line → Hub → Hub
  scan cfg task_id ls h = scan_lines task_id (keep (is_included cfg) ls) h

  -- The end of the goroutine, for the worker that `task` has.
  unfoldable pub process_exits : ℕ → ℤ → String → Task → Worker → Hub → Hub
  process_exits now code task_id task w h =
      on_worker_exited world now task_id w.pid code w.intentional_stop
        (set_task task_id (ended_task now code task w) h)
