-- ===== src/Hub/Exit.antt =====
-- hub.go: what happens when a worker writes a line or exits, and how a task starts again.
use Prim.Native.String.{◌++◌ as append}
use sticky_overseer.Base.{
  ℕ, ◌+◌, ◌-◌, ◌/◌, String, Bool, true, false, Option, none, some, List, [], ◌∷◌, ◌++◌, ◌&&◌, ◌||◌,
  not, ite, text_eq, ℤ, pos, negsuc, is_positive, is_zero, reaches, inl, inr, lookup, length, keep,
  if◌then◌else◌,
}
use sticky_overseer.Metrics.{record_exit, record_restart, record_output}
use sticky_overseer.Worker
use sticky_overseer.Worker.{Worker, Stream, add_event, worker_exits, scan_failed}
use sticky_overseer.Messages.{RetryPolicy}
use sticky_overseer.Hub.Types.{
  Hub, Task, TaskRecord, state_active, state_errored, is_active, is_stopped, is_errored, Message,
  World, emit, log_event, restart_later, add_delay, is_recent,
}
use sticky_overseer.Hub.Clients.{broadcast_to_subscribers, send_json, send_error}
use sticky_overseer.Hub.Launch.{set_task, release_task}
use sticky_overseer.Hub.Start.{handler_of}

-- The exits that count: those within the window, where there is one, and this one.
unfoldable pub counted_exits : RetryPolicy → ℕ → List ℕ → List ℕ
counted_exits rp now history =
    (if is_zero rp.error_window then history else keep (is_recent now rp.error_window) history)
    ++ now ∷ []

abbrev pub reaches_threshold : RetryPolicy → ℕ → Bool
reaches_threshold rp n = is_positive rp.error_threshold && reaches n rp.error_threshold

-- What an exit makes of a task: nothing but the time of it where it was intended or the task is
-- stopped or has no policy, the errored state, or a restart.
pub data Outcome : Type 0 where
  settles : Outcome
  errs restarts : RetryPolicy → Outcome

unfoldable pub exit_task : Bool → ℕ → Task → Task × Outcome
exit_task intentional now task =
    let r : TaskRecord = record (task.record_) { last_exited_at = some now } in
    let settled : Task = record task { record_ = r } in
    if intentional || is_stopped r.state then (settled, settles) else (elim (r.retry_policy) [
      | none ↦ (settled, settles)
      | some rp ↦
          let history = counted_exits rp now task.exit_history in
          let counted : TaskRecord = record r { exit_count = length history } in
          if reaches_threshold rp (length history)
          then (
            record task {
              record_ = record counted { state = state_errored };
              exit_history = history;
            },
            errs rp,
          )
          else (record task { record_ = counted; exit_history = history }, restarts rp)
    ])

-- `now.Sub(*task.record.LastStartedAt).Milliseconds()`, of a clock that does not go back.
abbrev pub runtime_ms : ℕ → Option ℕ → ℕ
runtime_ms now none = 0
runtime_ms now (some started_at) = (now - started_at) / 1000000

-- The task once `doRestart` has a new worker for it.
unfoldable pub restarted_task : ℕ → ℕ → Worker → Task → Task
restarted_task now attempt w task = record task {
  worker = some w;
  record_ = record (task.record_) { restart_count = attempt; last_started_at = some now };
}

-- The task that `handleReset` resets, and the same task once it has a new worker.
unfoldable pub reset_task : Task → Task
reset_task task = record task {
  record_ = record (task.record_) { state = state_active; exit_count = 0 };
  exit_history = [];
}

unfoldable pub reset_started_task : ℕ → Worker → Task → Task
reset_started_task now w task = record task {
  worker = some w;
  record_ = record (task.record_) { last_started_at = some now };
}

-- The task once a line of its worker has its number and is in the worker's ring buffer.
unfoldable pub output_task : ℕ → Stream → String → Task → Worker → Task
output_task now stream line task w =
    let seq = task.output_seq + 1 in
    record task {
      output_seq = seq;
      worker = some (add_event (Worker.output stream line seq now) w);
    }

-- The task once a line that the filter leaves out is in the ring buffer, and once its worker ended.
unfoldable pub withheld_task : ℕ → Stream → String → Task → Worker → Task
withheld_task now stream line task w = record task {
  worker = some (add_event (Worker.output stream line 0 now) w);
}

unfoldable pub ended_task : ℕ → ℤ → Task → Worker → Task
ended_task now code task w = record task { worker = some (worker_exits code now w) }

-- The task once a scanner of its worker has failed.
unfoldable pub broken_task : Task → Worker → Task
broken_task task w = record task { worker = some (scan_failed w) }

module _ (world : World) where
  -- `restartDelay`
  unfoldable pub delay_of : RetryPolicy → ℤ
  delay_of rp = elim (rp.restart_jitter) [
    | pos j ↦
        if is_positive (pos j)
        then add_delay rp.restart_delay (world.int63n j)
        else rp.restart_delay
    | negsuc _ ↦ rp.restart_delay
  ]

  -- What the hub counts, sends and starts for the outcome of an exit.
  unfoldable pub conclude_exit : ℕ → String → ℕ → ℤ → Task → Outcome → Hub → Hub
  conclude_exit now task_id pid code task settles h = h
  conclude_exit now task_id pid code task (errs rp) h =
      let counted : Hub = record h {
        metrics = record_exit task_id (task.record_).action code true 0 h.metrics;
      } in
      broadcast_to_subscribers world task_id
        (Message.errored task_id pid (task.record_).exit_count now) counted
  conclude_exit now task_id pid code task (restarts rp) h =
      let attempt = (task.record_).restart_count + 1 in
      let counted : Hub = record h {
        metrics = record_restart task_id (task.record_).action h.metrics;
      } in
      emit (restart_later task_id pid attempt (delay_of rp)) (
        broadcast_to_subscribers world task_id
          (Message.restarting task_id pid (delay_of rp) attempt now) counted)

  -- The part of `onWorkerExited` under `task.mu`.
  unfoldable pub exit_known : ℕ → String → ℕ → ℤ → Bool → Task → Hub → Hub
  exit_known now task_id pid code intentional task h =
      let (task', outcome) = exit_task intentional now task in
      let counted : Hub = record h {
        metrics =
            record_exit task_id (task.record_).action code false
              (runtime_ms now (task.record_).last_started_at) h.metrics;
      } in
      conclude_exit now task_id pid code task' outcome (set_task task_id task' counted)

  unfoldable pub on_worker_exited : ℕ → String → ℕ → ℤ → Bool → Hub → Hub
  on_worker_exited now task_id pid code intentional h =
      let msg = Message.exited task_id pid code intentional now in
      let told = emit (log_event msg) (broadcast_to_subscribers world task_id msg h) in
      let released = release_task world now task_id told in
      elim (lookup task_id released.tasks) [
        | none ↦ released
        | some task ↦ exit_known now task_id pid code intentional task released
      ]

  -- `OnOutput` of `workerCBForTask`, `addEvent` and `LogEvent` for a line of `w`, the worker that
  -- `task` has.
  unfoldable pub on_output : ℕ → Stream → String → String → Task → Worker → Hub → Hub
  on_output now stream line task_id task w h =
      let msg = Message.output task_id w.pid stream line now (task.output_seq + 1) in
      let counted : Hub = record (set_task task_id (output_task now stream line task w) h) {
        metrics = record_output task_id (task.record_).action h.metrics;
      } in
      emit (log_event msg) (broadcast_to_subscribers world task_id msg counted)

  -- The end of `doRestart`: the new worker takes its place.
  unfoldable pub restarted : ℕ → ℕ → ℕ → Task → Worker → Hub → Hub
  restarted now old_pid attempt task w h =
      let r = task.record_ in
      broadcast_to_subscribers world r.task_id
        (Message.started "" r.task_id w.pid old_pid w.started_at)
        (set_task r.task_id (restarted_task now attempt w task) h)

  -- `doRestart` on the task `task`; `aborted` tells whether `select` received from `shutdownCh`.
  unfoldable pub do_restart : Bool → ℕ → ℕ → ℕ → ℤ → Task → Hub → Hub
  do_restart aborted now old_pid attempt delay task h =
      let r = task.record_ in
      if is_positive delay && aborted || not (is_active r.state)
      then h
      else (elim (handler_of world r.action) [
        | none ↦ h
        | some handler ↦ elim (handler.start now r.task_id r.params) [
          | inl err ↦ h
          | inr w ↦ restarted now old_pid attempt task w h
        ]
      ])

  unfoldable pub reset_started : ℕ → ℕ → String → String → Task → Worker → Hub → Hub
  reset_started now conn id task_id task w h =
      let msg = Message.started id task_id w.pid 0 w.started_at in
      emit (log_event msg) (send_json conn msg (set_task task_id (reset_started_task now w task) h))

  -- The part of `handleReset` after the state was reset.
  unfoldable pub restart_reset : ℕ → ℕ → String → String → Task → Hub → Hub
  restart_reset now conn id task_id task h =
      let r = task.record_ in
      elim (world.actions) [
        | none ↦ send_error conn id "no actions configured" h
        | some _ ↦ elim (handler_of world r.action) [
          | none ↦ send_error conn id (append "unknown action: " (world.quote r.action)) h
          | some handler ↦ elim (handler.start now r.task_id r.params) [
            | inl err ↦ send_error conn id err h
            | inr w ↦ reset_started now conn id task_id task w h
          ]
        ]
      ]

  unfoldable pub handle_reset : ℕ → ℕ → String → String → Hub → Hub
  handle_reset now conn id task_id h =
      ite (text_eq task_id "") (send_error conn id "task_id is required" h)
        (elim (lookup task_id h.tasks) [
          | none ↦ send_error conn id "task not found" h
          | some task ↦
              if is_errored (task.record_).state
              then restart_reset now conn id task_id (reset_task task)
                  (set_task task_id (reset_task task) h)
              else send_error conn id "task is not in errored state" h
        ])
