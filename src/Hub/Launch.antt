-- ===== src/Hub/Launch.antt =====
-- The closures that hub.go hands to the pool, and the hub's calls of `Acquire` and `Release`. `now`
-- is what `time.Now` returns throughout a step.
use sticky_overseer.Base.{
  add_key, remove_key, ℕ, String, Bool, true, Option, none, some, List, [], ◌∷◌, inl, inr, lookup,
  insert, delete, if◌then◌else◌,
}
use sticky_overseer.Metrics.{record_start, record_dequeued}
use sticky_overseer.Worker
use sticky_overseer.Worker.{Worker, Signal}
use sticky_overseer.Pool.Types.{
  Call, stops, starts, cancels, Reason, reason_text, item_expired, displaced_by_incoming,
  pool_rejected, start_failed, QueuedItem,
}
use sticky_overseer.Pool.Queue.{cancel, cancel_all}
use sticky_overseer.Pool.Manager.{PoolManager}
use sticky_overseer.Pool.Acquire
use sticky_overseer.Pool.Acquire.{
  Arrival, AcquireResult, acquire_running, acquire_queued, admit, finish_start,
}
use sticky_overseer.Pool.Release.{release_slot, finish_release}
use sticky_overseer.Hub.Types.{
  Hub, Task, TaskRecord, Launch, Message, World, state_active, state_stopped, emit, log_event,
  signal,
}
use sticky_overseer.Hub.Clients.{change_subscriptions, broadcast, broadcast_to_subscribers}

-- `if subs, ok := h.subscriptions[conn]; ok { subs[taskID] = struct{}{} }`
unfoldable pub auto_subscribe : Option ℕ → String → Hub → Hub
auto_subscribe none task_id h = h
auto_subscribe (some conn) task_id h = record h {
  subscriptions = change_subscriptions conn (add_key task_id) h.subscriptions;
}

abbrev pub new_record : ℕ → Launch → TaskRecord
new_record now l = record {
  task_id = l.task_id;
  action = l.action;
  params = l.params;
  retry_policy = l.retry_policy;
  state = state_active;
  restart_count = 0;
  exit_count = 0;
  created_at = now;
  last_started_at = some now;
  last_exited_at = none;
  error_message = "";
}

abbrev pub new_task : ℕ → Launch → Task
new_task now l = record {
  record_ = new_record now l;
  worker = none;
  exit_history = [];
  output_seq = 0;
}

-- The task leaves `pending` and enters `tasks`.
unfoldable pub register : ℕ → Launch → Hub → Hub
register now l h = record h {
  pending = remove_key l.task_id h.pending;
  tasks = insert l.task_id (new_task now l) h.tasks;
}

-- What `startFn` does where `handler.Start` fails.
unfoldable pub unregister : String → Hub → Hub
unregister task_id h = record h {
  tasks = delete task_id h.tasks;
  pending = remove_key task_id h.pending;
}

unfoldable pub set_task : String → Task → Hub → Hub
set_task task_id task h = record h { tasks = insert task_id task h.tasks }

-- What `worker.Stop` did to the process.
abbrev pub emit_signals : String → List Signal → Hub → Hub
emit_signals task_id [] h = h
emit_signals task_id (s ∷ ss) h = emit_signals task_id ss (emit (signal task_id s) h)

-- `stopWorker` on the task: a stopped worker is one that runs.
unfoldable pub stop_task : Bool → Task → Task × List Signal
stop_task intentional task =
    let task' : Task =
      if intentional
      then record task { record_ = record (task.record_) { state = state_stopped } }
      else task in
    elim (task.worker) [
      | none ↦ (task', [])
      | some w ↦ let (w', signals) = Worker.stop w in (record task' { worker = some w' }, signals)
    ]

unfoldable pub stop_worker : String → Bool → Hub → Hub
stop_worker task_id intentional h = elim (lookup task_id h.tasks) [
  | none ↦ h
  | some task ↦
      let (task', signals) = stop_task intentional task in
      emit_signals task_id signals (set_task task_id task' h)
]

module _ (world : World) where
  -- The part of `startFn` after `handler.Start` has returned the worker.
  unfoldable pub announce_start : ℕ → Launch → Worker → Hub → Hub
  announce_start now l w h =
      let running : Hub = set_task l.task_id (record (new_task now l) { worker = some w }) h in
      let subscribed = auto_subscribe l.conn l.task_id running in
      let counted : Hub = record subscribed {
        metrics = record_start l.task_id l.action subscribed.metrics;
      } in
      let msg = Message.started l.id l.task_id w.pid 0 w.started_at in
      emit (log_event msg) (broadcast_to_subscribers world l.task_id msg counted)

  -- `startFn`, and the error that it returns.
  unfoldable pub start_fn : ℕ → Launch → Hub → Hub × Option String
  start_fn now l h = elim (l.handler.start now l.task_id l.params) [
    | inl err ↦ (unregister l.task_id (register now l h), some err)
    | inr w ↦ (announce_start now l w (register now l h), none)
  ]

  unfoldable pub cancel_fn : ℕ → Launch → Reason → Hub → Hub
  cancel_fn now l reason h =
      let h' : Hub = record h {
        pending = remove_key l.task_id h.pending;
        metrics = record_dequeued h.metrics;
      } in
      broadcast world (Message.dequeued l.task_id (reason_text reason) now) h'

  -- The calls that the pool makes of closures.
  unfoldable pub run_call : ℕ → Call Launch → Hub → Hub
  run_call now (stops l) h = stop_worker l.task_id true h
  run_call now (starts l) h = (start_fn now l h).0
  run_call now (cancels l reason) h = cancel_fn now l reason h

  unfoldable pub run_calls : ℕ → List (Call Launch) → Hub → Hub
  run_calls now [] h = h
  run_calls now (c ∷ cs) h = run_calls now cs (run_call now c h)

  abbrev pub with_pool : PoolManager Launch → Hub → Hub
  with_pool pm h = record h { pool = some pm }

  abbrev pub arrival_of : Bool → Launch → Arrival Launch
  arrival_of force l = record {
    task_id = l.task_id;
    action = l.action;
    forced = force;
    stop_fn = l;
    start_fn = l;
    cancel_fn = some l;
  }

  -- `Acquire` when `startFn` has returned.
  unfoldable pub settle_start :
      Launch → PoolManager Launch → Hub × Option String → Hub × AcquireResult × Option Reason
  settle_start l pm (h, err) = (
    with_pool (finish_start l.task_id err pm) h,
    acquire_running,
    elim err [ none ↦ none | some e ↦ some (start_failed e) ],
  )

  -- `h.pool.Acquire(...)` on the hub's pool.
  unfoldable pub acquire_slot :
      ℕ → Bool → Launch → PoolManager Launch → Hub → Hub × AcquireResult × Option Reason
  acquire_slot now force l pm h =
      let (pm', admission) = admit world.visit now (arrival_of force l) pm in
      elim admission [
        | Acquire.started ↦ settle_start l pm' (start_fn now l (with_pool pm' h))
        | Acquire.queued none ↦ (with_pool pm' h, acquire_queued, none)
        | Acquire.queued (some displaced) ↦ (
          run_calls now (cancel displaced_by_incoming displaced) (with_pool pm' h),
          acquire_queued,
          none,
        )
        | Acquire.rejected ↦ (with_pool pm' h, acquire_running, some pool_rejected)
      ]

  -- `Release` from the call of `startFn` on.
  unfoldable pub start_released : ℕ → Option (QueuedItem Launch) → PoolManager Launch → Hub → Hub
  start_released now none pm h = h
  start_released now (some item) pm h =
      let (h', err) = start_fn now item.start_fn h in
      let (pm', calls) = finish_release item err pm in run_calls now calls (with_pool pm' h')

  -- `h.pool.Release(taskID)`
  unfoldable pub release_task : ℕ → String → Hub → Hub
  release_task now task_id h = elim (h.pool) [
    | none ↦ h
    | some pm ↦
        let next = release_slot world.visit now task_id pm in
        let expired =
          run_calls now (cancel_all item_expired next.expired) (with_pool next.pool h) in
        start_released now next.item next.pool expired
  ]
