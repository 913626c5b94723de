-- ===== src/Hub/Requests.antt =====
-- The other requests of hub.go that change the hub, and those that read the pool, a worker or the
-- metrics.
use sticky_overseer.Base.{
  ℕ, String, true, Option, none, some, List, [], ◌∷◌, ℤ, pos, ite, text_eq, lookup, map,
  if◌then◌else◌, ◌⊎◌, inl, inr,
}
use sticky_overseer.Metrics.{task_snapshot, action_snapshot, global_snapshot}
use sticky_overseer.Worker
use sticky_overseer.Worker.{Event, Worker, get_events}
use sticky_overseer.Pool.Types.{RunningEntry, ExcessConfig, PoolInfo}
use sticky_overseer.Pool.Manager.{PoolManager}
use sticky_overseer.Pool.Control
use sticky_overseer.Pool.Control.{dequeue_task, purge_queue}
use sticky_overseer.Pool.Resize.{reconfigure, to_stop}
use sticky_overseer.Hub.Types.{Hub, Launch, Message, World}
use sticky_overseer.Hub.Clients.{send_json, send_error, broadcast}
use sticky_overseer.Hub.Launch.{stop_worker, run_calls, with_pool, release_task}

-- The message that `handleReplay` sends for an event.
abbrev pub replayed : String → ℕ → Event → Message
replayed task_id pid (Worker.output stream line seq ts) =
    Message.output task_id pid stream line ts seq
replayed task_id pid (Worker.exited code intentional ts) =
    Message.exited task_id pid code intentional ts

unfoldable pub send_all : ℕ → List Message → Hub → Hub
send_all conn [] h = h
send_all conn (msg ∷ msgs) h = send_all conn msgs (send_json conn msg h)

-- `Pool: PoolInfo{}`
abbrev pub zero_pool_info : PoolInfo
zero_pool_info = record { limit = pos 0; running = 0; queue_depth = 0; queue_items = [] }

unfoldable pub handle_metrics : ℕ → String → String → String → Hub → Hub
handle_metrics conn id task_id action h =
    let m = h.metrics in
    let all = Message.metrics_message id (some (global_snapshot m)) none none in
    let of_action = Message.metrics_message id none (action_snapshot action m) none in
    let of_task = Message.metrics_message id none none (task_snapshot task_id m) in
    send_json conn (ite (text_eq task_id "") (ite (text_eq action "") all of_action) of_task) h

module _ (world : World) where
  -- `msg.Since`: no instant, an instant, or an error.
  abbrev pub parse_since : String → Unit {0} ⊎ Option ℕ
  parse_since since =
      ite (text_eq since "") (inr none)
        (elim (world.parse_time since) [ none ↦ inl tt | some t ↦ inr (some t) ])

  abbrev pub replay_worker : ℕ → String → String → Worker → Hub → Hub
  replay_worker conn id since w h = elim (parse_since since) [
    | inl _ ↦ send_error conn id "invalid since timestamp" h
    | inr t ↦ send_all conn (map (replayed w.task_id w.pid) (get_events t w)) h
  ]

  unfoldable pub handle_replay : ℕ → String → String → String → Hub → Hub
  handle_replay conn id task_id since h =
      ite (text_eq task_id "") (send_error conn id "task_id is required" h)
        (elim (lookup task_id h.tasks) [
          | none ↦ send_error conn id "task not found" h
          | some task ↦ elim (task.worker) [
            | none ↦ send_error conn id "no worker for task" h
            | some w ↦ replay_worker conn id since w h
          ]
        ])

  -- The part of `handleStop` for a task that is not queued.
  unfoldable pub stop_known : ℕ → String → String → Hub → Hub
  stop_known conn id task_id h = elim (lookup task_id h.tasks) [
    | none ↦ send_error conn id "task not found" h
    | some _ ↦ stop_worker task_id true h
  ]

  -- `found := h.pool.Dequeue(msg.TaskID)` and what follows it.
  unfoldable pub stop_queued : ℕ → ℕ → String → String → PoolManager Launch → Hub → Hub
  stop_queued now conn id task_id pm h =
      let (pm', found, calls) = dequeue_task world.visit task_id pm in
      let h' = run_calls world now calls (with_pool world pm' h) in
      if found
      then broadcast world (Message.dequeued task_id "stopped" now) h'
      else stop_known conn id task_id h'

  unfoldable pub handle_stop : ℕ → ℕ → String → String → Hub → Hub
  handle_stop now conn id task_id h =
      ite (text_eq task_id "") (send_error conn id "task_id is required" h) (elim (h.pool) [
        | none ↦ stop_known conn id task_id h
        | some pm ↦ stop_queued now conn id task_id pm h
      ])

  unfoldable pub broadcast_purged : ℕ → List String → Hub → Hub
  broadcast_purged now [] h = h
  broadcast_purged now (id ∷ ids) h =
      broadcast_purged now ids (broadcast world (Message.dequeued id "purged" now) h)

  unfoldable pub handle_purge : ℕ → ℕ → String → String → Hub → Hub
  handle_purge now conn id action h = elim (h.pool) [
    | none ↦ send_json conn (Message.purged id action 0) h
    | some pm ↦
        let (pm', count, ids, calls) = purge_queue world.visit action pm in
        let h' = run_calls world now calls (with_pool world pm' h) in
        send_json conn (Message.purged id action count) (broadcast_purged now ids h')
  ]

  abbrev pub pool_info_of : String → Hub → PoolInfo
  pool_info_of action h = elim (h.pool) [
    | none ↦ zero_pool_info
    | some pm ↦ Control.info world.visit action pm
  ]

  unfoldable pub handle_pool_info : ℕ → String → String → Hub → Hub
  handle_pool_info conn id action h =
      send_json conn (Message.pool_message id action (pool_info_of action h)) h

  -- The loop of `SetLimits` over the tasks to stop, on the hub's own pool.
  unfoldable pub stop_excess : ℕ → List (RunningEntry Launch) → Hub → Hub
  stop_excess now [] h = h
  stop_excess now (e ∷ es) h =
      let stopped : Hub = elim (e.stop) [ none ↦ h | some l ↦ stop_worker l.task_id true h ] in
      stop_excess now es (release_task world now e.task_id stopped)

  unfoldable pub handle_set_pool : ℕ → ℕ → String → String → ℤ → ℤ → Option ExcessConfig → Hub → Hub
  handle_set_pool now conn id action limit size excess h = elim (h.pool) [
    | none ↦ send_error conn id "no pool configured" h
    | some pm ↦
        let pm' = reconfigure action limit size excess pm in
        let h' = stop_excess now (to_stop action limit pm') (with_pool world pm' h) in
        let info = pool_info_of action h' in
        send_json conn (Message.pool_message id action info)
          (broadcast world (Message.pool_updated action info) h')
  ]
