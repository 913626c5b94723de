-- ===== src/Hub/Steps.antt =====
-- The life of a hub of hub.go: its methods in any order, with what the workers report between them.
use sticky_overseer.Base.{
  true, add_key, remove_key, Option-cases, inl, inr, ℕ, ◌≡◌, refl, String, Bool, false, Option,
  some, List, [], ◌∷◌, ℤ, lookup, ite-both, text_eq, arith,
}
use sticky_overseer.Worker.{Worker, Stream}
use sticky_overseer.Pool.Types.{ExcessConfig}
use sticky_overseer.Pool.Manager.{PoolManager}
use sticky_overseer.Pool.Control.{drain_all, sweep_expired}
use sticky_overseer.Hub.Once.{
  has_once, has_once-added, has_once-without_conn, has_once-change_subscriptions,
}
use sticky_overseer.Hub.Types.{Hub, Task, Launch, World, IncomingMessage}
use sticky_overseer.Hub.Clients.{
  add_client, remove_client, handle_subscribe, handle_unsubscribe, subscribe,
}
use sticky_overseer.Hub.Start.{handle_start, submit}
use sticky_overseer.Hub.Exit.{broken_task, on_worker_exited, do_restart, handle_reset}
use sticky_overseer.Hub.Processes.{scan_breaks, scan_line, process_exits}
use sticky_overseer.Hub.Keyed.Processes.{scan_line-Keyed, process_exits-Keyed}
use sticky_overseer.Hub.Requests.{handle_stop, handle_purge, handle_set_pool}
use sticky_overseer.Hub.Shutdown.{
  new_hub, shutdown_workers, stop_workers, running_tasks, drain_pool, sweep_pool,
}
use sticky_overseer.Hub.Launch.{stop_worker, set_task}
use sticky_overseer.Hub.Keyed.{Keyed, replaced-Keyed}
use sticky_overseer.Hub.Lifecycle.{Step}
use sticky_overseer.Hub.Keyed.Starts.{
  emit-Keyed, stop_worker-Keyed, run_calls-Keyed, with_pool-Keyed,
}
use sticky_overseer.Hub.Keyed.Requests.{
  handle_start-Keyed, submit-Keyed, handle_stop-Keyed, handle_purge-Keyed, handle_set_pool-Keyed,
}
use sticky_overseer.Hub.Keyed.Exits.{on_worker_exited-Keyed, do_restart-Keyed, handle_reset-Keyed}

module _ (world : World) where
  -- The methods that change the hub. The worker that writes or exits, and the task that starts again,
  -- are those that the hub has. A worker whose task has another by now may exit too.
  pub data HubStep (h : Hub) : Hub → Type 0 where
    connects : (conn : ℕ) → HubStep h (add_client conn h)
    disconnects : (conn : ℕ) → HubStep h (remove_client conn h)
    start_asked :
        (now conn : ℕ) (msg : IncomingMessage) → HubStep h (handle_start world now conn msg h)
    submits :
        (now : ℕ) (action id : String) (params : List (String × String))
        → HubStep h (submit world now action id params h).0
    stop_asked : (now conn : ℕ) (rid id : String) → HubStep h (handle_stop world now conn rid id h)
    reset_asked :
        (now conn : ℕ) (rid id : String) → HubStep h (handle_reset world now conn rid id h)
    purge_asked :
        (now conn : ℕ) (rid action : String) → HubStep h (handle_purge world now conn rid action h)
    limits_asked :
        (now conn : ℕ) (rid action : String) (limit size : ℤ) (excess : Option ExcessConfig)
        → HubStep h (handle_set_pool world now conn rid action limit size excess h)
    subscribe_asked : (conn : ℕ) (rid id : String) → HubStep h (handle_subscribe conn rid id h)
    unsubscribe_asked : (conn : ℕ) (rid id : String) → HubStep h (handle_unsubscribe conn rid id h)
    worker_exits :
        (now : ℕ) (code : ℤ) (id : String) (t : Task) (w : Worker)
        → lookup id h.tasks ≡ some t
        → t.worker ≡ some w
        → HubStep h (process_exits world now code id t w h)
    old_worker_exits :
        (now : ℕ) (id : String) (pid : ℕ) (code : ℤ) (intentional : Bool)
        → HubStep h (on_worker_exited world now id pid code intentional h)
    worker_writes :
        (forwarded : Bool) (now : ℕ) (stream : Stream) (line id : String) (t : Task) (w : Worker)
        → lookup id h.tasks ≡ some t
        → t.worker ≡ some w
        → HubStep h (scan_line world forwarded now stream line id t w h)
    worker_breaks :
        (id : String) (t : Task) (w : Worker)
        → lookup id h.tasks ≡ some t
        → t.worker ≡ some w
        → HubStep h (scan_breaks id t w h)
    restarts :
        (aborted : Bool) (now old_pid attempt : ℕ) (delay : ℤ) (id : String) (t : Task)
        → lookup id h.tasks ≡ some t
        → HubStep h (do_restart world aborted now old_pid attempt delay t h)
    expires : (now : ℕ) → HubStep h (sweep_pool world now h)
    drains : (now : ℕ) → HubStep h (drain_pool world now h)
    shuts_down : HubStep h (shutdown_workers h)

  pub data HubReach (h : Hub) : Hub → Type 0 where
    here : HubReach h h
    next : {h' h'' : Hub} → HubReach h h' → HubStep h' h'' → HubReach h h''

  stop_workers-Keyed : (ids : List String) (h : Hub) → Keyed h → Keyed (stop_workers ids h)
  unfolding stop_workers
  stop_workers-Keyed [] h v = v
  stop_workers-Keyed (id ∷ ids) h v =
      stop_workers-Keyed ids (stop_worker id false h) (stop_worker-Keyed id false h v)

  subscriptions-Keyed :
      (subs : List (ℕ × List String)) (h : Hub)
      → has_once subs ≡ true
      → Keyed h
      → Keyed (record h { subscriptions = subs })
  subscriptions-Keyed subs h e v = record {
    disjoint = v.disjoint;
    named = v.named;
    distinct = v.distinct;
    lived = v.lived;
    once = e;
  }

  drain_pool-Keyed : (now : ℕ) (h : Hub) → Keyed h → Keyed (drain_pool world now h)
  unfolding drain_pool
  drain_pool-Keyed now h v = elim (Option-cases h.pool) [
    | inl e ↦ rw (e, drain_pool) v
    | inr (pm, e) ↦
        let r = drain_all world.visit pm in
        rw (e, drain_pool) (run_calls-Keyed world now r.1 _ (with_pool-Keyed world r.0 h v))
  ]

  sweep_pool-Keyed : (now : ℕ) (h : Hub) → Keyed h → Keyed (sweep_pool world now h)
  unfolding sweep_pool
  sweep_pool-Keyed now h v = elim (Option-cases h.pool) [
    | inl e ↦ rw (e, sweep_pool) v
    | inr (pm, e) ↦
        let r = sweep_expired world.visit now pm in
        rw (e, sweep_pool) (run_calls-Keyed world now r.1 _ (with_pool-Keyed world r.0 h v))
  ]

  HubStep-Keyed : {h h' : Hub} → HubStep h h' → Keyed h → Keyed h'
  unfolding add_client remove_client handle_subscribe handle_unsubscribe subscribe shutdown_workers
      scan_breaks set_task
  HubStep-Keyed {h} (connects conn) v = record {
    disjoint = v.disjoint;
    named = v.named;
    distinct = v.distinct;
    lived = v.lived;
    once = has_once-added conn h.subscriptions v.once;
  }
  HubStep-Keyed {h} (disconnects conn) v = record {
    disjoint = v.disjoint;
    named = v.named;
    distinct = v.distinct;
    lived = v.lived;
    once = has_once-without_conn conn h.subscriptions v.once;
  }
  HubStep-Keyed {h} (start_asked now conn msg) v = handle_start-Keyed world now conn msg h v
  HubStep-Keyed {h} (submits now action id params) v = submit-Keyed world now action id params h v
  HubStep-Keyed {h} (stop_asked now conn rid id) v = handle_stop-Keyed world now conn rid id h v
  HubStep-Keyed {h} (reset_asked now conn rid id) v = handle_reset-Keyed world now conn rid id h v
  HubStep-Keyed {h} (purge_asked now conn rid action) v =
      handle_purge-Keyed world now conn rid action h v
  HubStep-Keyed {h} (limits_asked now conn rid action limit size excess) v =
      handle_set_pool-Keyed world now conn rid action limit size excess h v
  HubStep-Keyed {h} (subscribe_asked conn rid id) v =
      ite-both Keyed (text_eq id "") _ _ (emit-Keyed _ h v) (
        emit-Keyed _ _ (
          subscriptions-Keyed _ h
            (has_once-change_subscriptions conn (add_key id) h.subscriptions v.once) v))
  HubStep-Keyed {h} (unsubscribe_asked conn rid id) v =
      ite-both Keyed (text_eq id "") _ _ (emit-Keyed _ h v) (
        emit-Keyed _ _ (
          subscriptions-Keyed _ h
            (has_once-change_subscriptions conn (remove_key id) h.subscriptions v.once) v))
  HubStep-Keyed {h} (worker_exits now code id t w e f) v =
      process_exits-Keyed world now code id t w h e v
  HubStep-Keyed {h} (old_worker_exits now id pid code intentional) v =
      on_worker_exited-Keyed world now id pid code intentional h v
  HubStep-Keyed {h} (worker_writes forwarded now stream line id t w e f) v =
      scan_line-Keyed world forwarded now stream line id t w h e v
  HubStep-Keyed {h} (worker_breaks id t w e f) v =
      replaced-Keyed id h t (broken_task t w) e (Step.breaks w t) v
  HubStep-Keyed {h} (restarts aborted now old_pid attempt delay id t e) v =
      do_restart-Keyed world aborted now old_pid attempt delay id t h e v
  HubStep-Keyed {h} (expires now) v = sweep_pool-Keyed now h v
  HubStep-Keyed {h} (drains now) v = drain_pool-Keyed now h v
  HubStep-Keyed {h} shuts_down v = stop_workers-Keyed (running_tasks h.tasks) h v

  HubReach-Keyed : {h h' : Hub} → HubReach h h' → Keyed h → Keyed h'
  HubReach-Keyed here v = v
  HubReach-Keyed (next r s) v = HubStep-Keyed s (HubReach-Keyed r v)

  -- Whatever requests, exits, lines, restarts, expiries and shutdowns a new hub gets, in any order,
  -- no task ID is both pending and in the map of tasks, each task stands in that map once, under its
  -- own ID, and is what steps of a task's life made of the task of a start, and each connection has
  -- one set of subscriptions. The line that is written, the exit and the restart are of a task in
  -- the map, but for the exit of a worker that its task no longer has.
  pub new_hub-Keyed :
      (pool : Option (PoolManager Launch)) (h : Hub) → HubReach (new_hub pool) h → Keyed h
  unfolding new_hub lookup
  new_hub-Keyed pool h r = HubReach-Keyed r (record {
    disjoint = λ a p. refl;
    named = λ a t e. ground (arith, e);
    distinct = tt;
    lived = λ a t e. absurd (ground (arith, e));
    once = refl;
  })
