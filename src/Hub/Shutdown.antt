-- ===== src/Hub/Shutdown.antt =====
-- `NewHub` and `Shutdown` of hub.go.
pub mod Stopped
use sticky_overseer.Base.{
  ℕ, String, Bool, true, false, Option, none, some, List, [], ◌∷◌, ◌||◌, if◌then◌else◌, ◌⊎◌, inl,
  inr,
}
use sticky_overseer.Metrics.{new_metrics}
use sticky_overseer.Pool.Manager.{PoolManager}
use sticky_overseer.Pool.Control.{drain_all, sweep_expired}
use sticky_overseer.Hub.Types.{Hub, Task, Launch, World}
use sticky_overseer.Hub.Launch.{stop_worker, run_calls, with_pool}
use sticky_overseer.Hub.Start.{has_running_worker}

-- A hub with no client and no task.
unfoldable pub new_hub : Option (PoolManager Launch) → Hub
new_hub pool = record {
  clients = [];
  subscriptions = [];
  tasks = [];
  pending = [];
  pool = pool;
  metrics = new_metrics;
  effects = [];
}

-- The tasks whose workers `Shutdown` collects, in the order of its `range`.
unfoldable pub running_tasks : List (String × Task) → List String
running_tasks [] = []
running_tasks ((id, task) ∷ tasks) =
    if has_running_worker task then id ∷ running_tasks tasks else running_tasks tasks

-- `for _, w := range workers { w.Stop() }`
unfoldable pub stop_workers : List String → Hub → Hub
stop_workers [] h = h
stop_workers (id ∷ ids) h = stop_workers ids (stop_worker id false h)

-- `Shutdown` up to its loop.
unfoldable pub shutdown_workers : Hub → Hub
shutdown_workers h = stop_workers (running_tasks h.tasks) h

unfoldable pub has_running_workers : List (String × Task) → Bool
has_running_workers [] = false
has_running_workers ((id, task) ∷ tasks) = has_running_worker task || has_running_workers tasks

-- What `select` received each time: the error of `ctx`, or a tick, at which the hub has these tasks.
pub data Poll : Type 0 where
  done : String → Poll
  tick : List (String × Task) → Poll

-- The loop of `Shutdown`: `none` while it still runs, or what it returns, an error or nil.
unfoldable pub await_exits : List Poll → Option (Option String)
await_exits [] = none
await_exits (done err ∷ polls) = some (some err)
await_exits (tick tasks ∷ polls) =
    let later = await_exits polls in if has_running_workers tasks then later else some none

module _ (world : World) where
  -- `pool.DrainAll()` on the hub's pool, and the sweep of its ticker.
  unfoldable pub drain_pool : ℕ → Hub → Hub
  drain_pool now h = elim (h.pool) [
    | none ↦ h
    | some pm ↦
        let (pm', calls) = drain_all world.visit pm in
        run_calls world now calls (with_pool world pm' h)
  ]

  unfoldable pub sweep_pool : ℕ → Hub → Hub
  sweep_pool now h = elim (h.pool) [
    | none ↦ h
    | some pm ↦
        let (pm', calls) = sweep_expired world.visit now pm in
        run_calls world now calls (with_pool world pm' h)
  ]
