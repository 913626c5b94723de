-- ===== src/Pool/Steps/Places.antt =====
-- How many places a task of pool.go has among those that run and those that are queued, over the
-- interleavings of the pool's calls.
use sticky_overseer.Base.{
  ℕ, ℤ, ◌+◌, ◌≤◌, ◌≡◌, ap, String, true, false, Option, none, some, List, [], ◌∷◌, arith, count_by,
  count_by-append, count_by-remove_first-le, Bool-cases, inl, inr, ite, text_eq, if◌then◌else◌,
}
use sticky_overseer.Pool.Types.{QueueConfig, PoolConfig, ExcessConfig, QueuedItem}
use sticky_overseer.Pool.Queue.{has_id}
use sticky_overseer.Pool.Queue.Order.{to_list}
use sticky_overseer.Pool.Manager.{
  PoolManager, new_pool_manager, has_capacity, runs_task, without_task,
}
use sticky_overseer.Pool.Acquire.{Arrival, admit, finish_start, new_entry}
use sticky_overseer.Pool.Release.{release_slot, finish_release, next_queued, seat, entry_of}
use sticky_overseer.Pool.Control.{remove_from, purge_from, drain_all, sweep_expired}
use sticky_overseer.Pool.Resize.{reconfigure}
use sticky_overseer.Pool.Limits.{next_queued-SameTasks}
use sticky_overseer.Pool.Limits.Unmoved.{queue_up-SameTasks}
use sticky_overseer.Pool.Total.{total, total-release_slot, total-remove_from, total-purge_from}
use sticky_overseer.Pool.Total.Grows.{total-queue_up-le, total-sweep_expired-le}
use sticky_overseer.Pool.Steps
use sticky_overseer.Pool.Steps.{Step}
use sticky_overseer.Pool.Steps.Limits.{
  remove_from-SameTasks, purge_from-SameTasks, sweep_expired-SameTasks,
}

module _ {ℓ} {C : Type ℓ} where
  -- All steps of a pool. A `SetLimits` is `reconfigures`, and a `Release` for each task it stops.
  pub data Change (pm : PoolManager C) : PoolManager C → Type ℓ where
    calls : {pm' : PoolManager C} → Step pm pm' → Change pm pm'
    reconfigures :
        (action : String) (limit size : ℤ) (excess : Option ExcessConfig)
        → Change pm (reconfigure action limit size excess pm)

  pub data Run (pm : PoolManager C) : PoolManager C → Type ℓ where
    here : Run pm pm
    next : {pm' pm'' : PoolManager C} → Run pm pm' → Change pm' pm'' → Run pm pm''

module _ {ℓ} {C : Type ℓ} (id : String) where
  -- The places of the task among those that run and those that are queued.
  abbrev pub places : PoolManager C → ℕ
  places pm = count_by (runs_task id) pm.running + total (has_id id) pm.queues

  -- How many calls of `Acquire` for the task a step is.
  abbrev arrived : {pm pm' : PoolManager C} → Change pm pm' → ℕ
  arrived (calls (Steps.admits visit now a)) =
      if ite (text_eq a.task_id id) true false then 1 else 0
  arrived (calls (Steps.has_started other failure)) = 0
  arrived (calls (Steps.releases visit now other)) = 0
  arrived (calls (Steps.has_released x failure)) = 0
  arrived (calls (Steps.dequeues visit other)) = 0
  arrived (calls (Steps.purges visit)) = 0
  arrived (calls (Steps.drains visit)) = 0
  arrived (calls (Steps.sweeps visit now)) = 0
  arrived (reconfigures action limit size excess) = 0

  abbrev pub arrivals : {pm pm' : PoolManager C} → Run pm pm' → ℕ
  arrivals here = 0
  arrivals (next r s) = arrivals r + arrived s

  places-admit-le :
      (visit : List String) (now : ℕ) (a : Arrival C) (pm : PoolManager C)
      → places (admit visit now a pm).0
        ≤ places pm + (if ite (text_eq a.task_id id) true false then 1 else 0)
  unfolding admit
  places-admit-le visit now a pm = elim (Bool-cases (has_capacity pm a.action)) [
    | inl room ↦
        rw room (omega (arith, count_by-append (runs_task id) pm.running (new_entry now a ∷ [])))
    | inr full ↦ rw full (
        omega (
          arith,
          ap (count_by (runs_task id)) (queue_up-SameTasks visit now a pm).same_running,
          total-queue_up-le (has_id id) visit now a pm,
        ))
  ]

  places-without_task-le :
      (other : String) (pm : PoolManager C) → places (without_task other pm) ≤ places pm
  places-without_task-le other pm =
      omega (arith, count_by-remove_first-le (runs_task other) (runs_task id) pm.running)

  count_by-seat :
      (now : ℕ) (x : Option (QueuedItem C)) (pm : PoolManager C)
      → count_by (runs_task id) (seat now x pm).running
        ≡ count_by (runs_task id) pm.running + count_by (has_id id) (to_list x)
  count_by-seat now none pm = omega arith
  count_by-seat now (some x) pm = count_by-append (runs_task id) pm.running (entry_of now x ∷ [])

  places-release_slot-le :
      (visit : List String) (now : ℕ) (other : String) (pm : PoolManager C)
      → places (release_slot visit now other pm).pool ≤ places pm
  unfolding release_slot
  places-release_slot-le visit now other pm =
      let next = next_queued visit now (without_task other pm) in
      omega (
        arith,
        total-release_slot (has_id id) visit now other pm,
        count_by-seat now next.item next.pool,
        ap (count_by (runs_task id))
            (next_queued-SameTasks visit now (without_task other pm)).same_running,
        count_by-remove_first-le (runs_task other) (runs_task id) pm.running,
      )

  places-remove_from-le :
      (visit : List String) (other : String) (pm : PoolManager C)
      → places (remove_from visit other pm).0 ≤ places pm
  places-remove_from-le visit other pm = omega (
    arith,
    ap (count_by (runs_task id)) (remove_from-SameTasks visit other pm).same_running,
    total-remove_from (has_id id) visit other pm,
  )

  places-purge_from-le :
      (visit : List String) (pm : PoolManager C) → places (purge_from visit pm).0 ≤ places pm
  places-purge_from-le visit pm = omega (
    arith,
    ap (count_by (runs_task id)) (purge_from-SameTasks visit pm).same_running,
    total-purge_from (has_id id) visit pm,
  )

  places-drain_all-le :
      (visit : List String) (pm : PoolManager C) → places (drain_all visit pm).0 ≤ places pm
  unfolding drain_all
  places-drain_all-le visit pm = omega (arith, total-purge_from (has_id id) visit pm)

  places-sweep_expired-le :
      (visit : List String) (now : ℕ) (pm : PoolManager C)
      → places (sweep_expired visit now pm).0 ≤ places pm
  places-sweep_expired-le visit now pm = omega (
    arith,
    ap (count_by (runs_task id)) (sweep_expired-SameTasks visit now pm).same_running,
    total-sweep_expired-le (has_id id) visit now pm,
  )

  places-reconfigure :
      (action : String) (limit size : ℤ) (excess : Option ExcessConfig) (pm : PoolManager C)
      → places (reconfigure action limit size excess pm) ≡ places pm
  unfolding reconfigure
  places-reconfigure action limit size excess pm = ground arith

  places-Change-le :
      {pm pm' : PoolManager C} (s : Change pm pm') → places pm' ≤ places pm + arrived s
  unfolding finish_start finish_release
  places-Change-le {pm} (calls (Steps.admits visit now a)) = places-admit-le visit now a pm
  places-Change-le (calls (Steps.has_started other none)) = omega arith
  places-Change-le {pm} (calls (Steps.has_started other (some e))) =
      omega (arith, places-without_task-le other pm)
  places-Change-le {pm} (calls (Steps.releases visit now other)) =
      omega (arith, places-release_slot-le visit now other pm)
  places-Change-le (calls (Steps.has_released x none)) = omega arith
  places-Change-le {pm} (calls (Steps.has_released x (some e))) =
      omega (arith, places-without_task-le x.task_id pm)
  places-Change-le {pm} (calls (Steps.dequeues visit other)) =
      omega (arith, places-remove_from-le visit other pm)
  places-Change-le {pm} (calls (Steps.purges visit)) = omega (arith, places-purge_from-le visit pm)
  places-Change-le {pm} (calls (Steps.drains visit)) = omega (arith, places-drain_all-le visit pm)
  places-Change-le {pm} (calls (Steps.sweeps visit now)) =
      omega (arith, places-sweep_expired-le visit now pm)
  places-Change-le {pm} (reconfigures action limit size excess) =
      omega (arith, places-reconfigure action limit size excess pm)

  places-Run-le : {pm pm' : PoolManager C} (r : Run pm pm') → places pm' ≤ places pm + arrivals r
  places-Run-le here = omega arith
  places-Run-le (next r s) = omega (arith, places-Run-le r, places-Change-le s)

  -- Whatever calls a new pool gets, `SetLimits` included, in whatever interleaving, a task has at
  -- most as many places among those that run and those that are queued as `Acquire` was called for
  -- it, so that a task that came once has one place at most.
  pub new_pool-places-le :
      (cfgs : List QueueConfig) (global_cfg : PoolConfig) (action_cfgs : List (String × PoolConfig))
      (pm : PoolManager C) (r : Run (new_pool_manager cfgs global_cfg action_cfgs) pm)
      → places pm ≤ arrivals r
  unfolding new_pool_manager
  new_pool-places-le cfgs global_cfg action_cfgs pm r = omega (arith, places-Run-le r)
