-- ===== src/Pool/Resize.antt =====
-- `SetLimits` of pool.go: new limits for an action, or for the whole pool, and the running tasks
-- that they leave no room for, which are stopped.
use sticky_overseer.Base.{
  ℕ, String, Bool, true, false, Option, none, some, List, [], ◌∷◌, ◌++◌, ◌&&◌, ◌||◌, not, ltb,
  if◌then◌else◌, ite, text_eq, length, keep, take, set, lookup, insert, ℤ, is_positive, is_zero,
  is_within, excess_over,
}
use sticky_overseer.Pool.Types.{
  PoolConfig, QueueConfig, ExcessConfig, zero_queue_config, zero_pool_config, KillOrder, kill_last,
  RunningEntry, Call, stops,
}
use sticky_overseer.Pool.Manager.{PoolManager, deref, compute_tick_interval, runs_action}
use sticky_overseer.Pool.Release.{release}

abbrev pub or_keep : ExcessConfig → Option ExcessConfig → ExcessConfig
or_keep old none = old
or_keep old (some e) = e

-- A configuration with new limits. `queue.Size = size` writes through the pointer, so that it
-- shows wherever the same `QueueConfig` is used; without one, a new one is made.
unfoldable pub with_limits :
    ℤ → ℤ → Option ExcessConfig → PoolConfig → List QueueConfig → PoolConfig × List QueueConfig
with_limits limit size excess pc cfgs = elim (pc.queue) [
  | some p ↦ (
    record { limit = limit; queue = some p; excess = or_keep pc.excess excess },
    set cfgs p (record (deref cfgs p) { size = size }),
  )
  | none ↦ (
    record { limit = limit; queue = some (length cfgs); excess = or_keep pc.excess excess },
    cfgs ++ record zero_queue_config { size = size } ∷ [],
  )
]

abbrev pub or_zero : Option PoolConfig → PoolConfig
or_zero none = zero_pool_config
or_zero (some pc) = pc

abbrev pub is_kill_last : KillOrder → Bool
is_kill_last kill_last = true
is_kill_last _ = false

module _ {ℓ} {C : Type ℓ} where
  -- `less` of `sort.Slice`
  abbrev pub is_killed_before : KillOrder → RunningEntry C → RunningEntry C → Bool
  is_killed_before order a b =
      if is_kill_last order then ltb b.started_at a.started_at else ltb a.started_at b.started_at

  -- `sort.Slice`, as an insertion sort: entries that started at one time keep their order.
  unfoldable pub insert_by :
      KillOrder → RunningEntry C → List (RunningEntry C) → List (RunningEntry C)
  insert_by order x [] = x ∷ []
  insert_by order x (y ∷ ys) =
      if is_killed_before order y x then y ∷ insert_by order x ys else x ∷ y ∷ ys

  unfoldable pub sort_by : KillOrder → List (RunningEntry C) → List (RunningEntry C)
  sort_by order [] = []
  sort_by order (x ∷ xs) = insert_by order x (sort_by order xs)

  -- The pool with the new configuration.
  unfoldable pub reconfigure : String → ℤ → ℤ → Option ExcessConfig → PoolManager C → PoolManager C
  reconfigure action limit size excess pm =
      let all = with_limits limit size excess pm.global_cfg pm.queue_cfgs in
      let own =
        with_limits limit size excess (or_zero (lookup action pm.action_cfgs)) pm.queue_cfgs in
      let pm' : PoolManager C =
        ite (text_eq action "") (record pm { global_cfg = all.0; queue_cfgs = all.1 })
          (record pm { action_cfgs = insert action own.0 pm.action_cfgs; queue_cfgs = own.1 }) in
      record pm' { tick_interval = compute_tick_interval pm' }

  -- The running tasks that a limit is about, if there are more than it allows.
  unfoldable pub candidates : String → ℤ → List (RunningEntry C) → List (RunningEntry C)
  candidates action limit running =
      let own = keep (runs_action action) running in
      ite (text_eq action "")
        (if is_positive limit && not (is_within (length running) limit) then running else [])
        (if is_zero limit || is_within (length own) limit then [] else own)

  unfoldable pub running_count : String → List (RunningEntry C) → ℕ
  running_count action running =
      ite (text_eq action "") (length running) (length (keep (runs_action action) running))

  unfoldable pub excess_order : String → PoolManager C → KillOrder
  excess_order action pm =
      ite (text_eq action "") pm.global_cfg.excess.order
        (or_zero (lookup action pm.action_cfgs)).excess.order

  -- `toStop`
  unfoldable pub to_stop : String → ℤ → PoolManager C → List (RunningEntry C)
  to_stop action limit pm =
      take (excess_over (running_count action pm.running) limit)
        (sort_by (excess_order action pm) (candidates action limit pm.running))

  abbrev pub stop_entry : RunningEntry C → List (Call C)
  stop_entry e = elim e.stop [ none ↦ [] | some f ↦ stops f ∷ [] ]

  -- The loop that stops tasks and releases their slots. `visit id` is the order in which `Release`
  -- ranges over the queues for the task `id`.
  unfoldable pub stop_all :
      (C → Option String)
      → (String → List String)
      → ℕ
      → List (RunningEntry C)
      → PoolManager C
      → PoolManager C × List (Call C)
  stop_all starts_with visit now [] pm = (pm, [])
  stop_all starts_with visit now (e ∷ es) pm =
      let (pm', calls) = release starts_with (visit e.task_id) now e.task_id pm in
      let (pm'', later) = stop_all starts_with visit now es pm' in
      (pm'', stop_entry e ++ calls ++ later)

  unfoldable pub set_limits :
      (C → Option String)
      → (String → List String)
      → ℕ
      → String
      → ℤ
      → ℤ
      → Option ExcessConfig
      → PoolManager C
      → PoolManager C × List (Call C)
  set_limits starts_with visit now action limit size excess pm =
      let pm' = reconfigure action limit size excess pm in
      stop_all starts_with visit now (to_stop action limit pm') pm'
