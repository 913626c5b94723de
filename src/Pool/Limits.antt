-- ===== src/Pool/Limits.antt =====
-- The concurrency limits of pool.go: `Acquire` never starts a task beyond them, and `Release` of a
-- running task does not take the pool beyond the global one.
pub mod Unmoved
use sticky_overseer.Base.{
  ℕ, suc, ◌+◌, ◌≤◌, ◌≡◌, refl, ap, subst, ◌∙◌, inl, inr, String, Bool, true, Option, none, some,
  List, [], ◌∷◌, ◌++◌, arith, Bool-cases, Option-cases, length, length-append, count_by-append,
  length-remove_first, remove_first_absent, length-remove_first-le, count_by-remove_first-le,
  find_first, pos, lookup, text_eq,
}
use sticky_overseer.Pool.Types.{PoolConfig, QueueConfig, RunningEntry, QueuedItem}
use sticky_overseer.Pool.Queue.{dequeue}
use sticky_overseer.Pool.Allows.{Allows, Allows-mono, Allows-suc, Allows-zero, not-Allows}
use sticky_overseer.Pool.Queue.Order.{to_list}
use sticky_overseer.Pool.Manager.{
  PoolManager, new_pool_manager, with_queue, runs_action, runs_task, without_task, queue_for, deref,
  action_limit, running_count_for_action, has_capacity,
}
use sticky_overseer.Pool.Acquire.{
  Arrival, new_item, new_entry, without_unforced, Admission, started, queued, rejected,
  put_in_queue, displace_from, try_displace, queue_up, admit, finish_start, conclude, acquire,
}
use sticky_overseer.Pool.Acquire.Displace.{displace_from-Displaces}
use sticky_overseer.Pool.Release.{entry_of, seat, next_from, next_queued, release_slot}
pub use sticky_overseer.Pool.Limits.Unmoved.{
  SameTasks, SameTasks-trans, SameTasks-refl, queue_for-SameTasks, put_in_queue-SameTasks,
  next_queued-SameTasks,
}
use sticky_overseer.Pool.Limits.Unmoved.{
  displace_from-SameTasks, try_displace-SameTasks, queue_up-SameTasks, next_from-SameTasks,
}

length-to_list {ℓ} : {A : Type ℓ} (o : Option A) → length (to_list o) ≤ 1
length-to_list none = omega arith
length-to_list (some a) = omega arith

module _ {ℓ} {C : Type ℓ} where
  pub record WithinLimits (pm : PoolManager C) : Type 0 where
    pub within_global : Allows pm.global_cfg.limit (length pm.running)
    pub within_action :
        (action : String) → Allows (action_limit pm action) (running_count_for_action pm action)

  -- A new pool is within its limits.
  pub new_pool_manager-WithinLimits :
      (cfgs : List QueueConfig) (global_cfg : PoolConfig) (action_cfgs : List (String × PoolConfig))
      → WithinLimits (new_pool_manager cfgs global_cfg action_cfgs)
  unfolding new_pool_manager running_count_for_action
  new_pool_manager-WithinLimits cfgs global_cfg action_cfgs = record {
    within_global = Allows-zero global_cfg.limit;
    within_action =
        λ b. Allows-zero (action_limit (new_pool_manager {C = C} cfgs global_cfg action_cfgs) b);
  }

  pub SameTasks-WithinLimits :
      (pm pm' : PoolManager C) → SameTasks pm pm' → WithinLimits pm → WithinLimits pm'
  unfolding action_limit running_count_for_action
  SameTasks-WithinLimits pm pm' s v = record {
    within_global = rw (s.same_running, s.same_global) v.within_global;
    within_action = λ a. rw (s.same_running, s.same_actions) (v.within_action a);
  }

  pub capacity_room :
      (pm : PoolManager C) (action : String)
      → has_capacity pm action ≡ true
      → Allows pm.global_cfg.limit (length pm.running + 1)
        × Allows (action_limit pm action) (running_count_for_action pm action + 1)
  unfolding has_capacity
  capacity_room pm action h = (
    Allows-suc pm.global_cfg.limit (length pm.running) (ground arith),
    Allows-suc (action_limit pm action) (running_count_for_action pm action) (ground arith),
  )

  capacity_room_of :
      (pm : PoolManager C) (action b : String)
      → action ≡ b
      → has_capacity pm action ≡ true
      → Allows (action_limit pm b) (running_count_for_action pm b + 1)
  capacity_room_of pm action b e h =
      subst (λ x. Allows (action_limit pm x) (running_count_for_action pm x + 1)) e
        (capacity_room pm action h).1

  admitted-WithinLimits :
      (pm : PoolManager C) (e : RunningEntry C)
      → has_capacity pm e.action ≡ true
      → WithinLimits pm
      → WithinLimits (record pm { running = pm.running ++ e ∷ [] })
  unfolding running_count_for_action action_limit
  admitted-WithinLimits pm e h v = record {
    within_global =
        Allows-mono pm.global_cfg.limit _ _ (omega (arith, length-append pm.running (e ∷ [])))
          (capacity_room pm e.action h).0;
    within_action = λ b. elim (text_eq e.action b) [
      | yes same ↦
          Allows-mono (action_limit pm b) _ _
            (ground (arith, count_by-append (runs_action b) pm.running (e ∷ [])))
            (capacity_room_of pm e.action b same h)
      | no other ↦
          Allows-mono (action_limit pm b) _ _
            (ground (arith, count_by-append (runs_action b) pm.running (e ∷ [])))
            (v.within_action b)
    ];
  }

  -- Under `pm.mu`, `Acquire` leaves the pool within the global limit and within every action's.
  pub admit-WithinLimits :
      (visit : List String) (now : ℕ) (a : Arrival C) (pm : PoolManager C)
      → WithinLimits pm
      → WithinLimits (admit visit now a pm).0
  unfolding admit
  admit-WithinLimits visit now a pm v = elim (Bool-cases (has_capacity pm a.action)) [
    | inl room ↦ rw room (admitted-WithinLimits pm (new_entry now a) room v)
    | inr full ↦ rw full (SameTasks-WithinLimits pm _ (queue_up-SameTasks visit now a pm) v)
  ]

  pub without_task-WithinLimits :
      (id : String) (pm : PoolManager C) → WithinLimits pm → WithinLimits (without_task id pm)
  unfolding running_count_for_action action_limit
  without_task-WithinLimits id pm v = record {
    within_global =
        Allows-mono pm.global_cfg.limit _ _ (length-remove_first-le (runs_task id) pm.running)
          v.within_global;
    within_action = λ b.
        Allows-mono (action_limit pm b) _ _
          (count_by-remove_first-le (runs_task id) (runs_action b) pm.running) (v.within_action b);
  }

  conclude-WithinLimits :
      (a : Arrival C) (failure : Option String) (r : Admission C) (pm : PoolManager C)
      → WithinLimits pm
      → WithinLimits (conclude a failure r pm).0
  unfolding conclude finish_start
  conclude-WithinLimits a none started pm v = v
  conclude-WithinLimits a (some e) started pm v = without_task-WithinLimits a.task_id pm v
  conclude-WithinLimits a _ (queued none) pm v = v
  conclude-WithinLimits a _ (queued (some x)) pm v = v
  conclude-WithinLimits a _ rejected pm v = v

  -- The whole of `Acquire` keeps the pool within its limits, whatever `startFn` returns.
  pub acquire-WithinLimits :
      (starts_with : C → Option String) (visit : List String) (now : ℕ) (a : Arrival C)
      (pm : PoolManager C)
      → WithinLimits pm
      → WithinLimits (acquire starts_with visit now a pm).0
  unfolding acquire
  acquire-WithinLimits starts_with visit now a pm v =
      conclude-WithinLimits a (starts_with a.start_fn) (admit visit now a pm).1 _
        (admit-WithinLimits visit now a pm v)

  length-seat :
      (now : ℕ) (x : Option (QueuedItem C)) (pm : PoolManager C)
      → length (seat now x pm).running ≡ length pm.running + length (to_list x)
  length-seat now none pm = omega arith
  length-seat now (some x) pm = length-append pm.running (entry_of now x ∷ [])

  -- One task fewer, if the one released ran, and one more, if the queues have another.
  length-release_slot :
      (visit : List String) (now : ℕ) (id : String) (pm : PoolManager C)
      → length (release_slot visit now id pm).pool.running
        ≡ length (without_task id pm).running + length (to_list (release_slot visit now id pm).item)
  unfolding release_slot
  length-release_slot visit now id pm =
      let next = next_queued visit now (without_task id pm) in
      omega (
        arith,
        length-seat now next.item next.pool,
        ap length (next_queued-SameTasks visit now (without_task id pm)).same_running,
      )

  -- `Release` of a running task puts at most one other in its place, so that the pool stays within
  -- its global limit.
  pub release_slot-within_global :
      (visit : List String) (now : ℕ) (id : String) (pm : PoolManager C) (e : RunningEntry C)
      → find_first (runs_task id) pm.running ≡ some e
      → Allows pm.global_cfg.limit (length pm.running)
      → Allows pm.global_cfg.limit (length (release_slot visit now id pm).pool.running)
  release_slot-within_global visit now id pm e h v =
      Allows-mono pm.global_cfg.limit _ _
        (omega (
          arith,
          length-release_slot visit now id pm,
          length-remove_first (runs_task id) pm.running e h,
          length-to_list (release_slot visit now id pm).item,
        ))
        v

  -- `Release` of a task that does not run takes a queued one in all the same: where the pool runs
  -- as many tasks as its limit allows, it then runs more.
  pub release_slot_overruns :
      (visit : List String) (now : ℕ) (id : String) (pm : PoolManager C) (limit : ℕ)
      (x : QueuedItem C)
      → find_first (runs_task id) pm.running ≡ none
      → pm.global_cfg.limit ≡ pos (suc limit)
      → length pm.running ≡ suc limit
      → (release_slot visit now id pm).item ≡ some x
      → ¬ Allows pm.global_cfg.limit (length (release_slot visit now id pm).pool.running)
  release_slot_overruns visit now id pm limit x h g full n v =
      let more : length (release_slot visit now id pm).pool.running ≡ suc (suc limit) = omega (
        arith,
        length-release_slot visit now id pm,
        ap (λ o. length (to_list o)) n,
        ap length (remove_first_absent (runs_task id) pm.running h),
      ) in
      not-Allows limit _ more
        (subst (λ l. Allows l (length (release_slot visit now id pm).pool.running)) g v)
