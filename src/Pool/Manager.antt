-- ===== src/Pool/Manager.antt =====
-- The state of `PoolManager` of pool.go, its look-ups, and the queue that an action has.
use sticky_overseer.Base.{
  ℕ, zero, suc, ◌*◌, ◌/◌, String, Bool, true, false, Option, none, some, List, [], ◌∷◌, ◌++◌, ◌&&◌,
  ◌||◌, ltb, ◌==◌, if◌then◌else◌, ite, text_eq, length, count_by, remove_first, ℤ, pos, negsuc,
  is_positive, reaches, lookup, insert,
}
use sticky_overseer.Pool.Types.{
  PoolConfig, QueueConfig, zero_queue_config, RunningEntry, DisplacePolicy,
}
use sticky_overseer.Pool.Queue.{TaskQueue, second}

-- `queue_cfgs` holds the `QueueConfig`s that `queue` of a `PoolConfig` and `cfg` of a `TaskQueue`
-- point to. `stopped` tells whether `stopCh` is closed.
pub record PoolManager {ℓ} (C : Type ℓ) : Type ℓ where
  pub global_cfg : PoolConfig
  pub action_cfgs : List (String × PoolConfig)
  pub queue_cfgs : List QueueConfig
  pub running : List (RunningEntry C)
  pub queues : List (String × TaskQueue C)
  pub action_order : List String
  pub tick_interval : ℕ
  pub stopped : Bool

abbrev pub millisecond : ℕ
millisecond = 1000000

abbrev pub default_tick : ℕ
default_tick = 5 * second

-- What a pointer points to.
abbrev pub deref : List QueueConfig → ℕ → QueueConfig
deref [] p = zero_queue_config
deref (c ∷ cs) zero = c
deref (c ∷ cs) (suc p) = deref cs p

-- The closure `check`: the smaller of `min`, where that is set, and a positive age.
unfoldable pub check_age : ℤ → ℕ → ℕ
check_age (pos age) min = if ltb 0 age && (min == 0 || ltb age min) then age else min
check_age (negsuc n) min = min

unfoldable pub check_queue : List QueueConfig → Option ℕ → ℕ → ℕ
check_queue cfgs none min = min
check_queue cfgs (some p) min = check_age (deref cfgs p).max_age min

unfoldable pub min_age : List QueueConfig → List (String × PoolConfig) → ℕ → ℕ
min_age cfgs [] min = min
min_age cfgs ((a, ac) ∷ acs) min = min_age cfgs acs (check_queue cfgs ac.queue min)

unfoldable pub tick_of : ℕ → ℕ
tick_of min =
    if min == 0
    then default_tick
    else if ltb (min * second / 2) millisecond
    then millisecond
    else min * second / 2

abbrev pub or_else : Option ℕ → Option ℕ → Option ℕ
or_else (some p) q = some p
or_else none q = q

-- The action moves to the front.
unfoldable pub update_action_order : String → List String → List String
update_action_order action order =
    action ∷ remove_first (λ a. ite (text_eq a action) true false) order

module _ {ℓ} {C : Type ℓ} where
  unfoldable pub compute_tick_interval : PoolManager C → ℕ
  compute_tick_interval pm =
      tick_of
        (min_age pm.queue_cfgs pm.action_cfgs (check_queue pm.queue_cfgs pm.global_cfg.queue 0))

  -- `NewPoolManager`, with the `QueueConfig`s that the configurations point to.
  unfoldable pub new_pool_manager :
      List QueueConfig → PoolConfig → List (String × PoolConfig) → PoolManager C
  new_pool_manager cfgs global_cfg action_cfgs = record pm {
    tick_interval = compute_tick_interval pm;
  }
    where
      pm : PoolManager C
      pm = record {
        global_cfg = global_cfg;
        action_cfgs = action_cfgs;
        queue_cfgs = cfgs;
        running = [];
        queues = [];
        action_order = [];
        tick_interval = default_tick;
        stopped = false;
      }

  -- The pointer that `effectiveQueueConfig` returns; `none` is a new `&QueueConfig{}`.
  unfoldable pub effective_queue_config : PoolManager C → String → Option ℕ
  effective_queue_config pm action = elim (lookup action pm.action_cfgs) [
    | none ↦ pm.global_cfg.queue
    | some ac ↦ or_else ac.queue pm.global_cfg.queue
  ]

  abbrev pub displace_policy : PoolManager C → String → DisplacePolicy
  displace_policy pm action = elim (effective_queue_config pm action) [
    | none ↦ zero_queue_config.displace
    | some p ↦ (deref pm.queue_cfgs p).displace
  ]

  -- The pool with the queue that `queueFor` made, if it made one, and the queue.
  unfoldable pub queue_for : PoolManager C → String → PoolManager C × TaskQueue C
  queue_for pm action = elim (lookup action pm.queues) [
    | some q ↦ (pm, q)
    | none ↦ elim (effective_queue_config pm action) [
      | some p ↦
          let q : TaskQueue C = record { cfg = p; items = [] } in
          (record pm { queues = insert action q pm.queues }, q)
      | none ↦
          let q : TaskQueue C = record { cfg = length pm.queue_cfgs; items = [] } in
          (
            record pm {
              queue_cfgs = pm.queue_cfgs ++ zero_queue_config ∷ [];
              queues = insert action q pm.queues;
            },
            q,
          )
    ]
  ]

  -- The pool once the queue of an action has changed.
  abbrev pub with_queue : String → TaskQueue C → PoolManager C → PoolManager C
  with_queue a q pm = record pm { queues = insert a q pm.queues }

  abbrev pub global_limit : PoolManager C → ℤ
  global_limit pm = pm.global_cfg.limit

  unfoldable pub action_limit : PoolManager C → String → ℤ
  action_limit pm action = elim (lookup action pm.action_cfgs) [ none ↦ pos 0 | some ac ↦ ac.limit ]

  abbrev pub runs_action : String → RunningEntry C → Bool
  runs_action action e = ite (text_eq e.action action) true false

  abbrev pub runs_task : String → RunningEntry C → Bool
  runs_task id e = ite (text_eq e.task_id id) true false

  unfoldable pub running_count_for_action : PoolManager C → String → ℕ
  running_count_for_action pm action = count_by (runs_action action) pm.running

  unfoldable pub has_capacity : PoolManager C → String → Bool
  has_capacity pm action =
      if is_positive (global_limit pm) && reaches (length pm.running) (global_limit pm)
      then false
      else if is_positive (action_limit pm action)
          && reaches (running_count_for_action pm action) (action_limit pm action)
      then false
      else true

  -- The loop that takes a task out of `running`.
  abbrev pub without_task : String → PoolManager C → PoolManager C
  without_task id pm = record pm { running = remove_first (runs_task id) pm.running }
