-- ===== src/Tests/PoolData.antt =====
-- A pool to run the model of pool.go on: two tasks at most, one of them of action "build". A
-- closure is a number.
use sticky_overseer.Base.{
  ℕ, String, true, false, none, some, [], ◌∷◌, pos, text_eq, lookup, insert, delete,
}
use sticky_overseer.Pool.Types.{
  QueueConfig, PoolConfig, order_first, displace_true, zero_excess_config, RunningEntry, QueuedItem,
}
use sticky_overseer.Pool.Queue
use sticky_overseer.Pool.Queue.{TaskQueue}
use sticky_overseer.Pool.Manager
use sticky_overseer.Pool.Manager.{PoolManager}
use sticky_overseer.Pool.Acquire
use sticky_overseer.Pool.Acquire.{Arrival}
use sticky_overseer.Pool.Release
use sticky_overseer.Pool.Control
use sticky_overseer.Pool.Resize

-- What a run of the pool unfolds.
unfoldable pub program : Unit {0}
unfolding text_eq lookup insert delete Queue.pop_back Queue.pop_front Queue.pop_item Queue.enqueue
    Queue.dequeue_loop Queue.dequeue Queue.remove Queue.info_from Queue.info Queue.expire_old
    Manager.check_age Manager.check_queue Manager.min_age Manager.tick_of
    Manager.compute_tick_interval Manager.new_pool_manager Manager.effective_queue_config
    Manager.queue_for Manager.action_limit Manager.running_count_for_action Manager.has_capacity
    Manager.update_action_order Acquire.put_in_queue Acquire.displace_at Acquire.displace_from
    Acquire.try_displace Acquire.queue_up Acquire.admit Acquire.finish_start Acquire.conclude
    Acquire.acquire Release.next_from Release.next_queued Release.release_slot
    Release.finish_release Release.start_next Release.release Control.remove_from
    Control.dequeue_task Control.purge_from Control.purge_queue Control.info_over Control.info
    Control.drain_all Control.sweep_expired Resize.with_limits Resize.insert_by Resize.sort_by
    Resize.reconfigure Resize.candidates Resize.running_count Resize.excess_order Resize.to_stop
    Resize.stop_all Resize.set_limits
program = tt

abbrev pub queue_config : QueueConfig
queue_config = record {
  enabled = true;
  size = pos 2;
  order = order_first;
  max_age = pos 60;
  displace = displace_true;
}

abbrev pub global_config : PoolConfig
global_config = record { limit = pos 2; queue = some 0; excess = zero_excess_config }

abbrev pub build_config : PoolConfig
build_config = record { limit = pos 1; queue = none; excess = zero_excess_config }

abbrev pub arrival : String → String → Arrival ℕ
arrival id action = record {
  task_id = id;
  action = action;
  forced = false;
  stop_fn = 1;
  start_fn = 2;
  cancel_fn = some 3;
}

abbrev pub entry : String → String → RunningEntry ℕ
entry id action = record {
  task_id = id;
  action = action;
  started_at = 5;
  forced = false;
  stop = some 1;
}

abbrev pub item : String → String → QueuedItem ℕ
item id action = record {
  task_id = id;
  action = action;
  enqueued_at = 5;
  forced = false;
  start_fn = 2;
  cancel_fn = some 3;
}

abbrev pub empty_pool : PoolManager ℕ
empty_pool =
    Manager.new_pool_manager (queue_config ∷ []) global_config (("build", build_config) ∷ [])

abbrev pub full_pool : PoolManager ℕ
full_pool = record {
  global_cfg = global_config;
  action_cfgs = ("build", build_config) ∷ [];
  queue_cfgs = queue_config ∷ [];
  running = entry "a" "build" ∷ entry "b" "test" ∷ [];
  queues = ("build", record { cfg = 0; items = item "c" "build" ∷ item "d" "build" ∷ [] }) ∷ [];
  action_order = "build" ∷ [];
  tick_interval = 30000000000;
  stopped = false;
}
