-- ===== src/Tests/HubData.antt =====
-- A hub to run the model of hub.go on: one action, whose handler starts a worker, two clients, a
-- pool of one slot, and a retry policy that gives up at the second exit within ten seconds.
use sticky_overseer.Base.{String, true, false, none, some, [], ◌∷◌, pos, inr}
use sticky_overseer.Metrics
use sticky_overseer.Metrics.{new_metrics}
use sticky_overseer.Worker
use sticky_overseer.Worker.{Worker, new_worker, Event}
use sticky_overseer.Worker.Ring
use sticky_overseer.Pool.Types.{zero_excess_config, zero_pool_config}
use sticky_overseer.Pool.Manager.{PoolManager, new_pool_manager}
use sticky_overseer.Messages.{RetryPolicy}
use sticky_overseer.Hub.Types.{Hub, Launch, World, ActionHandler}
use sticky_overseer.Hub.Clients
use sticky_overseer.Hub.Launch
use sticky_overseer.Hub.Start
use sticky_overseer.Hub.Exit

-- What a run of the hub unfolds.
unfoldable pub hub_program : Unit {0}
unfolding Metrics.new_metrics Metrics.update_action Metrics.evict Metrics.task_entry
    Metrics.update_task Metrics.record_start Metrics.record_exit Metrics.record_restart
    Metrics.record_output Metrics.record_dequeued Metrics.record_enqueued Worker.add_event
    Worker.get_events Worker.worker_exits Worker.stop Ring.add_events Clients.add_client
    Clients.remove_client Clients.send_to Clients.drop_dead Clients.targets_of Clients.broadcast
    Clients.broadcast_to_subscribers Clients.subscribe Launch.auto_subscribe Launch.register
    Launch.unregister Launch.set_task Launch.stop_task Launch.stop_worker Launch.announce_start
    Launch.start_fn Launch.cancel_fn Launch.run_call Launch.run_calls Launch.settle_start
    Launch.acquire_slot Launch.start_released Launch.release_task Start.is_taken Start.reserve
    Start.announce_queued Start.conclude_launch Start.launch Exit.counted_exits Exit.exit_task
    Exit.restarted_task Exit.reset_task Exit.reset_started_task Exit.output_task Exit.delay_of
    Exit.conclude_exit Exit.exit_known Exit.on_worker_exited
hub_program = tt

abbrev pub worker_7 : Worker
worker_7 = new_worker false 7 "job" 20

abbrev pub handler : ActionHandler
handler = record {
  describe = record {
    name = "";
    type_ = "exec";
    description = "";
    params = [];
    task_pool = zero_pool_config;
    retry = none;
    dedupe_key = [];
  };
  validate = λ params. none;
  start = λ now id params. inr (new_worker false 7 id now);
  dedupe_key = [];
}

abbrev pub world : World
world = record {
  actions = some (("build", handler) ∷ []);
  write_json = λ conn msg. true;
  new_uuid = λ now. "uuid";
  int63n = λ n. 0;
  quote = λ t. t;
  version = "1";
  parse_time = λ t. none;
  visit = "build" ∷ [];
}

abbrev pub policy : RetryPolicy
policy = record {
  restart_delay = pos 1000;
  restart_jitter = pos 500;
  error_window = pos 10000000000;
  error_threshold = pos 2;
}

abbrev pub job : String → Launch
job id = record {
  handler = handler;
  conn = some 1;
  id = "req";
  task_id = id;
  action = "build";
  params = [];
  retry_policy = some policy;
}

abbrev pub one_slot : PoolManager Launch
one_slot =
    new_pool_manager [] (record { limit = pos 1; queue = none; excess = zero_excess_config }) []

abbrev pub pool_of : Hub → PoolManager Launch
pool_of h = elim (h.pool) [ none ↦ one_slot | some pm ↦ pm ]

abbrev pub hub : Hub
hub = record {
  clients = 1 ∷ 2 ∷ [];
  subscriptions = (1, "job" ∷ []) ∷ (2, []) ∷ [];
  tasks = [];
  pending = [];
  pool = some one_slot;
  metrics = new_metrics;
  effects = [];
}
