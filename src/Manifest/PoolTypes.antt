-- ===== src/Manifest/PoolTypes.antt =====
-- `buildManifestTypes` of manifest.go: the types of the states and of the pool.
use sticky_overseer.Base.{String, true, false, List, [], ◌∷◌}
use sticky_overseer.Manifest.Types.{ManifestType, plain, refers_to, enum_type, object_type}

abbrev pub task_state_type : ManifestType
task_state_type =
    enum_type "Lifecycle state of a task" ("active" ∷ "stopped" ∷ "errored" ∷ "queued" ∷ [])

abbrev pub worker_state_type : ManifestType
worker_state_type = enum_type "Running state of a worker process" ("running" ∷ "exited" ∷ [])

abbrev pub stream_type : ManifestType
stream_type = enum_type "Output stream identifier" ("stdout" ∷ "stderr" ∷ [])

abbrev pub queue_order_type : ManifestType
queue_order_type = enum_type "Dequeue order: first=FIFO, last=LIFO" ("first" ∷ "last" ∷ [])

abbrev pub excess_action_type : ManifestType
excess_action_type =
    enum_type "What to do when pool limit decreases while tasks are running"
      ("stop" ∷ "requeue" ∷ [])

abbrev pub kill_order_type : ManifestType
kill_order_type =
    enum_type "Which running task to affect first: first=longest-running, last=shortest-running"
      ("first" ∷ "last" ∷ [])

abbrev pub retry_policy_type : ManifestType
retry_policy_type = object_type "Controls automatic restarts after non-intentional worker exits" (
    ("restart_delay", (plain "duration" "Delay between exit and restart attempt" false))
    ∷ (
      "error_window",
      (plain "duration" "Time window for counting exits toward error threshold" false),
    )
    ∷ (
      "error_threshold",
      (plain "integer" "Max exits within error_window before task is errored" false),
    )
    ∷ [])

abbrev pub displace_policy_type : ManifestType
displace_policy_type =
    object_type "Controls whether queued tasks displace running ones when the queue is full" (
      ("enabled", (plain "boolean" "Whether displacement is active" false))
      ∷ ("order", (refers_to "KillOrder" "Which running task to displace" false))
      ∷ [])

abbrev pub queue_config_type : ManifestType
queue_config_type = object_type "Controls queuing behavior when the pool limit is reached" (
    ("enabled", (plain "boolean" "Whether queuing is enabled" true))
    ∷ ("size", (plain "integer" "Max queue depth (0=unlimited)" false))
    ∷ ("order", (refers_to "QueueOrder" "Dequeue order" false))
    ∷ (
      "max_age",
      (plain "integer" "Max seconds a task waits in queue before expiry (0=no expiry)" false),
    )
    ∷ (
      "displace",
      (refers_to "DisplacePolicy" "Whether to displace running tasks when queue is full" false),
    )
    ∷ [])

abbrev pub excess_config_type : ManifestType
excess_config_type =
    object_type "Defines behavior when running pool limit is reduced at runtime via set_pool" (
      ("action", (refers_to "ExcessAction" "What to do with excess running tasks" false))
      ∷ ("order", (refers_to "KillOrder" "Which tasks to affect first" false))
      ∷ ("grace", (plain "integer" "Seconds to wait for graceful stop before SIGKILL" false))
      ∷ [])

abbrev pub pool_config_type : ManifestType
pool_config_type = object_type "Concurrency configuration for an action (global or per-action)" (
    ("limit", (plain "integer" "Max concurrent running tasks (0=unlimited)" true))
    ∷ ("queue", (refers_to "QueueConfig" "Queue configuration when limit is reached" false))
    ∷ ("excess", (refers_to "ExcessConfig" "Excess handling when limit decreases" false))
    ∷ [])

-- The first part of the map.
unfoldable pub pool_types : List (String × ManifestType)
pool_types =
    ("TaskState", task_state_type)
    ∷ ("WorkerState", worker_state_type)
    ∷ ("Stream", stream_type)
    ∷ ("QueueOrder", queue_order_type)
    ∷ ("ExcessAction", excess_action_type)
    ∷ ("KillOrder", kill_order_type)
    ∷ ("RetryPolicy", retry_policy_type)
    ∷ ("DisplacePolicy", displace_policy_type)
    ∷ ("QueueConfig", queue_config_type)
    ∷ ("ExcessConfig", excess_config_type)
    ∷ ("PoolConfig", pool_config_type)
    ∷ []
