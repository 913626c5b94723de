-- ===== src/Hub/Types.antt =====
-- The data of hub.go and of the messages that it sends (messages.go).
--
-- `h.mu`, `task.mu` and `w.mu` make each step of a method atomic, and no other step is modelled.
-- A connection is a number. What a method writes to connections, to the event log and to processes,
-- and the goroutines that it starts, are effects; the hub holds those so far, the latest first.
use sticky_overseer.Base.{
  ◌%◌, ℕ, ◌+◌, ◌-◌, String, Bool, true, Option, List, ◌∷◌, ℤ, pos, negsuc, ltb, leb, false,
  if◌then◌else◌, ◌⊎◌,
}
use sticky_overseer.Messages.{RetryPolicy}
use sticky_overseer.Actions.{ActionInfo}
use sticky_overseer.Manifest.Types.{WsManifest}
use sticky_overseer.Pool.Types.{PoolInfo, ExcessConfig}
use sticky_overseer.Pool.Manager.{PoolManager}
use sticky_overseer.Metrics.{Metrics, TaskMetrics, ActionMetrics, GlobalMetricsSnapshot}
use sticky_overseer.Worker.{Worker, WorkerState, Stream, Signal}

pub data TaskState : Type 0 where
  state_active state_stopped state_errored state_queued : TaskState

abbrev pub is_active : TaskState → Bool
is_active state_active = true
is_active _ = false

abbrev pub is_stopped : TaskState → Bool
is_stopped state_stopped = true
is_stopped _ = false

abbrev pub is_errored : TaskState → Bool
is_errored state_errored = true
is_errored _ = false

pub record TaskRecord : Type 0 where
  pub task_id : String
  pub action : String
  pub params : List (String × String)
  pub retry_policy : Option RetryPolicy
  pub state : TaskState
  pub restart_count : ℕ
  pub exit_count : ℕ
  pub created_at : ℕ
  pub last_started_at : Option ℕ
  pub last_exited_at : Option ℕ
  pub error_message : String

pub record Task : Type 0 where
  pub record_ : TaskRecord
  pub worker : Option Worker
  pub exit_history : List ℕ
  pub output_seq : ℕ

-- An action handler, which is not the hub's: `start now id params` is its error or its worker.
pub record ActionHandler : Type 0 where
  pub describe : ActionInfo
  pub validate : List (String × String) → Option String
  pub start : ℕ → String → List (String × String) → String ⊎ Worker
  pub dedupe_key : List String

-- What the closures `startFn`, `cancelFn` and `stopFn` of `handleStart` and `Submit` capture.
-- `Submit` has no connection and no message ID.
pub record Launch : Type 0 where
  pub handler : ActionHandler
  pub conn : Option ℕ
  pub id : String
  pub task_id : String
  pub action : String
  pub params : List (String × String)
  pub retry_policy : Option RetryPolicy

-- What `handleList` tells of a task. A `CurrentPID` of 0 and a worker state are left out where there
-- is no worker; `created_at` is `none` for Go's zero time, which a queued task has.
pub record TaskInfo : Type 0 where
  pub task_id : String
  pub action : String
  pub params : List (String × String)
  pub queued_at : Option ℕ
  pub state : TaskState
  pub retry_policy : Option RetryPolicy
  pub current_pid : ℕ
  pub worker_state : Option WorkerState
  pub restart_count : ℕ
  pub created_at : Option ℕ
  pub last_started_at : Option ℕ
  pub last_exited_at : Option ℕ
  pub last_exit_code : Option ℤ
  pub error_message : String

-- The server's messages, without their `type`.
pub data Message : Type 0 where
  error_message : (id message existing_task_id : String) → Message
  started : (id task_id : String) (pid restart_of ts : ℕ) → Message
  output : (task_id : String) (pid : ℕ) (stream : Stream) (data_ : String) (ts seq : ℕ) → Message
  exited : (task_id : String) (pid : ℕ) (exit_code : ℤ) (intentional : Bool) (ts : ℕ) → Message
  restarting : (task_id : String) (pid : ℕ) (restart_delay : ℤ) (attempt ts : ℕ) → Message
  errored : (task_id : String) (pid exit_count ts : ℕ) → Message
  queued : (id task_id action : String) (position ts : ℕ) → Message
  dequeued : (task_id reason : String) (ts : ℕ) → Message
  subscribed unsubscribed : (id task_id : String) → Message
  pool_message : (id action : String) → PoolInfo → Message
  pool_updated : (action : String) → PoolInfo → Message
  purged : (id action : String) (count : ℕ) → Message
  metrics_message :
      (id : String)
      → Option GlobalMetricsSnapshot
      → Option ActionMetrics
      → Option TaskMetrics
      → Message
  tasks_message : (id : String) → List TaskInfo → Message
  actions_message : (id : String) → List ActionInfo → Message
  manifest_message : (id : String) → WsManifest → Message

-- `restart_later` is `go h.doRestart(task, oldPID, attempt, delay)`; `close` closes a connection.
pub data Effect : Type 0 where
  send : ℕ → Message → Effect
  log_event : Message → Effect
  signal : String → Signal → Effect
  restart_later : (task_id : String) (old_pid attempt : ℕ) (delay : ℤ) → Effect
  close : ℕ → Effect

-- A connection and the task IDs that it is subscribed to.
pub record Hub : Type 0 where
  pub clients : List ℕ
  pub subscriptions : List (ℕ × List String)
  pub tasks : List (String × Task)
  pub pending : List String
  pub pool : Option (PoolManager Launch)
  pub metrics : Metrics
  pub effects : List Effect

-- What the hub is given: the actions (`none` for a nil map), whether `WriteJSON` succeeds on a
-- connection, what `newUUID` returns at an instant, `mrand.Int63n`, what `%q` prints, the version, what
-- `time.Parse` reads, and the order in which the
-- queues of the pool are visited by a `range`.
pub record World : Type 0 where
  pub actions : Option (List (String × ActionHandler))
  pub write_json : ℕ → Message → Bool
  pub new_uuid : ℕ → String
  pub int63n : ℕ → ℕ
  pub quote : String → String
  pub version : String
  pub parse_time : String → Option ℕ
  pub visit : List String

abbrev pub emit : Effect → Hub → Hub
emit e h = record h { effects = e ∷ h.effects }

-- An `int64` of these bits.
unfoldable pub to_int64 : ℕ → ℤ
to_int64 n =
    let bits = n % 18446744073709551616 in
    if ltb bits 9223372036854775808 then pos bits else negsuc (18446744073709551615 - bits)

-- `restartDelay + n`, where both are values of an `int64` and `n` is not negative.
abbrev pub add_delay : ℤ → ℕ → ℤ
add_delay (pos d) n = to_int64 (d + n)
add_delay (negsuc d) n = if ltb d n then pos (n - (d + 1)) else negsuc (d - n)

-- `!t.Before(now.Add(-window))`
abbrev pub is_recent : ℕ → ℤ → ℕ → Bool
is_recent now (pos window) t = leb now (t + window)
is_recent now (negsuc n) t = leb (now + (n + 1)) t

-- A request of a client. `type` is a text.
pub record IncomingMessage : Type 0 where
  pub type_ : String
  pub id : String
  pub task_id : String
  pub action : String
  pub params : List (String × String)
  pub force : Bool
  pub limit : ℤ
  pub queue_size : ℤ
  pub excess : Option ExcessConfig
  pub retry_policy : Option RetryPolicy
  pub since : String
