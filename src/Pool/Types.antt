-- ===== src/Pool/Types.antt =====
-- The data of pool.go, and `DisplacePolicy` of config.go.
--
-- A closure that the pool stores (`stop`, `startFn`, `cancelFn`) is a value of the parameter `C`,
-- and an operation returns the calls that it makes of them, in order. Times are nanoseconds since
-- a fixed past instant. Limits, sizes and ages are Go's signed `int`.
use sticky_overseer.Base.{ℕ, String, Bool, Option, List, ℤ, pos, none, false}

-- `string` types with named constants: any other text is `other`.
pub data QueueOrder : Type 0 where
  order_first order_last : QueueOrder
  other : String → QueueOrder

pub data ExcessAction : Type 0 where
  excess_stop excess_requeue : ExcessAction
  other : String → ExcessAction

pub data KillOrder : Type 0 where
  kill_first kill_last : KillOrder
  other : String → KillOrder

pub data DisplacePolicy : Type 0 where
  displace_false displace_true displace_prohibit : DisplacePolicy
  other : String → DisplacePolicy

pub record QueueConfig : Type 0 where
  pub enabled : Bool
  pub size : ℤ
  pub order : QueueOrder
  pub max_age : ℤ
  pub displace : DisplacePolicy

pub record ExcessConfig : Type 0 where
  pub action : ExcessAction
  pub order : KillOrder
  pub grace : ℤ

-- `queue` is a pointer: the index of a `QueueConfig` among those of the pool.
pub record PoolConfig : Type 0 where
  pub limit : ℤ
  pub queue : Option ℕ
  pub excess : ExcessConfig

-- `&QueueConfig{}`, `ExcessConfig{}` and `PoolConfig{}`
abbrev pub zero_queue_config : QueueConfig
zero_queue_config = record {
  enabled = false;
  size = pos 0;
  order = QueueOrder.other "";
  max_age = pos 0;
  displace = DisplacePolicy.other "";
}

abbrev pub zero_excess_config : ExcessConfig
zero_excess_config = record {
  action = ExcessAction.other "";
  order = KillOrder.other "";
  grace = pos 0;
}

abbrev pub zero_pool_config : PoolConfig
zero_pool_config = record { limit = pos 0; queue = none; excess = zero_excess_config }

pub record RunningEntry {ℓ} (C : Type ℓ) : Type ℓ where
  pub task_id : String
  pub action : String
  pub started_at : ℕ
  pub forced : Bool
  pub stop : Option C

pub record QueuedItem {ℓ} (C : Type ℓ) : Type ℓ where
  pub task_id : String
  pub action : String
  pub enqueued_at : ℕ
  pub forced : Bool
  pub start_fn : C
  pub cancel_fn : Option C

pub record QueuedItemInfo : Type 0 where
  pub task_id : String
  pub action : String
  pub queued_at : ℕ
  pub position : ℕ
  pub forced : Bool

pub record PoolInfo : Type 0 where
  pub limit : ℤ
  pub running : ℕ
  pub queue_depth : ℕ
  pub queue_items : List QueuedItemInfo

-- The errors that the pool makes, and an error that a `startFn` returned.
pub data Reason : Type 0 where
  item_expired displaced_by_incoming task_dequeued queue_purged shutdown pool_rejected : Reason
  start_failed : String → Reason

-- `reason.Error()`
abbrev pub reason_text : Reason → String
reason_text item_expired = "pool: item expired"
reason_text displaced_by_incoming = "pool: displaced by incoming task"
reason_text task_dequeued = "pool: task dequeued"
reason_text queue_purged = "pool: queue purged"
reason_text shutdown = "pool: shutdown"
reason_text pool_rejected = "pool: task rejected — limit reached and queue is full"
reason_text (start_failed e) = e

-- A call that the pool makes of a closure that it was given.
pub data Call {ℓ} (C : Type ℓ) : Type ℓ where
  stops : C → Call C
  starts : C → Call C
  cancels : C → Reason → Call C
