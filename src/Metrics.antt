-- ===== src/Metrics.antt =====
-- metrics.go: counters of the whole server, of each action and of each task. The counters are
-- `int64` and count events from 0, so they are natural numbers here.
pub mod Cap
pub mod Counters
use sticky_overseer.Base.{
  ℕ, zero, suc, ◌+◌, String, Bool, true, false, Option, none, some, List, [], ◌∷◌, ◌++◌, ltb, ◌&&◌,
  if◌then◌else◌, length, ℤ, pos, lookup, insert, delete,
}

pub record TaskMetrics : Type 0 where
  pub output_lines : ℕ
  pub restart_count : ℕ
  pub runtime_ms : ℕ
  pub last_exit_code : ℤ

pub record ActionMetrics : Type 0 where
  pub tasks_started : ℕ
  pub tasks_completed : ℕ
  pub tasks_errored : ℕ
  pub tasks_restarted : ℕ
  pub total_output_lines : ℕ

pub record GlobalMetricsSnapshot : Type 0 where
  pub tasks_started : ℕ
  pub tasks_completed : ℕ
  pub tasks_errored : ℕ
  pub tasks_restarted : ℕ
  pub total_output_lines : ℕ
  pub enqueued : ℕ
  pub dequeued : ℕ
  pub displaced : ℕ
  pub expired : ℕ

-- The global counters are those of a snapshot.
pub record Metrics : Type 0 where
  pub global : GlobalMetricsSnapshot
  pub by_action : List (String × ActionMetrics)
  pub by_task : List (String × TaskMetrics)
  pub task_order : List String

abbrev pub zero_task_metrics : TaskMetrics
zero_task_metrics = record {
  output_lines = 0;
  restart_count = 0;
  runtime_ms = 0;
  last_exit_code = pos 0;
}

abbrev pub zero_action_metrics : ActionMetrics
zero_action_metrics = record {
  tasks_started = 0;
  tasks_completed = 0;
  tasks_errored = 0;
  tasks_restarted = 0;
  total_output_lines = 0;
}

abbrev pub max_task_entries : ℕ
max_task_entries = 10000

unfoldable pub new_metrics : Metrics
new_metrics = record {
  global = record {
    tasks_started = 0;
    tasks_completed = 0;
    tasks_errored = 0;
    tasks_restarted = 0;
    total_output_lines = 0;
    enqueued = 0;
    dequeued = 0;
    displaced = 0;
    expired = 0;
  };
  by_action = [];
  by_task = [];
  task_order = [];
}

abbrev pub or_zero_action : Option ActionMetrics → ActionMetrics
or_zero_action none = zero_action_metrics
or_zero_action (some e) = e

abbrev pub or_zero_task : Option TaskMetrics → TaskMetrics
or_zero_task none = zero_task_metrics
or_zero_task (some e) = e

-- `f(m.actionEntry(action))`, where `f` writes through the pointer.
unfoldable pub update_action : String → (ActionMetrics → ActionMetrics) → Metrics → Metrics
update_action action f m = record m {
  by_action = insert action (f (or_zero_action (lookup action m.by_action))) m.by_action;
}

-- The loop of `taskEntry` that forgets the oldest entries; it runs along `taskOrder`.
unfoldable pub evict :
    ℕ → List String → List (String × TaskMetrics) → List String × List (String × TaskMetrics)
evict max [] entries = ([], entries)
evict max (oldest ∷ order) entries =
    let again = evict max order (delete oldest entries) in
    if ltb max (length entries) then again else (oldest ∷ order, entries)

-- `taskEntry`: the registry in which the task has an entry, and the entry.
unfoldable pub task_entry : String → Metrics → Metrics × TaskMetrics
task_entry id m = elim (lookup id m.by_task) [
  | some e ↦ (m, e)
  | none ↦
      let (order, entries) =
        evict max_task_entries (m.task_order ++ id ∷ []) (insert id zero_task_metrics m.by_task) in
      (record m { by_task = entries; task_order = order }, zero_task_metrics)
]

-- `f(m.taskEntry(taskID))`, where `f` writes through the pointer: the write shows as long as the
-- entry is in the map.
unfoldable pub update_task : String → (TaskMetrics → TaskMetrics) → Metrics → Metrics
update_task id f m =
    let (m', e) = task_entry id m in
    elim (lookup id m'.by_task) [
      | none ↦ m'
      | some _ ↦ record m' { by_task = insert id (f e) m'.by_task }
    ]

abbrev pub count_global : (GlobalMetricsSnapshot → GlobalMetricsSnapshot) → Metrics → Metrics
count_global f m = record m { global = f m.global }

unfoldable pub record_start : String → String → Metrics → Metrics
record_start id action m =
    let m' = count_global (λ g. record g { tasks_started = g.tasks_started + 1 }) m in
    (task_entry id
      (update_action action (λ e. record e { tasks_started = e.tasks_started + 1 }) m')).0

-- `if errored { n++ }`
abbrev pub add_if : Bool → ℕ → ℕ
add_if errored n = if errored then n + 1 else n

unfoldable pub record_exit : String → String → ℤ → Bool → ℕ → Metrics → Metrics
record_exit id action exit_code errored runtime_ms m =
    let m' =
      count_global
        (λ g. record g {
          tasks_completed = g.tasks_completed + 1;
          tasks_errored = add_if errored g.tasks_errored;
        })
        m in
    update_task id
      (λ e. record e { last_exit_code = exit_code; runtime_ms = e.runtime_ms + runtime_ms })
      (update_action action
        (λ e. record e {
          tasks_completed = e.tasks_completed + 1;
          tasks_errored = add_if errored e.tasks_errored;
        })
        m')

unfoldable pub record_restart : String → String → Metrics → Metrics
record_restart id action m =
    let m' = count_global (λ g. record g { tasks_restarted = g.tasks_restarted + 1 }) m in
    update_task id (λ e. record e { restart_count = e.restart_count + 1 })
      (update_action action (λ e. record e { tasks_restarted = e.tasks_restarted + 1 }) m')

unfoldable pub record_output : String → String → Metrics → Metrics
record_output id action m =
    let m' = count_global (λ g. record g { total_output_lines = g.total_output_lines + 1 }) m in
    update_task id (λ e. record e { output_lines = e.output_lines + 1 })
      (update_action action (λ e. record e { total_output_lines = e.total_output_lines + 1 }) m')

unfoldable pub record_enqueued : Metrics → Metrics
record_enqueued = count_global (λ g. record g { enqueued = g.enqueued + 1 })

unfoldable pub record_dequeued : Metrics → Metrics
record_dequeued = count_global (λ g. record g { dequeued = g.dequeued + 1 })

unfoldable pub record_displaced : Metrics → Metrics
record_displaced = count_global (λ g. record g { displaced = g.displaced + 1 })

unfoldable pub record_expired : Metrics → Metrics
record_expired = count_global (λ g. record g { expired = g.expired + 1 })

unfoldable pub global_snapshot : Metrics → GlobalMetricsSnapshot
global_snapshot m = m.global

unfoldable pub action_snapshot : String → Metrics → Option ActionMetrics
action_snapshot action m = lookup action m.by_action

unfoldable pub task_snapshot : String → Metrics → Option TaskMetrics
task_snapshot id m = lookup id m.by_task
