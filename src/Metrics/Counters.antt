-- ===== src/Metrics/Counters.antt =====
-- What the counters of metrics.go count, over any history of the calls that are made of them.
use sticky_overseer.Base.{
  ℕ, ◌≡◌, refl, ap, ◌∙◌, String, Bool, true, false, List, [], ◌∷◌, arith, ite, text_eq, ℤ, count_by,
  ◌&&◌, lookup, lookup-insert,
}
use sticky_overseer.Metrics.{
  Metrics, ActionMetrics, TaskMetrics, new_metrics, or_zero_action, update_action, task_entry,
  update_task, record_start, record_exit, record_restart, record_output, record_enqueued,
  record_dequeued, record_displaced, record_expired, action_snapshot,
}
use sticky_overseer.Metrics.Cap.{IsCapped, task_entry-IsCapped, update_task-IsCapped}

-- A call of a method of `Metrics`.
pub data Event : Type 0 where
  start : String → String → Event
  exit : String → String → ℤ → Bool → ℕ → Event
  restart : String → String → Event
  output : String → String → Event
  enqueue dequeue displace expire : Event

unfoldable pub record_event : Event → Metrics → Metrics
record_event (start id action) m = record_start id action m
record_event (exit id action code errored ms) m = record_exit id action code errored ms m
record_event (restart id action) m = record_restart id action m
record_event (output id action) m = record_output id action m
record_event enqueue m = record_enqueued m
record_event dequeue m = record_dequeued m
record_event displace m = record_displaced m
record_event expire m = record_expired m

-- A history, latest call first.
unfoldable pub record_all : List Event → Metrics
record_all [] = new_metrics
record_all (e ∷ es) = record_event e (record_all es)

-- What a method leaves alone when it only touches the entry of a task.
record SameCounters (m m' : Metrics) : Type 0 where
  same_global : m'.global ≡ m.global
  same_actions : m'.by_action ≡ m.by_action

task_entry-SameCounters : (id : String) (m : Metrics) → SameCounters m (task_entry id m).0
unfolding task_entry
task_entry-SameCounters id m = ground arith

update_task-SameCounters :
    (id : String) (f : TaskMetrics → TaskMetrics) (m : Metrics)
    → SameCounters m (update_task id f m)
unfolding update_task
update_task-SameCounters id f m = ground (arith, task_entry-SameCounters id m)

-- The counters of an action, 0 where nothing was recorded.
abbrev pub counters : String → Metrics → ActionMetrics
counters a m = or_zero_action (action_snapshot a m)

counters-update_action :
    (a b : String) (f : ActionMetrics → ActionMetrics) (m : Metrics)
    → counters b (update_action a f m) ≡ ite (text_eq a b) (f (counters b m)) (counters b m)
unfolding update_action action_snapshot
counters-update_action a b f m =
    ground (arith, lookup-insert a b (f (or_zero_action (lookup a m.by_action))) m.by_action)

counters-task_entry : (a id : String) (m : Metrics) → counters a (task_entry id m).0 ≡ counters a m
unfolding action_snapshot
counters-task_entry a id m =
    ap (λ t. or_zero_action (lookup a t)) (task_entry-SameCounters id m).same_actions

counters-update_task :
    (a id : String) (f : TaskMetrics → TaskMetrics) (m : Metrics)
    → counters a (update_task id f m) ≡ counters a m
unfolding action_snapshot
counters-update_task a id f m =
    ap (λ t. or_zero_action (lookup a t)) (update_task-SameCounters id f m).same_actions

record_event-IsCapped : (e : Event) (m : Metrics) → IsCapped m → IsCapped (record_event e m)
unfolding record_event record_start record_exit record_restart record_output record_enqueued
    record_dequeued record_displaced record_expired update_action
record_event-IsCapped (start id a) m c =
    task_entry-IsCapped id _ (record { ordered = c.ordered; capped = c.capped })
record_event-IsCapped (exit id a code errored ms) m c =
    update_task-IsCapped id _ _ (record { ordered = c.ordered; capped = c.capped })
record_event-IsCapped (restart id a) m c =
    update_task-IsCapped id _ _ (record { ordered = c.ordered; capped = c.capped })
record_event-IsCapped (output id a) m c =
    update_task-IsCapped id _ _ (record { ordered = c.ordered; capped = c.capped })
record_event-IsCapped enqueue m c = record { ordered = c.ordered; capped = c.capped }
record_event-IsCapped dequeue m c = record { ordered = c.ordered; capped = c.capped }
record_event-IsCapped displace m c = record { ordered = c.ordered; capped = c.capped }
record_event-IsCapped expire m c = record { ordered = c.ordered; capped = c.capped }

-- The registry never holds more than `maxTaskEntries` tasks: whatever is recorded, the keys of its
-- map are those of its order, each once, and no more than that.
pub record_all-IsCapped : (es : List Event) → IsCapped (record_all es)
unfolding record_all new_metrics
record_all-IsCapped [] = record {
  ordered = record { same_keys = refl; distinct = tt };
  capped = omega arith;
}
record_all-IsCapped (e ∷ es) = record_event-IsCapped e (record_all es) (record_all-IsCapped es)

abbrev pub is_of : String → String → Bool
is_of a action = ite (text_eq action a) true false

abbrev pub starts_of : String → Event → Bool
starts_of a (start id action) = is_of a action
starts_of a _ = false

abbrev pub exits_of : String → Event → Bool
exits_of a (exit id action code errored ms) = is_of a action
exits_of a _ = false

abbrev pub errors_of : String → Event → Bool
errors_of a (exit id action code errored ms) = errored && is_of a action
errors_of a _ = false

abbrev pub restarts_of : String → Event → Bool
restarts_of a (restart id action) = is_of a action
restarts_of a _ = false

abbrev pub outputs_of : String → Event → Bool
outputs_of a (output id action) = is_of a action
outputs_of a _ = false

-- How often each kind of call named the action.
abbrev pub tally : String → List Event → ActionMetrics
tally a es = record {
  tasks_started = count_by (starts_of a) es;
  tasks_completed = count_by (exits_of a) es;
  tasks_errored = count_by (errors_of a) es;
  tasks_restarted = count_by (restarts_of a) es;
  total_output_lines = count_by (outputs_of a) es;
}

-- The counters of each action are exact: they are the numbers of the calls that named it.
pub counters_exact : (a : String) (es : List Event) → counters a (record_all es) ≡ tally a es
unfolding record_all record_event record_start record_exit record_restart record_output
    record_enqueued record_dequeued record_displaced record_expired new_metrics action_snapshot
    lookup
counters_exact a [] = refl
counters_exact a (start id action ∷ es) =
    counters-task_entry a id _
    ∙ counters-update_action action a _ _
    ∙ ground (arith, counters_exact a es)
counters_exact a (exit id action code errored ms ∷ es) =
    counters-update_task a id _ _
    ∙ counters-update_action action a _ _
    ∙ ground (arith, counters_exact a es)
counters_exact a (restart id action ∷ es) =
    counters-update_task a id _ _
    ∙ counters-update_action action a _ _
    ∙ ground (arith, counters_exact a es)
counters_exact a (output id action ∷ es) =
    counters-update_task a id _ _
    ∙ counters-update_action action a _ _
    ∙ ground (arith, counters_exact a es)
counters_exact a (enqueue ∷ es) = counters_exact a es
counters_exact a (dequeue ∷ es) = counters_exact a es
counters_exact a (displace ∷ es) = counters_exact a es
counters_exact a (expire ∷ es) = counters_exact a es
