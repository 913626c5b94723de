-- ===== src/Manifest/TaskTypes.antt =====
-- `buildManifestTypes` of manifest.go: the types of tasks, actions and metrics.
use sticky_overseer.Base.{String, true, false, List, [], ◌∷◌}
use sticky_overseer.Manifest.Types.{
  ManifestType, text, of_field, of_map, entry, no_entries, plain, refers_to, array_of, map_of,
  object_type,
}

abbrev pub pool_info_type : ManifestType
pool_info_type = object_type "Point-in-time snapshot of pool state" (
    ("limit", (plain "integer" "" true))
    ∷ ("running", (plain "integer" "" true))
    ∷ ("queue_depth", (plain "integer" "" true))
    ∷ (
      "queue_items",
      (array_of
          (of_map (
            entry "type" (text "object") (
              entry "fields"
                (of_map (
                  entry "task_id" (of_map (entry "type" (text "string") no_entries))
                    (entry "action" (of_map (entry "type" (text "string") no_entries)) no_entries)))
                no_entries)))
          "" false),
    )
    ∷ [])

abbrev pub param_spec_type : ManifestType
param_spec_type = object_type "Describes a single action parameter" (
    ("default", (plain "string" "Default value; null means the parameter is required" false))
    ∷ (
      "validate",
      (plain "string" "CEL expression operating on 'value' (string); empty means no validation"
          false),
    )
    ∷ [])

abbrev pub action_info_type : ManifestType
action_info_type = object_type "Describes a registered action and its parameters" (
    ("name", (plain "string" "" true))
    ∷ ("type", (plain "string" "Driver/factory type (e.g. exec)" true))
    ∷ ("description", (plain "string" "" false))
    ∷ ("params", (map_of (of_field (refers_to "ParamSpec" "" false)) "Accepted parameters" false))
    ∷ ("task_pool", (refers_to "PoolConfig" "" false))
    ∷ ("retry", (refers_to "RetryPolicy" "" false))
    ∷ (
      "dedupe_key",
      (array_of (of_field (plain "string" "" false))
          "Param names forming the deduplication identity" false),
    )
    ∷ [])

abbrev pub task_info_type : ManifestType
task_info_type = object_type "Full state record for a task" (
    ("task_id", (plain "uuid" "" true))
    ∷ ("action", (plain "string" "" true))
    ∷ ("params", (map_of (of_field (plain "string" "" false)) "" false))
    ∷ ("queued_at", (plain "timestamp" "" false))
    ∷ ("state", (refers_to "TaskState" "" true))
    ∷ ("retry_policy", (refers_to "RetryPolicy" "" false))
    ∷ ("current_pid", (plain "integer" "" false))
    ∷ ("worker_state", (refers_to "WorkerState" "" false))
    ∷ ("restart_count", (plain "integer" "" true))
    ∷ ("created_at", (plain "timestamp" "" true))
    ∷ ("last_started_at", (plain "timestamp" "" false))
    ∷ ("last_exited_at", (plain "timestamp" "" false))
    ∷ ("last_exit_code", (plain "integer" "" false))
    ∷ ("error_message", (plain "string" "" false))
    ∷ [])

abbrev pub task_metrics_type : ManifestType
task_metrics_type = object_type "Lifetime stats for a single task" (
    ("output_lines", (plain "integer" "" false))
    ∷ ("restart_count", (plain "integer" "" false))
    ∷ ("runtime_ms", (plain "integer" "" false))
    ∷ ("last_exit_code", (plain "integer" "" false))
    ∷ [])

abbrev pub action_metrics_type : ManifestType
action_metrics_type = object_type "Aggregate stats for all tasks of one action type" (
    ("tasks_started", (plain "integer" "" false))
    ∷ ("tasks_completed", (plain "integer" "" false))
    ∷ ("tasks_errored", (plain "integer" "" false))
    ∷ ("tasks_restarted", (plain "integer" "" false))
    ∷ ("total_output_lines", (plain "integer" "" false))
    ∷ [])

abbrev pub global_metrics_type : ManifestType
global_metrics_type = object_type "Global aggregate counters since server start" (
    ("tasks_started", (plain "integer" "" false))
    ∷ ("tasks_completed", (plain "integer" "" false))
    ∷ ("tasks_errored", (plain "integer" "" false))
    ∷ ("tasks_restarted", (plain "integer" "" false))
    ∷ ("total_output_lines", (plain "integer" "" false))
    ∷ ("enqueued", (plain "integer" "" false))
    ∷ ("dequeued", (plain "integer" "" false))
    ∷ ("displaced", (plain "integer" "" false))
    ∷ ("expired", (plain "integer" "" false))
    ∷ [])

-- The rest of the map.
unfoldable pub task_types : List (String × ManifestType)
task_types =
    ("PoolInfo", pool_info_type)
    ∷ ("ParamSpec", param_spec_type)
    ∷ ("ActionInfo", action_info_type)
    ∷ ("TaskInfo", task_info_type)
    ∷ ("TaskMetrics", task_metrics_type)
    ∷ ("ActionMetrics", action_metrics_type)
    ∷ ("GlobalMetrics", global_metrics_type)
    ∷ []
