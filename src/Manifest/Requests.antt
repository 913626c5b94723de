-- ===== src/Manifest/Requests.antt =====
-- `buildManifestMessages` of manifest.go: the messages of clients.
use sticky_overseer.Base.{String, true, false, List, [], ◌∷◌}
use sticky_overseer.Manifest.Types.{
  ManifestMessage, manifest_field, end, nil, boolean, of_field, plain, refers_to, map_of,
}
use sticky_overseer.Manifest.Fields.{
  id_field, task_id_field, task_id_opt_field, action_opt_field, type_field,
}

abbrev pub start_request : ManifestMessage
start_request = record {
  description = "Enqueue or start a new task for the named action";
  direction = "c2s";
  delivery = "";
  fields =
      (("type", (type_field "start"))
        ∷ ("id", id_field)
        ∷ ("action", (plain "string" "Action name to execute" true))
        ∷ ("task_id", task_id_opt_field)
        ∷ (
          "params",
          (map_of (of_field (plain "string" "" false)) "Action-specific parameters" false),
        )
        ∷ (
          "force",
          (manifest_field "boolean" "" "Force start even when pool is at capacity (bypasses queue)"
              false (boolean false) "" [] end nil nil),
        )
        ∷ (
          "retry_policy",
          (refers_to "RetryPolicy" "Override the action's default retry policy for this task"
              false),
        )
        ∷ []);
}

abbrev pub stop_request : ManifestMessage
stop_request = record {
  description = "Stop a running or queued task";
  direction = "c2s";
  delivery = "";
  fields = (("type", (type_field "stop")) ∷ ("id", id_field) ∷ ("task_id", task_id_field) ∷ []);
}

abbrev pub reset_request : ManifestMessage
reset_request = record {
  description = "Restart an errored task, clearing its exit history";
  direction = "c2s";
  delivery = "";
  fields = (("type", (type_field "reset")) ∷ ("id", id_field) ∷ ("task_id", task_id_field) ∷ []);
}

abbrev pub list_request : ManifestMessage
list_request = record {
  description = "List all known tasks, optionally filtered by activity time";
  direction = "c2s";
  delivery = "";
  fields =
      (("type", (type_field "list"))
        ∷ ("id", id_field)
        ∷ (
          "since",
          (plain "timestamp" "Only return tasks that were active after this time (RFC3339)" false),
        )
        ∷ []);
}

abbrev pub replay_request : ManifestMessage
replay_request = record {
  description = "Replay buffered output events for a task directly to the requesting connection";
  direction = "c2s";
  delivery = "";
  fields =
      (("type", (type_field "replay"))
        ∷ ("id", id_field)
        ∷ ("task_id", task_id_field)
        ∷ ("since", (plain "timestamp" "Replay only output after this time (RFC3339)" false))
        ∷ []);
}

abbrev pub describe_request : ManifestMessage
describe_request = record {
  description = "Describe available actions and their parameter schemas";
  direction = "c2s";
  delivery = "";
  fields =
      (("type", (type_field "describe")) ∷ ("id", id_field) ∷ ("action", action_opt_field) ∷ []);
}

abbrev pub pool_info_request : ManifestMessage
pool_info_request = record {
  description = "Query current pool state for an action or globally";
  direction = "c2s";
  delivery = "";
  fields =
      (("type", (type_field "pool_info")) ∷ ("id", id_field) ∷ ("action", action_opt_field) ∷ []);
}

abbrev pub purge_request : ManifestMessage
purge_request = record {
  description = "Remove all queued tasks for an action (or all actions)";
  direction = "c2s";
  delivery = "";
  fields = (("type", (type_field "purge")) ∷ ("id", id_field) ∷ ("action", action_opt_field) ∷ []);
}

abbrev pub set_pool_request : ManifestMessage
set_pool_request = record {
  description = "Dynamically update pool limits and queue configuration";
  direction = "c2s";
  delivery = "";
  fields =
      (("type", (type_field "set_pool"))
        ∷ ("id", id_field)
        ∷ ("action", action_opt_field)
        ∷ ("limit", (plain "integer" "New concurrency limit (0=unlimited)" false))
        ∷ ("queue_size", (plain "integer" "New queue size limit" false))
        ∷ (
          "excess",
          (refers_to "ExcessConfig" "How to handle tasks that exceed the new limit" false),
        )
        ∷ []);
}

abbrev pub subscribe_request : ManifestMessage
subscribe_request = record {
  description = "Subscribe to task-specific broadcast events (output, exited, restarting, errored)";
  direction = "c2s";
  delivery = "";
  fields =
      (("type", (type_field "subscribe")) ∷ ("id", id_field) ∷ ("task_id", task_id_field) ∷ []);
}

abbrev pub unsubscribe_request : ManifestMessage
unsubscribe_request = record {
  description = "Unsubscribe from task-specific broadcast events";
  direction = "c2s";
  delivery = "";
  fields =
      (("type", (type_field "unsubscribe")) ∷ ("id", id_field) ∷ ("task_id", task_id_field) ∷ []);
}

abbrev pub metrics_request : ManifestMessage
metrics_request = record {
  description = "Query metrics at global, per-action, or per-task granularity";
  direction = "c2s";
  delivery = "";
  fields =
      (("type", (type_field "metrics"))
        ∷ ("id", id_field)
        ∷ (
          "action",
          (plain "string" "Action name for per-action metrics (mutually exclusive with task_id)"
              false),
        )
        ∷ (
          "task_id",
          (plain "uuid" "Task ID for per-task metrics (mutually exclusive with action)" false),
        )
        ∷ []);
}

abbrev pub manifest_request : ManifestMessage
manifest_request = record {
  description = "Request the full WS Manifest document describing this protocol";
  direction = "c2s";
  delivery = "";
  fields = (("type", (type_field "manifest")) ∷ ("id", id_field) ∷ []);
}

-- The messages of direction c2s.
unfoldable pub request_messages : List (String × ManifestMessage)
request_messages =
    ("start", start_request)
    ∷ ("stop", stop_request)
    ∷ ("reset", reset_request)
    ∷ ("list", list_request)
    ∷ ("replay", replay_request)
    ∷ ("describe", describe_request)
    ∷ ("pool_info", pool_info_request)
    ∷ ("purge", purge_request)
    ∷ ("set_pool", set_pool_request)
    ∷ ("subscribe", subscribe_request)
    ∷ ("unsubscribe", unsubscribe_request)
    ∷ ("metrics", metrics_request)
    ∷ ("manifest", manifest_request)
    ∷ []
