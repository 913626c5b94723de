-- ===== src/Manifest/Operations.antt =====
-- `buildManifestOperations` of manifest.go.
use sticky_overseer.Base.{String, none, some, List, [], ◌∷◌}
use sticky_overseer.Manifest.Types.{ManifestOp}

abbrev pub start_task_operation : ManifestOp
start_task_operation = record {
  description = "Start a new task for a registered action";
  send = "start";
  responses = record {
    direct = some (record { success = ("queued" ∷ "started" ∷ []); error = ("error" ∷ []) });
    side_effects = some (record {
      broadcast = ("queued" ∷ "dequeued" ∷ "pool_updated" ∷ []);
      broadcast_subscribers = ("started" ∷ "output" ∷ "exited" ∷ "restarting" ∷ "errored" ∷ []);
    });
  };
  notes =
      "The submitting connection is automatically subscribed to the new task's events. If the pool is at capacity and queuing is enabled, 'queued' is broadcast immediately; 'started' arrives when the task actually launches (may be after dequeue). 'dequeued' arrives if the task is removed before starting.";
}

abbrev pub stop_task_operation : ManifestOp
stop_task_operation = record {
  description = "Stop a running or queued task";
  send = "stop";
  responses = record {
    direct = some (record { success = []; error = ("error" ∷ []) });
    side_effects =
        some (record { broadcast = ("dequeued" ∷ []); broadcast_subscribers = ("exited" ∷ []) });
  };
  notes =
      "No direct success message is sent. Confirmation comes via 'exited' broadcast (intentional=true) for running tasks, or 'dequeued' broadcast for queued tasks.";
}

abbrev pub reset_task_operation : ManifestOp
reset_task_operation = record {
  description = "Restart an errored task, clearing its exit history";
  send = "reset";
  responses = record {
    direct = some (record { success = ("started" ∷ []); error = ("error" ∷ []) });
    side_effects = none;
  };
  notes =
      "Only valid for tasks in the 'errored' state. Bypasses pool limits — the task starts immediately regardless of concurrency settings.";
}

abbrev pub list_tasks_operation : ManifestOp
list_tasks_operation = record {
  description = "List all known tasks";
  send = "list";
  responses = record {
    direct = some (record { success = ("tasks" ∷ []); error = ("error" ∷ []) });
    side_effects = none;
  };
  notes = "";
}

abbrev pub replay_task_operation : ManifestOp
replay_task_operation = record {
  description = "Replay buffered output history for a task";
  send = "replay";
  responses = record {
    direct = some (record { success = ("output" ∷ []); error = ("error" ∷ []) });
    side_effects = none;
  };
  notes =
      "Sends zero or more 'output' messages directly to the requesting connection (not broadcast). Output is replayed from the task's in-memory ring buffer.";
}

abbrev pub describe_actions_operation : ManifestOp
describe_actions_operation = record {
  description = "Describe registered actions and their parameter schemas";
  send = "describe";
  responses = record {
    direct = some (record { success = ("actions" ∷ []); error = ("error" ∷ []) });
    side_effects = none;
  };
  notes = "";
}

abbrev pub get_pool_info_operation : ManifestOp
get_pool_info_operation = record {
  description = "Query current pool state";
  send = "pool_info";
  responses = record {
    direct = some (record { success = ("pool_info" ∷ []); error = [] });
    side_effects = none;
  };
  notes = "";
}

abbrev pub purge_queue_operation : ManifestOp
purge_queue_operation = record {
  description = "Remove all queued tasks for an action or globally";
  send = "purge";
  responses = record {
    direct = some (record { success = ("purged" ∷ []); error = [] });
    side_effects = some (record { broadcast = ("dequeued" ∷ []); broadcast_subscribers = [] });
  };
  notes = "One 'dequeued' broadcast is sent per removed task.";
}

abbrev pub set_pool_limits_operation : ManifestOp
set_pool_limits_operation = record {
  description = "Dynamically update pool concurrency limits";
  send = "set_pool";
  responses = record {
    direct = some (record { success = ("pool_info" ∷ []); error = ("error" ∷ []) });
    side_effects = some (record { broadcast = ("pool_updated" ∷ []); broadcast_subscribers = [] });
  };
  notes = "";
}

abbrev pub subscribe_task_operation : ManifestOp
subscribe_task_operation = record {
  description = "Subscribe to task-specific broadcast events";
  send = "subscribe";
  responses = record {
    direct = some (record { success = ("subscribed" ∷ []); error = ("error" ∷ []) });
    side_effects = none;
  };
  notes = "";
}

abbrev pub unsubscribe_task_operation : ManifestOp
unsubscribe_task_operation = record {
  description = "Unsubscribe from task-specific broadcast events";
  send = "unsubscribe";
  responses = record {
    direct = some (record { success = ("unsubscribed" ∷ []); error = ("error" ∷ []) });
    side_effects = none;
  };
  notes = "";
}

abbrev pub get_metrics_operation : ManifestOp
get_metrics_operation = record {
  description = "Query runtime metrics at global, per-action, or per-task granularity";
  send = "metrics";
  responses = record {
    direct = some (record { success = ("metrics" ∷ []); error = [] });
    side_effects = none;
  };
  notes =
      "Exactly one of 'global', 'action', or 'task' will be non-null in the response. Set task_id for per-task metrics, action for per-action metrics, or omit both for global.";
}

abbrev pub get_manifest_operation : ManifestOp
get_manifest_operation = record {
  description = "Request the full WS Manifest document for this protocol";
  send = "manifest";
  responses = record {
    direct = some (record { success = ("manifest" ∷ []); error = [] });
    side_effects = none;
  };
  notes = "";
}

-- The map.
unfoldable pub build_manifest_operations : List (String × ManifestOp)
build_manifest_operations =
    ("start_task", start_task_operation)
    ∷ ("stop_task", stop_task_operation)
    ∷ ("reset_task", reset_task_operation)
    ∷ ("list_tasks", list_tasks_operation)
    ∷ ("replay_task", replay_task_operation)
    ∷ ("describe_actions", describe_actions_operation)
    ∷ ("get_pool_info", get_pool_info_operation)
    ∷ ("purge_queue", purge_queue_operation)
    ∷ ("set_pool_limits", set_pool_limits_operation)
    ∷ ("subscribe_task", subscribe_task_operation)
    ∷ ("unsubscribe_task", unsubscribe_task_operation)
    ∷ ("get_metrics", get_metrics_operation)
    ∷ ("get_manifest", get_manifest_operation)
    ∷ []
