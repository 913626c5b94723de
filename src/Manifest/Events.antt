-- ===== src/Manifest/Events.antt =====
-- `buildManifestMessages` of manifest.go: the messages of the server on tasks.
use sticky_overseer.Base.{String, true, false, List, [], ◌∷◌}
use sticky_overseer.Manifest.Types.{ManifestMessage, of_field, plain, refers_to, array_of}
use sticky_overseer.Manifest.Fields.{id_echo_field, ts_field, hidden_type_field}

abbrev pub started_event : ManifestMessage
started_event = record {
  description =
      "Broadcast to task subscribers when a task's worker process has started (or restarted)";
  direction = "s2c";
  delivery = "broadcast_subscribers";
  fields =
      (("type", hidden_type_field)
        ∷ ("task_id", (plain "uuid" "" true))
        ∷ ("pid", (plain "integer" "OS process ID of the worker" true))
        ∷ (
          "restart_of",
          (plain "integer" "PID of the previous worker if this is a restart; 0 otherwise" false),
        )
        ∷ ("ts", ts_field)
        ∷ []);
}

abbrev pub tasks_event : ManifestMessage
tasks_event = record {
  description = "Direct response to a list request containing all matching task records";
  direction = "s2c";
  delivery = "direct";
  fields =
      (("type", hidden_type_field)
        ∷ ("id", id_echo_field)
        ∷ ("tasks", (array_of (of_field (refers_to "TaskInfo" "" false)) "" true))
        ∷ []);
}

abbrev pub output_event : ManifestMessage
output_event = record {
  description =
      "Broadcast to task subscribers for each line of stdout/stderr output from the worker";
  direction = "s2c";
  delivery = "broadcast_subscribers";
  fields =
      (("type", hidden_type_field)
        ∷ ("task_id", (plain "uuid" "" true))
        ∷ ("pid", (plain "integer" "" true))
        ∷ ("stream", (refers_to "Stream" "" true))
        ∷ ("data", (plain "string" "Output line content" true))
        ∷ ("ts", ts_field)
        ∷ (
          "seq",
          (plain "integer" "Per-task monotonic sequence number for ordering output lines" false),
        )
        ∷ []);
}

abbrev pub exited_event : ManifestMessage
exited_event = record {
  description = "Broadcast to task subscribers when the worker process exits";
  direction = "s2c";
  delivery = "broadcast_subscribers";
  fields =
      (("type", hidden_type_field)
        ∷ ("task_id", (plain "uuid" "" true))
        ∷ ("pid", (plain "integer" "" true))
        ∷ ("exit_code", (plain "integer" "" true))
        ∷ ("intentional", (plain "boolean" "True if the exit was caused by a stop command" true))
        ∷ ("ts", ts_field)
        ∷ []);
}

abbrev pub restarting_event : ManifestMessage
restarting_event = record {
  description = "Broadcast to task subscribers when an automatic restart is scheduled";
  direction = "s2c";
  delivery = "broadcast_subscribers";
  fields =
      (("type", hidden_type_field)
        ∷ ("task_id", (plain "uuid" "" true))
        ∷ ("pid", (plain "integer" "" true))
        ∷ ("restart_delay", (plain "duration" "How long until the restart attempt" true))
        ∷ ("attempt", (plain "integer" "Restart attempt number (1-based)" true))
        ∷ ("ts", ts_field)
        ∷ []);
}

abbrev pub errored_event : ManifestMessage
errored_event = record {
  description =
      "Broadcast to task subscribers when a task exceeds its error threshold and is permanently stopped";
  direction = "s2c";
  delivery = "broadcast_subscribers";
  fields =
      (("type", hidden_type_field)
        ∷ ("task_id", (plain "uuid" "" true))
        ∷ ("pid", (plain "integer" "" true))
        ∷ (
          "exit_count",
          (plain "integer" "Number of non-intentional exits that triggered the error state" true),
        )
        ∷ ("ts", ts_field)
        ∷ []);
}

abbrev pub error_event : ManifestMessage
error_event = record {
  description = "Direct error response to a client request, or protocol-level error notification";
  direction = "s2c";
  delivery = "direct";
  fields =
      (("type", hidden_type_field)
        ∷ ("id", id_echo_field)
        ∷ ("message", (plain "string" "Human-readable error description" true))
        ∷ (
          "existing_task_id",
          (plain "uuid" "Set when a start request was rejected due to a duplicate task" false),
        )
        ∷ []);
}

-- The first messages of direction s2c.
unfoldable pub event_messages : List (String × ManifestMessage)
event_messages =
    ("started", started_event)
    ∷ ("tasks", tasks_event)
    ∷ ("output", output_event)
    ∷ ("exited", exited_event)
    ∷ ("restarting", restarting_event)
    ∷ ("errored", errored_event)
    ∷ ("error", error_event)
    ∷ []
