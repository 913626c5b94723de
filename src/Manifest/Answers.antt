-- ===== src/Manifest/Answers.antt =====
-- `buildManifestMessages` of manifest.go: the other messages of the server.
use sticky_overseer.Base.{String, true, false, List, [], ◌∷◌}
use sticky_overseer.Manifest.Types.{ManifestMessage, of_field, plain, refers_to, array_of}
use sticky_overseer.Manifest.Fields.{id_echo_field, ts_field, hidden_type_field}

abbrev pub queued_answer : ManifestMessage
queued_answer = record {
  description =
      "Broadcast to all clients when a task is accepted but placed in the queue (pool at capacity)";
  direction = "s2c";
  delivery = "broadcast";
  fields =
      (("type", hidden_type_field)
        ∷ ("id", id_echo_field)
        ∷ ("task_id", (plain "uuid" "" true))
        ∷ ("action", (plain "string" "" true))
        ∷ ("position", (plain "integer" "Queue position (1-based)" true))
        ∷ ("ts", ts_field)
        ∷ []);
}

abbrev pub dequeued_answer : ManifestMessage
dequeued_answer = record {
  description =
      "Broadcast to all clients when a queued task is removed before starting (stopped, displaced, expired, or purged)";
  direction = "s2c";
  delivery = "broadcast";
  fields =
      (("type", hidden_type_field)
        ∷ ("task_id", (plain "uuid" "" true))
        ∷ (
          "reason",
          (plain "string" "Why the task was removed: stopped, displaced, expired, purged" false),
        )
        ∷ ("ts", ts_field)
        ∷ []);
}

abbrev pub actions_answer : ManifestMessage
actions_answer = record {
  description = "Direct response to a describe request containing action definitions";
  direction = "s2c";
  delivery = "direct";
  fields =
      (("type", hidden_type_field)
        ∷ ("id", id_echo_field)
        ∷ ("actions", (array_of (of_field (refers_to "ActionInfo" "" false)) "" true))
        ∷ []);
}

abbrev pub pool_info_response_answer : ManifestMessage
pool_info_response_answer = record {
  description = "Direct response to a pool_info request or set_pool success";
  direction = "s2c";
  delivery = "direct";
  fields =
      (("type", hidden_type_field)
        ∷ ("id", id_echo_field)
        ∷ ("action", (plain "string" "Action name if scoped; omitted for global" false))
        ∷ ("pool", (refers_to "PoolInfo" "" true))
        ∷ []);
}

abbrev pub purged_answer : ManifestMessage
purged_answer = record {
  description = "Direct response to a purge request confirming how many tasks were removed";
  direction = "s2c";
  delivery = "direct";
  fields =
      (("type", hidden_type_field)
        ∷ ("id", id_echo_field)
        ∷ ("action", (plain "string" "Action name if scoped; omitted for all" false))
        ∷ ("count", (plain "integer" "Number of tasks removed from the queue" true))
        ∷ []);
}

abbrev pub pool_updated_answer : ManifestMessage
pool_updated_answer = record {
  description = "Broadcast to all clients when pool limits change via set_pool";
  direction = "s2c";
  delivery = "broadcast";
  fields =
      (("type", hidden_type_field)
        ∷ ("action", (plain "string" "Action name if scoped; omitted for global" false))
        ∷ ("pool", (refers_to "PoolInfo" "" true))
        ∷ []);
}

abbrev pub metrics_response_answer : ManifestMessage
metrics_response_answer = record {
  description =
      "Direct response to a metrics request; exactly one of global, action, or task will be non-null";
  direction = "s2c";
  delivery = "direct";
  fields =
      (("type", hidden_type_field)
        ∷ ("id", id_echo_field)
        ∷ (
          "global",
          (refers_to "GlobalMetrics"
              "Global aggregate metrics (when no action or task_id was specified)" false),
        )
        ∷ ("action", (refers_to "ActionMetrics" "Per-action aggregate metrics" false))
        ∷ ("task", (refers_to "TaskMetrics" "Per-task metrics" false))
        ∷ []);
}

abbrev pub subscribed_answer : ManifestMessage
subscribed_answer = record {
  description = "Direct confirmation that the connection is now subscribed to the task's events";
  direction = "s2c";
  delivery = "direct";
  fields =
      (("type", hidden_type_field)
        ∷ ("id", id_echo_field)
        ∷ ("task_id", (plain "uuid" "" true))
        ∷ []);
}

abbrev pub unsubscribed_answer : ManifestMessage
unsubscribed_answer = record {
  description =
      "Direct confirmation that the connection is no longer subscribed to the task's events";
  direction = "s2c";
  delivery = "direct";
  fields =
      (("type", hidden_type_field)
        ∷ ("id", id_echo_field)
        ∷ ("task_id", (plain "uuid" "" true))
        ∷ []);
}

abbrev pub manifest_response_answer : ManifestMessage
manifest_response_answer = record {
  description = "Direct response to a manifest request containing the full WS Manifest document";
  direction = "s2c";
  delivery = "direct";
  fields =
      (("type", hidden_type_field)
        ∷ ("id", id_echo_field)
        ∷ (
          "manifest",
          (plain "object" "Full WSManifest document (see ws-manifest-spec.md for schema)" true),
        )
        ∷ []);
}

-- The rest of the map.
unfoldable pub answer_messages : List (String × ManifestMessage)
answer_messages =
    ("queued", queued_answer)
    ∷ ("dequeued", dequeued_answer)
    ∷ ("actions", actions_answer)
    ∷ ("pool_info_response", pool_info_response_answer)
    ∷ ("purged", purged_answer)
    ∷ ("pool_updated", pool_updated_answer)
    ∷ ("metrics_response", metrics_response_answer)
    ∷ ("subscribed", subscribed_answer)
    ∷ ("unsubscribed", unsubscribed_answer)
    ∷ ("manifest_response", manifest_response_answer)
    ∷ []
