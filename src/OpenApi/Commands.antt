-- ===== src/OpenApi/Commands.antt =====
-- The commands of openapi.go that do not depend on the configured actions.
use sticky_overseer.Base.{String, Bool, true, false, Option, none, List, [], ◌∷◌}
use sticky_overseer.Messages.{RetryPolicy}
use sticky_overseer.Pool.Types.{PoolConfig}
use sticky_overseer.Manifest.Types.{AnyValue, nil, text}

pub record SwaggerWsParam : Type 0 where
  pub name : String
  pub description : String
  pub type_ : String
  pub required : Bool
  pub hidden : Bool
  pub default_ : AnyValue
  pub validate : String

pub record SwaggerWsCommand : Type 0 where
  pub summary : String
  pub description : String
  pub operation_id : String
  pub tags : List String
  pub params_key : String
  pub parameters : List SwaggerWsParam
  pub x_action_type : String
  pub x_task_pool : Option PoolConfig
  pub x_retry : Option RetryPolicy
  pub x_dedupe_key : List String

abbrev pub hidden : String → AnyValue → SwaggerWsParam
hidden name val = record {
  name = name;
  description = "";
  type_ = "";
  required = false;
  hidden = true;
  default_ = val;
  validate = "";
}

abbrev pub ws_param : (name description typ : String) → Bool → SwaggerWsParam
ws_param name description typ required = record {
  name = name;
  description = description;
  type_ = typ;
  required = required;
  hidden = false;
  default_ = nil;
  validate = "";
}

abbrev id : SwaggerWsParam
id = ws_param "id" "Correlation ID (echoed in response)" "string" false

abbrev action_opt : SwaggerWsParam
action_opt = ws_param "action" "Action name (omit for all actions)" "string" false

abbrev task_id : SwaggerWsParam
task_id = ws_param "task_id" "Task identifier" "uuid" true

-- A literal of the list of commands, by the members that it sets.
abbrev pub protocol_command :
    (operation_id summary description : String) → List SwaggerWsParam → SwaggerWsCommand
protocol_command operation_id summary description parameters = record {
  summary = summary;
  description = description;
  operation_id = operation_id;
  tags = [];
  params_key = "";
  parameters = parameters;
  x_action_type = "";
  x_task_pool = none;
  x_retry = none;
  x_dedupe_key = [];
}

unfoldable pub build_ws_protocol_commands : List SwaggerWsCommand
build_ws_protocol_commands =
    protocol_command "ws-list" "List tasks"
      "List all known tasks, optionally filtered by activity time"
      (hidden "type" (text "list")
        ∷ id
        ∷ ws_param "since" "Only return tasks active after this time (RFC3339)" "timestamp" false
        ∷ [])
    ∷ protocol_command "ws-stop" "Stop task" "Stop a running or queued task"
        (hidden "type" (text "stop") ∷ id ∷ task_id ∷ [])
    ∷ protocol_command "ws-reset" "Reset task" "Restart an errored task, clearing its exit history"
        (hidden "type" (text "reset") ∷ id ∷ task_id ∷ [])
    ∷ protocol_command "ws-replay" "Replay task output" "Replay buffered output events for a task" (
        hidden "type" (text "replay")
        ∷ id
        ∷ task_id
        ∷ ws_param "since" "Replay only output after this time (RFC3339)" "timestamp" false
        ∷ [])
    ∷ protocol_command "ws-describe" "Describe actions"
        "Describe available actions and their parameter schemas"
        (hidden "type" (text "describe") ∷ id ∷ action_opt ∷ [])
    ∷ protocol_command "ws-pool-info" "Pool info"
        "Query current pool state for an action or globally"
        (hidden "type" (text "pool_info") ∷ id ∷ action_opt ∷ [])
    ∷ protocol_command "ws-purge" "Purge queue"
        "Remove all queued tasks for an action (or all actions)"
        (hidden "type" (text "purge") ∷ id ∷ action_opt ∷ [])
    ∷ protocol_command "ws-set-pool" "Set pool limits"
        "Dynamically update pool limits and queue configuration"
        (hidden "type" (text "set_pool")
          ∷ id
          ∷ ws_param "action" "Action name (omit for global)" "string" false
          ∷ ws_param "limit" "New concurrency limit (0=unlimited)" "integer" false
          ∷ ws_param "queue_size" "New queue size limit" "integer" false
          ∷ ws_param "excess" "How to handle tasks exceeding the new limit" "object" false
          ∷ [])
    ∷ protocol_command "ws-subscribe" "Subscribe to task"
        "Subscribe to task-specific broadcast events"
        (hidden "type" (text "subscribe") ∷ id ∷ task_id ∷ [])
    ∷ protocol_command "ws-unsubscribe" "Unsubscribe from task"
        "Unsubscribe from task-specific broadcast events"
        (hidden "type" (text "unsubscribe") ∷ id ∷ task_id ∷ [])
    ∷ protocol_command "ws-metrics" "Get metrics"
        "Query metrics at global, per-action, or per-task granularity"
        (hidden "type" (text "metrics")
          ∷ id
          ∷ ws_param "action" "Action name for per-action metrics (mutually exclusive with task_id)"
              "string" false
          ∷ ws_param "task_id" "Task ID for per-task metrics (mutually exclusive with action)"
              "uuid" false
          ∷ [])
    ∷ protocol_command "ws-manifest" "Get manifest"
        "Request the full WS Manifest document describing this protocol"
        (hidden "type" (text "manifest") ∷ id ∷ [])
    ∷ []
