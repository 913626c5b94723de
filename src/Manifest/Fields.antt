-- ===== src/Manifest/Fields.antt =====
-- The fields that the messages of `buildManifestMessages` of manifest.go share.
use sticky_overseer.Base.{String, true, false, []}
use sticky_overseer.Manifest.Types.{ManifestField, manifest_field, end, nil, text, plain}

abbrev pub type_field : String → ManifestField
type_field type_name = manifest_field "string" "" "" true (text type_name) "hidden" [] end nil nil

-- `{Type: "string", UIHint: "hidden"}`
abbrev pub hidden_type_field : ManifestField
hidden_type_field = manifest_field "string" "" "" false nil "hidden" [] end nil nil

abbrev pub id_field : ManifestField
id_field = plain "string" "Client correlation ID; echoed in direct response" false

abbrev pub id_echo_field : ManifestField
id_echo_field = plain "string" "Echoes the client's correlation ID" false

abbrev pub task_id_field : ManifestField
task_id_field = plain "uuid" "Task identifier" true

abbrev pub task_id_opt_field : ManifestField
task_id_opt_field = plain "uuid" "Task identifier (server-generated if omitted)" false

abbrev pub ts_field : ManifestField
ts_field = plain "timestamp" "Event timestamp (UTC)" true

abbrev pub action_opt_field : ManifestField
action_opt_field = plain "string" "Action name (omit for all actions)" false
