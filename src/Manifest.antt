-- ===== src/Manifest.antt =====
-- manifest.go: the description of the protocol that the server gives to clients.
pub mod Types
pub mod Fields
pub mod PoolTypes
pub mod TaskTypes
pub mod Requests
pub mod Events
pub mod Answers
pub mod Operations
pub mod Refs
pub mod Responses
use Prim.Native.Nat.{Ordering}
use Prim.Native.String.{compare as compare_text}
use sticky_overseer.Base.{String, Option, none, some, List, [], ◌∷◌, ◌++◌}
use sticky_overseer.Actions.{ActionInfo}
use sticky_overseer.Manifest.Types.{ManifestType, ManifestMessage, WsManifest}
use sticky_overseer.Manifest.PoolTypes.{pool_types}
use sticky_overseer.Manifest.TaskTypes.{task_types}
use sticky_overseer.Manifest.Requests.{request_messages}
use sticky_overseer.Manifest.Events.{event_messages}
use sticky_overseer.Manifest.Answers.{answer_messages}
use sticky_overseer.Manifest.Operations.{build_manifest_operations}

unfoldable pub build_manifest_types : List (String × ManifestType)
build_manifest_types = pool_types ++ task_types

unfoldable pub build_manifest_messages : List (String × ManifestMessage)
build_manifest_messages = request_messages ++ event_messages ++ answer_messages

-- `sort.Slice` by the name. The names differ.
unfoldable pub insert_info : ActionInfo → List ActionInfo → List ActionInfo
insert_info x [] = x ∷ []
insert_info x (y ∷ ys) =
    let later = insert_info x ys in
    elim (compare_text x.name y.name) [ Ordering.gt ↦ y ∷ later | _ ↦ x ∷ y ∷ ys ]

-- The loop over the handlers, each given by what its `Describe` returns.
unfoldable pub collect_from : List (String × ActionInfo) → List ActionInfo
collect_from [] = []
collect_from ((name, info) ∷ actions) =
    insert_info (record info { name = name }) (collect_from actions)

-- `none` for a nil map.
unfoldable pub collect_actions : Option (List (String × ActionInfo)) → List ActionInfo
collect_actions none = []
collect_actions (some actions) = collect_from actions

unfoldable pub build_manifest : Option (List (String × ActionInfo)) → String → WsManifest
build_manifest actions version = record {
  schema = "https://github.com/whisper-darkly/sticky-bb/raw/main/docs/ws-manifest.schema.json";
  protocol = "sticky-overseer";
  version = version;
  description =
      "WebSocket-based process overseer for spawning, tracking, and streaming output from child processes";
  transport = record { path = "/ws"; type_field = "type"; correlation_field = "id" };
  types = build_manifest_types;
  messages = build_manifest_messages;
  operations = build_manifest_operations;
  actions = collect_actions actions;
}
