-- ===== src/OpenApi.antt =====
-- openapi.go: the Swagger document of the server. `json.MarshalIndent` is a parameter.
pub mod Commands
pub mod Ordered
use Prim.Native.String.{◌++◌ as append}
use sticky_overseer.Base.{
  ℕ, String, Bool, true, false, Option, none, some, List, [], ◌∷◌, ◌++◌, ◌||◌, ite, text_eq, lookup,
  map, if◌then◌else◌, ◌⊎◌, inl, inr, ℤ, is_positive, sort_strings,
}
use sticky_overseer.Messages.{RetryPolicy}
use sticky_overseer.Config.{ParamSpec}
use sticky_overseer.Pool.Types.{PoolConfig}
use sticky_overseer.Actions.{ActionInfo}
use sticky_overseer.Manifest.{collect_actions}
use sticky_overseer.Manifest.Types.{AnyValue, nil, text}
use sticky_overseer.OpenApi.Commands.{
  SwaggerWsCommand, SwaggerWsParam, hidden, build_ws_protocol_commands,
}

pub record SwaggerInfo : Type 0 where
  pub title : String
  pub description : String
  pub version : String

pub record SwaggerWsOperation : Type 0 where
  pub summary : String
  pub description : String
  pub commands : List SwaggerWsCommand

-- A path, whose `post` no path has.
pub record SwaggerPathItem : Type 0 where
  pub ws : Option SwaggerWsOperation

pub record SwaggerSpec : Type 0 where
  pub swagger : String
  pub info : SwaggerInfo
  pub base_path : String
  pub consumes : List String
  pub produces : List String
  pub paths : List (String × SwaggerPathItem)

-- `specs[name]`, a pointer.
abbrev pub spec_of : List (String × Option ParamSpec) → String → Option ParamSpec
spec_of specs name = elim (lookup name specs) [ none ↦ none | some spec ↦ spec ]

-- `spec == nil || spec.Default == nil`
abbrev pub is_required : Option ParamSpec → Bool
is_required none = true
is_required (some spec) = elim (spec.default) [ none ↦ true | some d ↦ false ]

abbrev pub default_value : Option ParamSpec → AnyValue
default_value none = nil
default_value (some spec) = elim (spec.default) [ none ↦ nil | some d ↦ text d ]

abbrev pub validate_of : Option ParamSpec → String
validate_of none = ""
validate_of (some spec) = spec.validate

unfoldable pub param_of : String → Option ParamSpec → SwaggerWsParam
param_of name spec = record {
  name = name;
  description = "";
  type_ = "string";
  required = is_required spec;
  hidden = false;
  default_ = default_value spec;
  validate = validate_of spec;
}

-- The loop over the names: the required parameters and the optional ones.
unfoldable pub split_params :
    List (String × Option ParamSpec) → List String → List SwaggerWsParam × List SwaggerWsParam
split_params specs [] = ([], [])
split_params specs (name ∷ names) =
    let (required, optional) = split_params specs names in
    let spec = spec_of specs name in
    let p = param_of name spec in
    if is_required spec then (p ∷ required, optional) else (required, p ∷ optional)

abbrev pub names_of {ℓ} : {A : Type ℓ} → List (String × A) → List String
names_of [] = []
names_of ((name, a) ∷ entries) = name ∷ names_of entries

unfoldable pub build_ws_params : List (String × Option ParamSpec) → List SwaggerWsParam
build_ws_params specs =
    let (required, optional) = split_params specs (sort_strings (names_of specs)) in
    required ++ optional

abbrev pub is_some {ℓ} : {A : Type ℓ} → Option A → Bool
is_some none = false
is_some (some a) = true

unfoldable pub build_ws_action_command : ActionInfo → SwaggerWsCommand
build_ws_action_command info = record {
  summary =
      ite (text_eq info.description "") (append "Start " (append info.name " task"))
        info.description;
  description = "";
  operation_id = append "start-" info.name;
  tags = info.name ∷ [];
  params_key = "params";
  parameters =
      hidden "type" (text "start") ∷ hidden "action" (text info.name) ∷ build_ws_params info.params;
  x_action_type = info.type_;
  x_task_pool =
      if is_positive (info.task_pool).limit || is_some (info.task_pool).queue
      then some info.task_pool
      else none;
  x_retry = info.retry;
  x_dedupe_key = info.dedupe_key;
}

-- The document before it is marshalled.
unfoldable pub openapi_spec :
    Option (List (String × ActionInfo)) → (version name : String) → SwaggerSpec
openapi_spec actions version name = record {
  swagger = "2.0";
  info = record {
    title = ite (text_eq name "") "sticky-overseer" name;
    description = "WebSocket-based process overseer — use /ws for the full WebSocket API.";
    version = version;
  };
  base_path = "";
  consumes = [];
  produces = "application/json" ∷ [];
  paths =
      (
        "/ws",
        record {
          ws = some (record {
            summary = "WebSocket";
            description = "";
            commands =
                build_ws_protocol_commands ++ map build_ws_action_command (collect_actions actions);
          });
        },
      )
      ∷ [];
}

-- The text of the document, or a constant text where it does not marshal.
unfoldable pub build_openapi_spec :
    (SwaggerSpec → String ⊎ String)
    → Option (List (String × ActionInfo))
    → (version name : String) → String
build_openapi_spec marshal_indent actions version name =
    elim (marshal_indent (openapi_spec actions version name)) [
      | inl err ↦
          "{\"swagger\":\"2.0\",\"info\":{\"title\":\"sticky-overseer\",\"version\":\"unknown\"},\"paths\":{}}"
      | inr data_ ↦ data_
    ]
