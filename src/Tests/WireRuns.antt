-- ===== src/Tests/WireRuns.antt =====
-- Instances of the theorems on the documents, the encodings and the registry of drivers.
use sticky_overseer.Base.{
  ℕ, ◌≡◌, refl, String, true, false, Option, none, some, List, [], ◌∷◌, ◌++◌, lookup, text_eq,
  contains, count_of, ite, pos, negsuc, ℤ, ◌==◌, if◌then◌else◌, of_no, ◌⊎◌, inr, insert,
}
use sticky_overseer.Messages.{
  RetryPolicy, RawRetryPolicy, zero_retry_policy, marshal_json, unmarshal_json,
}
use sticky_overseer.Messages.RoundTrip.{IsReadable, unmarshal_json-marshal_json}
use sticky_overseer.Config.{Config, ParamSpec, empty_config}
use sticky_overseer.Pool.Types.{zero_pool_config}
use sticky_overseer.Actions.{
  ActionHandlerFactory, build_action_handlers, find_factory, build_from, build_handler,
}
use sticky_overseer.Actions.Built.{IsBuilt, build_action_handlers-IsBuilt}
use sticky_overseer.Manifest.{build_manifest, build_manifest_types, build_manifest_messages}
use sticky_overseer.Manifest.PoolTypes
use sticky_overseer.Manifest.TaskTypes
use sticky_overseer.Manifest.Requests
use sticky_overseer.Manifest.Events
use sticky_overseer.Manifest.Answers
use sticky_overseer.Manifest.Refs
use sticky_overseer.Manifest.Operations.{build_manifest_operations, get_metrics_operation}
use sticky_overseer.Manifest.Refs.{refs_in, type_refs, build_manifest-type_refs}
use sticky_overseer.Manifest.Responses.{
  has_message, is_sent_by_server, build_manifest_operations-is_sent_by_server,
}
use sticky_overseer.OpenApi.{build_ws_params, names_of}
use sticky_overseer.OpenApi.Commands.{SwaggerWsParam}
use sticky_overseer.OpenApi.Ordered.{AllMade, param_names, build_ws_params-AllMade}

-- The texts of the durations of a policy, read back by a table.
abbrev second : ℤ
second = pos 1000000000

abbrev duration_text : ℤ → String
duration_text (pos n) = if n == 1000000000 then "1s" else "0s"
duration_text (negsuc n) = "?"

abbrev parse_duration : String → String ⊎ ℤ
parse_duration s = ite (text_eq s "1s") (inr second) (inr (pos 0))

abbrev same_doc : RawRetryPolicy → RawRetryPolicy
same_doc v = v

abbrev read_doc : RawRetryPolicy → String ⊎ RawRetryPolicy
read_doc v = inr v

abbrev policy : RetryPolicy
policy = record zero_retry_policy { restart_delay = second; error_threshold = pos 3 }

abbrev no_text : String
no_text = ""

second-IsReadable : IsReadable duration_text parse_duration second
unfolding text_eq
second-IsReadable = (of_no (text_eq "1s" no_text) refl, refl)

zero-IsReadable : IsReadable duration_text parse_duration (pos 0)
unfolding text_eq
zero-IsReadable = (of_no (text_eq "0s" no_text) refl, refl)

unmarshal_json-marshal_json_example :
    unmarshal_json parse_duration read_doc
      (marshal_json duration_text same_doc policy)
      zero_retry_policy
    ≡ (policy, none)
unmarshal_json-marshal_json_example =
    unmarshal_json-marshal_json duration_text parse_duration same_doc read_doc policy (λ v. refl)
      second-IsReadable zero-IsReadable zero-IsReadable

build_manifest-type_refs_example :
    contains "#/types/TaskInfo" (type_refs (build_manifest none "1").types) ≡ true
unfolding build_manifest build_manifest_types build_manifest_messages PoolTypes.pool_types
    TaskTypes.task_types Requests.request_messages Events.event_messages Answers.answer_messages
    Refs.refs_of text_eq
build_manifest-type_refs_example = build_manifest-type_refs none "1" "#/types/TaskInfo" refl

build_manifest_operations-is_sent_by_server_example :
    (has_message "c2s" "metrics" build_manifest_messages ≡ true)
    × (is_sent_by_server "metrics" ≡ true)
unfolding build_manifest_operations lookup text_eq
build_manifest_operations-is_sent_by_server_example =
    build_manifest_operations-is_sent_by_server "get_metrics" get_metrics_operation "metrics" refl
      refl

-- A registry of one driver, whose handlers are the names of their actions.
abbrev registry : List (ActionHandlerFactory ℕ String)
registry = record { type_ = "exec"; create = λ raw name retry pool key. inr name } ∷ []

abbrev config : Config ℕ
config = record empty_config {
  actions =
      (
        "build",
        record {
          meta = record { description = "" };
          type_ = "exec";
          retry = policy;
          task_pool = zero_pool_config;
          config = 0;
          dedupe_key = [];
        },
      )
      ∷ [];
}

build_action_handlers-IsBuilt_example :
    IsBuilt registry config.retry "build" (lookup "build" config.actions) (some "build")
unfolding build_action_handlers build_from build_handler find_factory lookup insert text_eq
build_action_handlers-IsBuilt_example =
    build_action_handlers-IsBuilt registry config (("build", "build") ∷ []) (refl, tt) refl "build"

abbrev specs : List (String × Option ParamSpec)
specs = ("mode", some (record { default = some "fast"; validate = "" })) ∷ ("file", none) ∷ []

build_ws_params-AllMade_example :
    (required : List SwaggerWsParam) × (optional : List SwaggerWsParam) × (build_ws_params specs
      ≡ required ++ optional)
    × AllMade specs true required
    × AllMade specs false optional
    × ((id : String)
        → count_of id (param_names (build_ws_params specs)) ≡ count_of id (names_of specs))
build_ws_params-AllMade_example = build_ws_params-AllMade specs
