-- ===== src/Actions.antt =====
-- actions.go: the registry of drivers, the handlers built from the configuration, and the compiled
-- CEL programs, whose library is a parameter.
pub mod Built
use Prim.Native.String.{◌++◌ as append}
use sticky_overseer.Base.{
  String, Bool, true, false, Option, none, some, List, [], ◌∷◌, ite, text_eq, ◌⊎◌, inl, inr, map, ℤ,
  is_zero, if◌then◌else◌, insert,
}
use sticky_overseer.Messages.{RetryPolicy}
use sticky_overseer.Pool.Types.{PoolConfig}
use sticky_overseer.Config.{ParamSpec, ActionConfig, Config}

pub record ActionInfo : Type 0 where
  pub name : String
  pub type_ : String
  pub description : String
  pub params : List (String × Option ParamSpec)
  pub task_pool : PoolConfig
  pub retry : Option RetryPolicy
  pub dedupe_key : List String

-- `override` where it is not 0.
abbrev pub or_global : ℤ → ℤ → ℤ
or_global global override = if is_zero override then global else override

unfoldable pub merge_retry_policy : RetryPolicy → RetryPolicy → RetryPolicy
merge_retry_policy global override = record global {
  restart_delay = or_global global.restart_delay override.restart_delay;
  error_window = or_global global.error_window override.error_window;
  error_threshold = or_global global.error_threshold override.error_threshold;
}

-- A factory, whose `create` is an error or a handler.
pub record ActionHandlerFactory {ℓ} (Raw : Type 0) (Handler : Type ℓ) : Type ℓ where
  pub type_ : String
  pub create : Raw → String → RetryPolicy → PoolConfig → List String → String ⊎ Handler

-- The errors of `BuildActionHandlers`.
pub data BuildError : Type 0 where
  unknown_type : (name type_ : String) (registered : List String) → BuildError
  create_failed : (name err : String) → BuildError

module _ {ℓ} {Raw : Type 0} {Handler : Type ℓ} where
  unfoldable pub register_factory :
      ActionHandlerFactory Raw Handler
      → List (ActionHandlerFactory Raw Handler)
      → List (ActionHandlerFactory Raw Handler)
  register_factory f [] = f ∷ []
  register_factory f (g ∷ registry) = g ∷ register_factory f registry

  unfoldable pub registered_types : List (ActionHandlerFactory Raw Handler) → List String
  registered_types registry = map (λ f. f.type_) registry

  -- The first factory of the type.
  unfoldable pub find_factory :
      String → List (ActionHandlerFactory Raw Handler) → Option (ActionHandlerFactory Raw Handler)
  find_factory type_ [] = none
  find_factory type_ (f ∷ registry) =
      let later = find_factory type_ registry in ite (text_eq f.type_ type_) (some f) later

  -- What `create` makes of an action's configuration.
  abbrev pub create_action :
      RetryPolicy → String → ActionConfig Raw → ActionHandlerFactory Raw Handler → String ⊎ Handler
  create_action retry name ac f =
      f.create ac.config name (merge_retry_policy retry ac.retry) ac.task_pool ac.dedupe_key

  -- A round of the loop: the handler of an action.
  unfoldable pub build_handler :
      List (ActionHandlerFactory Raw Handler)
      → RetryPolicy
      → String
      → ActionConfig Raw
      → BuildError ⊎ Handler
  build_handler registry retry name ac = elim (find_factory ac.type_ registry) [
    | none ↦ inl (unknown_type name ac.type_ (registered_types registry))
    | some f ↦ elim (create_action retry name ac f) [
      | inl err ↦ inl (create_failed name err)
      | inr handler ↦ inr handler
    ]
  ]

  -- The loop over the actions.
  unfoldable pub build_from :
      List (ActionHandlerFactory Raw Handler)
      → RetryPolicy
      → List (String × ActionConfig Raw)
      → List (String × Handler)
      → BuildError ⊎ List (String × Handler)
  build_from registry retry [] result = inr result
  build_from registry retry ((name, ac) ∷ actions) result =
      elim (build_handler registry retry name ac) [
        | inl err ↦ inl err
        | inr handler ↦ build_from registry retry actions (insert name handler result)
      ]

  unfoldable pub build_action_handlers :
      List (ActionHandlerFactory Raw Handler) → Config Raw → BuildError ⊎ List (String × Handler)
  build_action_handlers registry cfg = build_from registry cfg.retry cfg.actions []

-- `env.Compile` and `env.Program` of a CEL environment.
module _ {Ast Prog : Type 0} (compile : String → String ⊎ Ast) (program : Ast → String ⊎ Prog) where
  -- No program, or the error of one of the two phases under the label of the environment.
  abbrev pub compile_labelled : String → String → String ⊎ Option Prog
  compile_labelled label expr = ite (text_eq expr "") (inr none) (elim (compile expr) [
    | inl err ↦ inl (append label (append " compile error: " err))
    | inr ast ↦ elim (program ast) [
      | inl err ↦ inl (append label (append " program error: " err))
      | inr prog ↦ inr (some prog)
    ]
  ])

  unfoldable pub compile_cel_program : String → String ⊎ Option Prog
  compile_cel_program expr = compile_labelled "CEL" expr

  unfoldable pub compile_output_cel_program : String → String ⊎ Option Prog
  compile_output_cel_program expr = compile_labelled "CEL output" expr

-- `prog.Eval` on the variables, the type assertion `out.Value().(bool)`, and what `%T` prints.
module _ {Prog Vars Value : Type 0} (eval : Prog → Vars → String ⊎ Value)
    (as_bool : Value → Option Bool) (type_name : Value → String) where
  -- What a value says, or the error text.
  abbrev pub bool_of : String → Value → String ⊎ Bool
  bool_of label out = elim (as_bool out) [
    | none ↦ inl (
        append label
          (append " expression did not evaluate to bool (got " (append (type_name out) ")")))
    | some b ↦ inr b
  ]

  abbrev pub eval_labelled : String → Prog → Vars → String ⊎ Bool
  eval_labelled label prog vars = elim (eval prog vars) [
    | inl err ↦ inl (append label (append " eval error: " err))
    | inr out ↦ bool_of label out
  ]

  unfoldable pub eval_cel_bool : Option Prog → Vars → String ⊎ Bool
  eval_cel_bool none input = inr true
  eval_cel_bool (some prog) input = eval_labelled "CEL" prog input

-- The variables of an output filter; `json` is the parsed object, if there is one.
pub record OutputContext (Json : Type 0) : Type 0 where
  pub stream : String
  pub data_ : String
  pub json : Option Json

-- `json.Unmarshal` on the data of the line, and the empty map.
module _ {Json : Type 0} (parse_json : String → Option Json) (empty_json : Json) where
  -- The map `output` that the program of a filter sees.
  unfoldable pub output_map : OutputContext Json → String × String × Json
  output_map ctx =
      let json : Json = elim (ctx.json) [
        | some json ↦ json
        | none ↦ elim (parse_json ctx.data_) [ none ↦ empty_json | some json ↦ json ]
      ] in
      (ctx.stream, ctx.data_, json)

-- The filter of an output line, whose program sees that map.
unfoldable pub eval_output_cel_bool :
    {Prog Json Value : Type 0}
    → (String → Option Json)
    → Json
    → (Prog → String × String × Json → String ⊎ Value)
    → (Value → Option Bool)
    → (Value → String)
    → Option Prog
    → OutputContext Json
    → String ⊎ Bool
eval_output_cel_bool parse_json empty_json eval as_bool type_name none ctx = inr true
eval_output_cel_bool parse_json empty_json eval as_bool type_name (some prog) ctx =
    eval_labelled eval as_bool type_name "CEL output" prog (output_map parse_json empty_json ctx)
