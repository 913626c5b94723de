-- ===== src/Exec/Checked.antt =====
-- The exec driver of exec/handler.go from the configuration of an action to the process of a task.
pub mod Run
use sticky_overseer.Base.{
  ap, ℕ, ◌+◌, ◌≡◌, ◌≢◌, sym, subst, ◌∙◌, String, true, false, Option, none, some, List, [], ◌∷◌,
  ◌⊎◌, inl, inr, arith, lookup, text_eq, Option-cases, Sum-cases,
}
use sticky_overseer.Messages.{RetryPolicy}
use sticky_overseer.Config.{ParamSpec}
use sticky_overseer.Pool.Types.{PoolConfig}
use sticky_overseer.Worker.{Worker, new_worker}
use sticky_overseer.Worker.Start.{OsLibrary, WorkerConfig, start_worker}
use sticky_overseer.Exec.{validate_and_apply_defaults, check_value}
use sticky_overseer.Exec.Params.{
  value_of, validate_and_apply_defaults-value_of, validate_and_apply_defaults-others,
}
use sticky_overseer.Exec.Handler.{
  ExecHandler, ExecHandlerConfig, ExecLibrary, create, start, render_args, start_process,
}
use sticky_overseer.Exec.Started.{
  IsRendered, passed, start-IsRendered, create-compiles, create-program, create-IsRead,
}
use sticky_overseer.Exec.Library.{
  CelLibrary, TemplateLibrary, exec_library, render_template, compile_lem, eval_lem,
}
use sticky_overseer.Exec.Checked.Run.{
  IsValue, value_of-IsValue, IsText, AreTexts, Passes, IsResolved, HasRun, IsRendered-HasRun,
}

module _ {Raw Ast Prog Json Value Template : Type 0} (cel : CelLibrary Ast Prog Json Value)
    (templates : TemplateLibrary Template) (os : OsLibrary)
    (decode_config : Raw → String ⊎ ExecHandlerConfig Prog) (now : ℕ) where
  abbrev lib : ExecLibrary Raw Prog
  lib = exec_library cel templates os decode_config now

  checked-Passes :
      (config : Raw) (action : String) (retry : RetryPolicy) (pool : PoolConfig) (key : List String)
      (h : ExecHandler Prog) (name val : String) (spec : Option ParamSpec)
      → create lib config action retry pool key ≡ inr h
      → lookup name (h.cfg).parameters ≡ some spec
      → check_value lib.eval h.cel_programs name val ≡ none
      → Passes cel spec val
  checked-Passes config action retry pool key h name val none made e c = tt
  checked-Passes config action retry pool key h name val (some spec) made e c =
      elim (text_eq spec.validate "") [
        | yes p ↦ inl p
        | no n ↦
            let (o, compiles) =
              create-compiles lib config action retry pool key h name spec made e n in
            let (ast, prog, compiled, programmed, is) =
              compile_lem cel templates os decode_config now spec.validate o n compiles in
            let program =
              create-program lib config action retry pool key h name spec prog made e n
                (compiles ∙ ap (λ (t : Option Prog). inr t) is) in
            let (out, evaluated, true_) =
              eval_lem cel templates os decode_config now prog val
                (passed lib h.cel_programs name val prog program c) in
            inr (ast, prog, out, compiled, programmed, evaluated, true_)
      ]

  resolved_lem :
      (config : Raw) (action : String) (retry : RetryPolicy) (pool : PoolConfig) (key : List String)
      (h : ExecHandler Prog) (params resolved : List (String × String)) (name : String)
      → create lib config action retry pool key ≡ inr h
      → validate_and_apply_defaults lib.eval h.cel_programs (h.cfg).parameters params ≡ inr resolved
      → IsResolved cel (lookup name (h.cfg).parameters) (lookup name params) (lookup name resolved)
  resolved_lem config action retry pool key h params resolved name made v =
      elim (Option-cases (lookup name (h.cfg).parameters)) [
        | inl e ↦ rw e (
            validate_and_apply_defaults-others lib.eval h.cel_programs (h.cfg).parameters name
              params resolved v e)
        | inr (spec, e) ↦
            let (val, found, source, passes) =
              validate_and_apply_defaults-value_of lib.eval h.cel_programs (h.cfg).parameters name
                spec params resolved v e in
            rw e (
              val,
              found,
              value_of-IsValue (lookup name params) spec val source,
              checked-Passes config action retry pool key h name val spec made e passes,
            )
      ]

  HasRun-same :
      (cfg cfg' : ExecHandlerConfig Prog) (task_id : String) (resolved : List (String × String))
      (w : Worker)
      → cfg.entrypoint ≡ cfg'.entrypoint
      → cfg.command ≡ cfg'.command
      → HasRun cel templates os decode_config now cfg task_id resolved w
      → HasRun cel templates os decode_config now cfg' task_id resolved w
  HasRun-same cfg cfg' task_id resolved w e c r = record {
    entrypoint = r.entrypoint;
    args = r.args;
    pid = r.pid;
    command = subst (λ t. IsText templates resolved t r.entrypoint) e r.command;
    named = r.named;
    arguments = subst (λ t. AreTexts templates resolved t r.args) c r.arguments;
    started = r.started;
    worker = r.worker;
  }

  -- Where the handler that `Create` made of a configuration has started a worker: each parameter of
  -- the configuration has a value, the given one or else its default, and where it has an expression,
  -- that compiles to a program whose value on it is true. Other parameters are passed on as given. The
  -- worker is the process started with the entrypoint, which is not empty, and the arguments, which
  -- are the configuration's templates, each rendered with these values.
  pub start-checked :
      (config : Raw) (action : String) (retry : RetryPolicy) (pool : PoolConfig) (key : List String)
      (h : ExecHandler Prog) (task_id : String) (params : List (String × String)) (w : Worker)
      → create lib config action retry pool key ≡ inr h
      → start lib h task_id params ≡ inr w
      → (cfg : ExecHandlerConfig Prog) × (resolved : List (String × String)) × (decode_config config
          ≡ inr cfg)
        × ((name : String)
            → IsResolved cel
                (lookup name cfg.parameters)
                (lookup name params)
                (lookup name resolved))
        × HasRun cel templates os decode_config now cfg task_id resolved w
  start-checked config action retry pool key h task_id params w made k =
      let read = create-IsRead lib config action retry pool key h made in
      let (resolved, v, rendered) = start-IsRendered lib h task_id params w k in
      (
        read.cfg,
        resolved,
        read.decoded,
        λ name.
            subst
              (λ ps. IsResolved cel (lookup name ps) (lookup name params) (lookup name resolved))
              read.parameters
              (resolved_lem config action retry pool key h params resolved name made v),
        HasRun-same h.cfg read.cfg task_id resolved w read.entrypoint read.command (
            IsRendered-HasRun cel templates os decode_config now h.cfg task_id resolved w rendered),
      )
