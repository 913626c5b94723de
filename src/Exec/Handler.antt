-- ===== src/Exec/Handler.antt =====
-- exec/handler.go: how the `exec` driver makes a handler of its configuration, and a handler a
-- worker of a task. JSON, CEL, the templates and the start of a process are a record of operations.
use sticky_overseer.Base.{
  ℕ, ◌+◌, String, Bool, true, false, Option, none, some, List, [], ◌∷◌, ite, text_eq, ◌⊎◌, inl, inr,
}
use sticky_overseer.Messages.{RetryPolicy}
use sticky_overseer.Config.{ParamSpec}
use sticky_overseer.Pool.Types.{PoolConfig}
use sticky_overseer.Actions.{ActionInfo}
use sticky_overseer.Worker.Start.{WorkerConfig}
use sticky_overseer.Worker.{Worker, Stream, stream_stdout, stream_stderr}
use sticky_overseer.Exec.{ParamError, validate_and_apply_defaults}

-- The condition of a stream and its program, which is nil where the condition is empty.
pub record OutputRule (Prog : Type 0) : Type 0 where
  pub condition : String
  pub prog : Option Prog

pub record ExecHandlerConfig (Prog : Type 0) : Type 0 where
  pub entrypoint : String
  pub command : List String
  pub parameters : List (String × Option ParamSpec)
  pub stdout : OutputRule Prog
  pub stderr : OutputRule Prog

pub record ExecHandler (Prog : Type 0) : Type 0 where
  pub name : String
  pub cfg : ExecHandlerConfig Prog
  pub merged_retry : RetryPolicy
  pub pool_cfg : PoolConfig
  pub dedupe_key : List String
  pub cel_programs : List (String × Option Prog)

-- `decode_config` reads the configuration of an action into a struct whose programs are nil.
-- `compile` and `compile_output` are those of actions.go, and so are `eval` and `eval_output`, the
-- latter on the stream and the data of a line. `start_worker` starts a process, whose lines are
-- forwarded where the last argument says so.
pub record ExecLibrary (Raw Prog : Type 0) : Type 0 where
  pub decode_config : Raw → String ⊎ ExecHandlerConfig Prog
  pub compile : String → String ⊎ Option Prog
  pub compile_output : String → String ⊎ Option Prog
  pub eval : Prog → String → String ⊎ Bool
  pub eval_output : Prog → Stream → String → String ⊎ Bool
  pub render_template : String → List (String × String) → String ⊎ String
  pub start_worker : WorkerConfig → (Stream → String → Bool) → String ⊎ Worker

pub data StartError : Type 0 where
  invalid : ParamError → StartError
  entrypoint_failed : String → StartError
  empty_entrypoint : StartError
  command_failed : (index : ℕ) (err : String) → StartError
  process_failed : String → StartError

pub data CreateError : Type 0 where
  bad_config : String → CreateError
  parameter_failed : (name err : String) → CreateError
  stdout_failed stderr_failed : String → CreateError

unfoldable pub describe : {Prog : Type 0} → ExecHandler Prog → ActionInfo
describe h = record {
  name = h.name;
  type_ = "exec";
  description = "";
  params = (h.cfg).parameters;
  task_pool = h.pool_cfg;
  retry = some h.merged_retry;
  dedupe_key = h.dedupe_key;
}

module _ {Raw Prog : Type 0} (lib : ExecLibrary Raw Prog) where
  -- `rule := h.cfg.Output.Stdout`, or the rule of stderr.
  abbrev pub rule_of : ExecHandlerConfig Prog → Stream → OutputRule Prog
  rule_of cfg stream_stdout = cfg.stdout
  rule_of cfg stream_stderr = cfg.stderr

  -- `err != nil || !pass` drops the line.
  abbrev pub passes : String ⊎ Bool → Bool
  passes (inl err) = false
  passes (inr pass) = pass

  -- Does the wrapped `OnOutput` call the original?
  unfoldable pub forwards : ExecHandlerConfig Prog → Stream → String → Bool
  forwards cfg stream line = elim ((rule_of cfg stream).prog) [
    | none ↦ true
    | some prog ↦ passes (lib.eval_output prog stream line)
  ]

  -- The arguments from the index on.
  unfoldable pub render_args : ℕ → List String → List (String × String) → StartError ⊎ List String
  render_args i [] resolved = inr []
  render_args i (arg ∷ args) resolved =
      let rest = render_args (i + 1) args resolved in
      elim (lib.render_template arg resolved) [
        | inl err ↦ inl (command_failed i err)
        | inr rendered ↦ elim rest [ inl err ↦ inl err | inr more ↦ inr (rendered ∷ more) ]
      ]

  -- `Start` once the entrypoint and the arguments are rendered.
  unfoldable pub start_process :
      ExecHandlerConfig Prog → String → String → List String → StartError ⊎ Worker
  start_process cfg task_id entrypoint args =
      let worker_cfg : WorkerConfig = record {
        task_id = task_id;
        command = entrypoint;
        args = args;
        include_stdout = true;
        include_stderr = true;
      } in
      elim (lib.start_worker worker_cfg (forwards cfg)) [
        | inl err ↦ inl (process_failed err)
        | inr w ↦ inr w
      ]

  -- `Start` once the parameters are resolved.
  unfoldable pub start_resolved :
      ExecHandlerConfig Prog → String → List (String × String) → StartError ⊎ Worker
  start_resolved cfg task_id resolved = elim (lib.render_template cfg.entrypoint resolved) [
    | inl err ↦ inl (entrypoint_failed err)
    | inr entrypoint ↦
        ite (text_eq entrypoint "") (inl empty_entrypoint)
          (elim (render_args 0 cfg.command resolved) [
            | inl err ↦ inl err
            | inr args ↦ start_process cfg task_id entrypoint args
          ])
  ]

  unfoldable pub start : ExecHandler Prog → String → List (String × String) → StartError ⊎ Worker
  start h task_id params =
      elim (validate_and_apply_defaults lib.eval h.cel_programs (h.cfg).parameters params) [
        | inl err ↦ inl (invalid err)
        | inr resolved ↦ start_resolved h.cfg task_id resolved
      ]

  -- The validation expression of a parameter, which may be a nil pointer.
  abbrev pub expression_of : Option ParamSpec → String
  expression_of none = ""
  expression_of (some spec) = spec.validate

  -- The loop over the parameters: the programs of those that have an expression.
  unfoldable pub compile_programs :
      List (String × Option ParamSpec) → CreateError ⊎ List (String × Option Prog)
  compile_programs [] = inr []
  compile_programs ((name, spec) ∷ parameters) =
      let rest = compile_programs parameters in
      ite (text_eq (expression_of spec) "") rest (elim (lib.compile (expression_of spec)) [
        | inl err ↦ inl (parameter_failed name err)
        | inr none ↦ rest
        | inr (some prog) ↦ elim rest [
          | inl err ↦ inl err
          | inr programs ↦ inr ((name, some prog) ∷ programs)
        ]
      ])

  -- `if condition != "" { prog, err := ...; rule.prog = prog }`
  unfoldable pub compile_rule : OutputRule Prog → String ⊎ OutputRule Prog
  compile_rule rule =
      ite (text_eq rule.condition "") (inr rule) (elim (lib.compile_output rule.condition) [
        | inl err ↦ inl err
        | inr prog ↦ inr (record rule { prog = prog })
      ])

  -- `Create` from the configuration that was read.
  abbrev pub create_from :
      ExecHandlerConfig Prog
      → String
      → RetryPolicy
      → PoolConfig
      → List String
      → CreateError ⊎ ExecHandler Prog
  create_from cfg action_name merged_retry pool_cfg dedupe_key =
      elim (compile_programs cfg.parameters) [
        | inl err ↦ inl err
        | inr programs ↦ elim (compile_rule cfg.stdout) [
          | inl err ↦ inl (stdout_failed err)
          | inr stdout ↦ elim (compile_rule cfg.stderr) [
            | inl err ↦ inl (stderr_failed err)
            | inr stderr ↦ inr (record {
              name = action_name;
              cfg = record cfg { stdout = stdout; stderr = stderr };
              merged_retry = merged_retry;
              pool_cfg = pool_cfg;
              dedupe_key = dedupe_key;
              cel_programs = programs;
            })
          ]
        ]
      ]

  unfoldable pub create :
      Raw → String → RetryPolicy → PoolConfig → List String → CreateError ⊎ ExecHandler Prog
  create config action_name merged_retry pool_cfg dedupe_key = elim (lib.decode_config config) [
    | inl err ↦ inl (bad_config err)
    | inr cfg ↦ create_from cfg action_name merged_retry pool_cfg dedupe_key
  ]
