-- ===== src/Tests/ExecRuns.antt =====
-- Instances of the theorems on exec/handler.go. A program is the only text that it accepts.
use sticky_overseer.Base.{
  ℕ, ◌≡◌, refl, String, Bool, true, false, Option, none, some, List, [], ◌∷◌, lookup, insert, ite,
  text_eq, ◌⊎◌, inr,
}
use sticky_overseer.Config.{ParamSpec}
use sticky_overseer.Exec.{check_value, apply_param, validate_and_apply_defaults}
use sticky_overseer.Exec.Handler
use sticky_overseer.Exec.Handler.{ExecHandler, ExecHandlerConfig, ExecLibrary}
use sticky_overseer.Exec.Library.{CelLibrary, TemplateLibrary, exec_library, render_template}
use sticky_overseer.Exec.Checked.{start-checked}
use sticky_overseer.Exec.Checked.Run.{IsResolved, HasRun}
use sticky_overseer.Actions.{compile_cel_program, eval_cel_bool}
use sticky_overseer.Worker.Start.{OsLibrary, start_worker}
use sticky_overseer.Messages.{zero_retry_policy}
use sticky_overseer.Pool.Types.{zero_pool_config}
use sticky_overseer.Worker.{new_worker}

abbrev accepts : String → String → String ⊎ Bool
accepts prog val = inr (ite (text_eq prog val) true false)

abbrev programs : List (String × Option String)
programs = ("mode", some "fast") ∷ []

abbrev parameters : List (String × Option ParamSpec)
parameters =
    ("mode", some (record { default = some "fast"; validate = "value != ''" }))
    ∷ ("file", none)
    ∷ []

abbrev given : List (String × String)
given = ("file", "a.mkv") ∷ []

abbrev completed : List (String × String)
completed = ("file", "a.mkv") ∷ ("mode", "fast") ∷ []

-- An expression compiles to the program that accepts its text, and a template is its own text.
abbrev matches : String → String → String ⊎ Bool
matches prog val = inr (ite (text_eq prog val) true false)

abbrev cel : CelLibrary String String ℕ Bool
cel = record {
  compile = λ expr. inr expr;
  program = λ ast. inr ast;
  compile_output = λ expr. inr expr;
  program_output = λ ast. inr ast;
  eval = matches;
  eval_output = λ prog line. inr true;
  as_bool = λ b. some b;
  type_name = λ b. "bool";
  parse_json = λ text. none;
  empty_json = 0;
}

abbrev templates : TemplateLibrary String
templates = record { parse = λ text. inr text; execute = λ t values. inr t }

abbrev os : OsLibrary
os = record { stdout_pipe = λ cfg. none; stderr_pipe = λ cfg. none; start = λ cfg. inr 7 }

abbrev given_config : ExecHandlerConfig String → String ⊎ ExecHandlerConfig String
given_config raw = inr raw

abbrev lib : ExecLibrary (ExecHandlerConfig String) String
lib = exec_library cel templates os given_config 20

abbrev mode : ParamSpec
mode = record { default = some "fast"; validate = "fast" }

abbrev cfg : ExecHandlerConfig String
cfg = record {
  entrypoint = "convert";
  command = "-v" ∷ [];
  parameters = ("mode", some mode) ∷ [];
  stdout = record { condition = ""; prog = none };
  stderr = record { condition = ""; prog = none };
}

abbrev convert : ExecHandler String
convert = record {
  name = "convert";
  cfg = cfg;
  merged_retry = zero_retry_policy;
  pool_cfg = zero_pool_config;
  dedupe_key = [];
  cel_programs = ("mode", some "fast") ∷ [];
}

start-checked_example :
    (used : ExecHandlerConfig String) × (resolved : List (String × String)) × (given_config cfg
      ≡ inr used)
    × ((name : String)
        → IsResolved cel (lookup name used.parameters) (lookup name []) (lookup name resolved))
    × HasRun cel templates os given_config 20 used "job" resolved (new_worker false 7 "job" 20)
unfolding Handler.create Handler.compile_programs Handler.compile_rule Handler.start
    Handler.start_resolved Handler.render_args Handler.start_process validate_and_apply_defaults
    apply_param check_value lookup insert text_eq compile_cel_program eval_cel_bool render_template
    start_worker
start-checked_example =
    start-checked cel templates os given_config 20 cfg "convert" zero_retry_policy zero_pool_config
      [] convert "job" [] (new_worker false 7 "job" 20) refl refl
