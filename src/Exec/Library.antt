-- ===== src/Exec/Library.antt =====
-- The exec driver of exec/handler.go over the CEL helpers of actions.go and the workers of worker.go.
use Prim.Native.String.{◌++◌ as append}
use sticky_overseer.Base.{
  ℕ, ◌≡◌, ◌≢◌, String, Bool, true, Option, none, some, List, ◌⊎◌, inl, inr, arith, Option-cases,
  Sum-cases,
}
use sticky_overseer.Actions.{
  compile_cel_program, compile_output_cel_program, eval_cel_bool, eval_output_cel_bool,
}
use sticky_overseer.Worker.{Stream, stream_stdout, stream_stderr}
use sticky_overseer.Worker.Start.{OsLibrary, start_worker}
use sticky_overseer.Exec.Handler.{ExecHandlerConfig, ExecLibrary}

-- The two CEL environments with `Eval`, `out.Value().(bool)` and `%T`, and the codec of JSON.
pub record CelLibrary (Ast Prog Json Value : Type 0) : Type 0 where
  pub compile : String → String ⊎ Ast
  pub program : Ast → String ⊎ Prog
  pub compile_output : String → String ⊎ Ast
  pub program_output : Ast → String ⊎ Prog
  pub eval : Prog → String → String ⊎ Value
  pub eval_output : Prog → String × String × Json → String ⊎ Value
  pub as_bool : Value → Option Bool
  pub type_name : Value → String
  pub parse_json : String → Option Json
  pub empty_json : Json

-- `Parse` and `Execute` of the `template` package.
pub record TemplateLibrary (Template : Type 0) : Type 0 where
  pub parse : String → String ⊎ Template
  pub execute : Template → List (String × String) → String ⊎ String

abbrev pub stream_text : Stream → String
stream_text stream_stdout = "stdout"
stream_text stream_stderr = "stderr"

module _ {Template : Type 0} (templates : TemplateLibrary Template) where
  abbrev executed : List (String × String) → Template → String ⊎ String
  executed values t = elim (templates.execute t values) [
    | inl err ↦ inl (append "template execute error: " err)
    | inr text ↦ inr text
  ]

  unfoldable pub render_template : String → List (String × String) → String ⊎ String
  render_template tmpl values = elim (templates.parse tmpl) [
    | inl err ↦ inl (append "template parse error: " err)
    | inr t ↦ executed values t
  ]

module _ {Raw Ast Prog Json Value Template : Type 0} (cel : CelLibrary Ast Prog Json Value)
    (templates : TemplateLibrary Template) (os : OsLibrary)
    (decode_config : Raw → String ⊎ ExecHandlerConfig Prog) (now : ℕ) where
  -- What the driver calls. The callbacks of a worker are with the hub.
  abbrev pub exec_library : ExecLibrary Raw Prog
  exec_library = record {
    decode_config = decode_config;
    compile = compile_cel_program cel.compile cel.program;
    compile_output = compile_output_cel_program cel.compile_output cel.program_output;
    eval = λ prog val. eval_cel_bool cel.eval cel.as_bool cel.type_name (some prog) val;
    eval_output = λ prog stream line.
        eval_output_cel_bool cel.parse_json cel.empty_json cel.eval_output cel.as_bool cel.type_name
          (some prog) (record { stream = stream_text stream; data_ = line; json = none });
    render_template = render_template templates;
    start_worker = λ cfg forwarded. start_worker os now cfg;
  }

  pub compile_lem :
      (expr : String) (o : Option Prog)
      → expr ≢ ""
      → exec_library.compile expr ≡ inr o
      → (ast : Ast) × (prog : Prog) × (cel.compile expr ≡ inr ast)
        × (cel.program ast ≡ inr prog)
        × (o ≡ some prog)
  unfolding compile_cel_program
  compile_lem expr o n h = elim (Sum-cases (cel.compile expr)) [
    | inl (err, e) ↦ absurd (ground (arith, h, n, e))
    | inr (ast, e) ↦ elim (Sum-cases (cel.program ast)) [
      | inl (err, f) ↦ absurd (ground (arith, h, n, e, f))
      | inr (prog, f) ↦ (ast, prog, e, f, ground (arith, h, n, e, f))
    ]
  ]

  pub eval_lem :
      (prog : Prog) (val : String)
      → exec_library.eval prog val ≡ inr true
      → (out : Value) × (cel.eval prog val ≡ inr out) × (cel.as_bool out ≡ some true)
  unfolding eval_cel_bool
  eval_lem prog val h = elim (Sum-cases (cel.eval prog val)) [
    | inl (err, e) ↦ absurd (ground (arith, h, e))
    | inr (out, e) ↦ elim (Option-cases (cel.as_bool out)) [
      | inl f ↦ absurd (ground (arith, h, e, f))
      | inr (b, f) ↦ (out, e, ground (arith, h, e, f))
    ]
  ]
