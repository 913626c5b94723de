-- ===== src/Exec/Checked/Run.antt =====
-- The process that a handler of exec/handler.go starts, and what its parameters and texts are.
use sticky_overseer.Base.{
  ap, ℕ, ◌+◌, ◌≡◌, ◌≢◌, sym, subst, ◌∙◌, String, true, false, Option, none, some, List, [], ◌∷◌,
  ◌⊎◌, inl, inr, arith, Option-cases, Sum-cases,
}
use sticky_overseer.Config.{ParamSpec}
use sticky_overseer.Worker.{Worker, new_worker}
use sticky_overseer.Worker.Start.{OsLibrary, WorkerConfig, start_worker}
use sticky_overseer.Exec.Params.{value_of}
use sticky_overseer.Exec.Handler.{ExecHandlerConfig, ExecLibrary, render_args, start_process}
use sticky_overseer.Exec.Started.{IsRendered}
use sticky_overseer.Exec.Library.{CelLibrary, TemplateLibrary, exec_library, render_template}

-- The value of a parameter: the one that was given, or else the default of its specification.
abbrev pub IsValue : Option String → Option ParamSpec → String → Type 0
IsValue (some given) spec val = val ≡ given
IsValue none none val = ⊥
IsValue none (some spec) val = spec.default ≡ some val

pub value_of-IsValue :
    (given : Option String) (spec : Option ParamSpec) (val : String)
    → value_of given spec ≡ some val
    → IsValue given spec val
value_of-IsValue (some v) spec val e = ground (arith, e)
value_of-IsValue none none val e = cc e
value_of-IsValue none (some spec) val e = e

module _ {Template : Type 0} (templates : TemplateLibrary Template)
    (values : List (String × String)) where
  -- What a template yields on the values.
  abbrev pub IsText : String → String → Type 0
  IsText tmpl text =
      (t : Template) × (templates.parse tmpl ≡ inr t) × (templates.execute t values ≡ inr text)

  -- One text for each template, in their order.
  abbrev pub AreTexts : List String → List String → Type 0
  AreTexts [] [] = Unit
  AreTexts [] (text ∷ texts) = ⊥
  AreTexts (tmpl ∷ tmpls) [] = ⊥
  AreTexts (tmpl ∷ tmpls) (text ∷ texts) = IsText tmpl text × AreTexts tmpls texts

  render_template-IsText :
      (tmpl text : String) → render_template templates tmpl values ≡ inr text → IsText tmpl text
  unfolding render_template
  render_template-IsText tmpl text h = elim (Sum-cases (templates.parse tmpl)) [
    | inl (err, e) ↦ absurd (ground (arith, h, e))
    | inr (t, e) ↦ elim (Sum-cases (templates.execute t values)) [
      | inl (err, f) ↦ absurd (ground (arith, h, e, f))
      | inr (text', f) ↦ (t, e, f ∙ ground (arith, h, e, f))
    ]
  ]

module _ {Ast Prog Json Value : Type 0} (cel : CelLibrary Ast Prog Json Value) where
  -- A parameter without an expression passes. Else the expression compiles to a program, which
  -- evaluates to true on the value.
  abbrev pub Passes : Option ParamSpec → String → Type 0
  Passes none val = Unit
  Passes (some spec) val =
      (spec.validate ≡ "")
      ⊎ ((ast : Ast) × (prog : Prog) × (out : Value) × (cel.compile spec.validate ≡ inr ast)
          × (cel.program ast ≡ inr prog)
          × (cel.eval prog val ≡ inr out)
          × (cel.as_bool out ≡ some true))

  -- What a name stands for in the end: a parameter of the configuration for its value, which has
  -- passed, and any other for what was given.
  abbrev pub IsResolved : Option (Option ParamSpec) → (given resolved : Option String) → Type 0
  IsResolved none given resolved = resolved ≡ given
  IsResolved (some spec) given resolved =
      (val : String) × (resolved ≡ some val) × IsValue given spec val × Passes spec val

module _ {Raw Ast Prog Json Value Template : Type 0} (cel : CelLibrary Ast Prog Json Value)
    (templates : TemplateLibrary Template) (os : OsLibrary)
    (decode_config : Raw → String ⊎ ExecHandlerConfig Prog) (now : ℕ) where
  abbrev pub lib : ExecLibrary Raw Prog
  lib = exec_library cel templates os decode_config now

  render_args-AreTexts :
      (i : ℕ) (tmpls texts : List String) (values : List (String × String))
      → render_args lib i tmpls values ≡ inr texts
      → AreTexts templates values tmpls texts
  unfolding render_args
  render_args-AreTexts i [] [] values h = tt
  render_args-AreTexts i [] (text ∷ texts) values h = cc h
  render_args-AreTexts i (tmpl ∷ tmpls) texts values h =
      elim (Sum-cases (render_template templates tmpl values)) [
        | inl (err, e) ↦ absurd (ground (arith, h, e))
        | inr (text, e) ↦ elim (Sum-cases (render_args lib (i + 1) tmpls values)) [
          | inl (err, f) ↦ absurd (ground (arith, h, e, f))
          | inr (rest, f) ↦
              let made : texts ≡ text ∷ rest = ground (arith, h, e, f) in
              subst (AreTexts templates values (tmpl ∷ tmpls)) (sym made) (
                render_template-IsText templates values tmpl text e,
                render_args-AreTexts (i + 1) tmpls rest values f,
              )
        ]
      ]

  -- The process that was started: its command and its arguments are rendered from the templates.
  pub record HasRun (cfg : ExecHandlerConfig Prog) (task_id : String)
      (resolved : List (String × String)) (w : Worker) : Type 0 where
    pub entrypoint : String
    pub args : List String
    pub pid : ℕ
    pub command : IsText templates resolved cfg.entrypoint entrypoint
    pub named : entrypoint ≢ ""
    pub arguments : AreTexts templates resolved cfg.command args
    pub started :
        os.start (record {
          task_id = task_id;
          command = entrypoint;
          args = args;
          include_stdout = true;
          include_stderr = true;
        })
        ≡ inr pid
    pub worker : w ≡ new_worker false pid task_id now

  start_worker_lem :
      (cfg : WorkerConfig) (w : Worker)
      → start_worker os now cfg ≡ inr w
      → (pid : ℕ) × (os.start cfg ≡ inr pid) × (w ≡ new_worker false pid cfg.task_id now)
  unfolding start_worker
  start_worker_lem cfg w h = elim (Option-cases (os.stdout_pipe cfg)) [
    | inr (err, e) ↦ absurd (ground (arith, h, e))
    | inl e ↦ elim (Option-cases (os.stderr_pipe cfg)) [
      | inr (err, f) ↦ absurd (ground (arith, h, e, f))
      | inl f ↦ elim (Sum-cases (os.start cfg)) [
        | inl (err, g) ↦ absurd (ground (arith, h, e, f, g))
        | inr (pid, g) ↦ (pid, g, ground (arith, h, e, f, g))
      ]
    ]
  ]

  pub IsRendered-HasRun :
      (cfg : ExecHandlerConfig Prog) (task_id : String) (resolved : List (String × String))
      (w : Worker)
      → IsRendered lib cfg task_id resolved w
      → HasRun cfg task_id resolved w
  unfolding start_process
  IsRendered-HasRun cfg task_id resolved w r =
      let config : WorkerConfig = record {
        task_id = task_id;
        command = r.entrypoint;
        args = r.args;
        include_stdout = true;
        include_stderr = true;
      } in
      elim (Sum-cases (start_worker os now config)) [
        | inl (err, e) ↦ absurd (ground (arith, r.process, e))
        | inr (w', e) ↦
            let same : w' ≡ w = ground (arith, r.process, e) in
            let (pid, started, worker) =
              start_worker_lem config w (e ∙ ap (λ (v : Worker). inr v) same) in
            record {
              entrypoint = r.entrypoint;
              args = r.args;
              pid = pid;
              command =
                  render_template-IsText templates resolved cfg.entrypoint r.entrypoint r.command;
              named = r.named;
              arguments = render_args-AreTexts 0 cfg.command r.args resolved r.arguments;
              started = started;
              worker = worker;
            }
      ]
