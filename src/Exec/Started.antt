-- ===== src/Exec/Started.antt =====
-- What is known of a task that a handler of exec/handler.go has started.
use sticky_overseer.Base.{
  ◌≡◌, ◌≢◌, refl, sym, subst, ap, ◌∙◌, String, true, false, Option, none, some, List, [], ◌∷◌, inl,
  inr, arith, lookup, text_eq, if_neg, Sum-cases,
}
use sticky_overseer.Messages.{RetryPolicy}
use sticky_overseer.Config.{ParamSpec}
use sticky_overseer.Pool.Types.{PoolConfig}
use sticky_overseer.Worker.{Worker}
use sticky_overseer.Exec.{check_value, validate_and_apply_defaults}
use sticky_overseer.Exec.Handler.{
  ExecHandler, ExecHandlerConfig, ExecLibrary, expression_of, compile_programs, compile_rule,
  create, start, start_resolved, start_process, render_args,
}

module _ {Raw Prog : Type 0} (lib : ExecLibrary Raw Prog) where
  -- What the loop of `Create` leaves for one more parameter.
  record Compiled (name : String) (spec : Option ParamSpec)
      (parameters : List (String × Option ParamSpec)) (programs : List (String × Option Prog))
      : Type 0 where
    rest : List (String × Option Prog)
    later : compile_programs lib parameters ≡ inr rest
    others : (j : String) → name ≢ j → lookup j programs ≡ lookup j rest
    compiles :
        expression_of lib spec ≢ ""
        → (o : Option Prog) × (lib.compile (expression_of lib spec) ≡ inr o)
    own :
        (prog : Prog)
        → expression_of lib spec ≢ ""
        → lib.compile (expression_of lib spec) ≡ inr (some prog)
        → lookup name programs ≡ some (some prog)

  compile_programs-Compiled :
      (name : String) (spec : Option ParamSpec) (parameters : List (String × Option ParamSpec))
      (programs : List (String × Option Prog))
      → compile_programs lib ((name, spec) ∷ parameters) ≡ inr programs
      → Compiled name spec parameters programs
  unfolding compile_programs lookup
  compile_programs-Compiled name spec parameters programs h =
      elim (text_eq (expression_of lib spec) "") [
        | yes p ↦ record {
          rest = programs;
          later = ground (arith, h, p);
          others = λ j n. refl;
          compiles = λ n. absurd (n p);
          own = λ prog n c. absurd (n p);
        }
        | no n ↦ elim (Sum-cases (lib.compile (expression_of lib spec))) [
          | inl (err, e) ↦ absurd (ground (arith, h, e, n))
          | inr (none, e) ↦ record {
            rest = programs;
            later = ground (arith, h, e, n);
            others = λ j m. refl;
            compiles = λ m. (none, e);
            own = λ prog m c. cc (sym e ∙ c);
          }
          | inr (some prog, e) ↦ elim (Sum-cases (compile_programs lib parameters)) [
            | inl (err, f) ↦ absurd (ground (arith, h, e, n, f))
            | inr (rest, f) ↦
                let made : programs ≡ (name, some prog) ∷ rest = ground (arith, h, e, n, f) in
                record {
                  rest = rest;
                  later = f;
                  others = λ j m. ap (λ t. lookup j t) made ∙ if_neg (text_eq name j) m _ _;
                  compiles = λ m. (some prog, e);
                  own = λ prog' m c. ground (arith, made, e, c);
                }
          ]
        ]
      ]

  -- `Create` keeps a program for each parameter with an expression.
  compile_programs-program :
      (parameters : List (String × Option ParamSpec)) (programs : List (String × Option Prog))
      (name : String) (spec : ParamSpec) (prog : Prog)
      → compile_programs lib parameters ≡ inr programs
      → lookup name parameters ≡ some (some spec)
      → spec.validate ≢ ""
      → lib.compile spec.validate ≡ inr (some prog)
      → lookup name programs ≡ some (some prog)
  unfolding lookup
  compile_programs-program [] programs name spec prog h e n c = cc e
  compile_programs-program ((k, spec') ∷ parameters) programs name spec prog h e n c =
      let made = compile_programs-Compiled k spec' parameters programs h in
      elim (text_eq k name) [
        | yes p ↦
            let same : spec' ≡ some spec = ground (arith, e, p) in
            subst (λ j. lookup j programs ≡ some (some prog)) p
              (made.own prog (λ q. n (sym (ap (expression_of lib) same) ∙ q))
                (ap (λ s. lib.compile (expression_of lib s)) same ∙ c))
        | no m ↦
            made.others name m
            ∙ compile_programs-program parameters made.rest name spec prog made.later
                (ground (arith, e, m)) n c
      ]

  -- The handler that `Create` makes keeps the parameters, and their programs.
  create-programs :
      (config : Raw) (name : String) (retry : RetryPolicy) (pool : PoolConfig) (key : List String)
      (h : ExecHandler Prog)
      → create lib config name retry pool key ≡ inr h
      → compile_programs lib (h.cfg).parameters ≡ inr h.cel_programs
  unfolding create
  create-programs config name retry pool key h k = elim (Sum-cases (lib.decode_config config)) [
    | inl (err, e) ↦ absurd (ground (arith, k, e))
    | inr (cfg, e) ↦ elim (Sum-cases (compile_programs lib cfg.parameters)) [
      | inl (err, f) ↦ absurd (ground (arith, k, e, f))
      | inr (programs, f) ↦ elim (Sum-cases (compile_rule lib cfg.stdout)) [
        | inl (err, g) ↦ absurd (ground (arith, k, e, f, g))
        | inr (stdout, g) ↦ elim (Sum-cases (compile_rule lib cfg.stderr)) [
          | inl (err, i) ↦ absurd (ground (arith, k, e, f, g, i))
          | inr (stderr, i) ↦ ground (arith, k, e, f, g, i)
        ]
      ]
    ]
  ]

  compile_programs-compiles :
      (parameters : List (String × Option ParamSpec)) (programs : List (String × Option Prog))
      (name : String) (spec : ParamSpec)
      → compile_programs lib parameters ≡ inr programs
      → lookup name parameters ≡ some (some spec)
      → spec.validate ≢ ""
      → (o : Option Prog) × (lib.compile spec.validate ≡ inr o)
  unfolding lookup
  compile_programs-compiles [] programs name spec h e n = cc e
  compile_programs-compiles ((k, spec') ∷ parameters) programs name spec h e n =
      let made = compile_programs-Compiled k spec' parameters programs h in
      elim (text_eq k name) [
        | yes p ↦
            let same : spec' ≡ some spec = ground (arith, e, p) in
            let (o, c) = made.compiles (λ q. n (sym (ap (expression_of lib) same) ∙ q)) in
            (o, sym (ap (λ s. lib.compile (expression_of lib s)) same) ∙ c)
        | no m ↦
            compile_programs-compiles parameters made.rest name spec made.later
              (ground (arith, e, m)) n
      ]

  -- Where `Create` made a handler, the expressions of its parameters compile.
  pub create-compiles :
      (config : Raw) (action : String) (retry : RetryPolicy) (pool : PoolConfig) (key : List String)
      (h : ExecHandler Prog) (name : String) (spec : ParamSpec)
      → create lib config action retry pool key ≡ inr h
      → lookup name (h.cfg).parameters ≡ some (some spec)
      → spec.validate ≢ ""
      → (o : Option Prog) × (lib.compile spec.validate ≡ inr o)
  create-compiles config action retry pool key h name spec made e n =
      compile_programs-compiles (h.cfg).parameters h.cel_programs name spec
        (create-programs config action retry pool key h made) e n

  -- What `Start` has rendered when it starts a process.
  pub record IsRendered (cfg : ExecHandlerConfig Prog) (task_id : String)
      (resolved : List (String × String)) (w : Worker) : Type 0 where
    pub entrypoint : String
    pub args : List String
    pub command : lib.render_template cfg.entrypoint resolved ≡ inr entrypoint
    pub named : entrypoint ≢ ""
    pub arguments : render_args lib 0 cfg.command resolved ≡ inr args
    pub process : start_process lib cfg task_id entrypoint args ≡ inr w

  start_resolved-IsRendered :
      (cfg : ExecHandlerConfig Prog) (task_id : String) (resolved : List (String × String))
      (w : Worker)
      → start_resolved lib cfg task_id resolved ≡ inr w
      → IsRendered cfg task_id resolved w
  unfolding start_resolved
  start_resolved-IsRendered cfg task_id resolved w h =
      elim (Sum-cases (lib.render_template cfg.entrypoint resolved)) [
        | inl (err, e) ↦ absurd (ground (arith, h, e))
        | inr (entrypoint, e) ↦ elim (text_eq entrypoint "") [
          | yes p ↦ absurd (ground (arith, h, e, p))
          | no n ↦ elim (Sum-cases (render_args lib 0 cfg.command resolved)) [
            | inl (err, f) ↦ absurd (ground (arith, h, e, n, f))
            | inr (args, f) ↦ record {
              entrypoint = entrypoint;
              args = args;
              command = e;
              named = n;
              arguments = f;
              process = ground (arith, h, e, n, f);
            }
          ]
        ]
      ]

  pub passed :
      (programs : List (String × Option Prog)) (name val : String) (prog : Prog)
      → lookup name programs ≡ some (some prog)
      → check_value lib.eval programs name val ≡ none
      → lib.eval prog val ≡ inr true
  unfolding check_value
  passed programs name val prog e c = elim (Sum-cases (lib.eval prog val)) [
    | inl (err, f) ↦ absurd (ground (arith, e, c, f))
    | inr (true, f) ↦ f
    | inr (false, f) ↦ absurd (ground (arith, e, c, f))
  ]

  -- Where the handler has started a worker, its parameters have passed.
  pub start-IsRendered :
      (h : ExecHandler Prog) (task_id : String) (params : List (String × String)) (w : Worker)
      → start lib h task_id params ≡ inr w
      → (resolved : List (String × String)) × (validate_and_apply_defaults lib.eval h.cel_programs
            (h.cfg).parameters
            params
          ≡ inr resolved)
        × IsRendered h.cfg task_id resolved w
  unfolding start
  start-IsRendered h task_id params w k =
      elim (Sum-cases
        (validate_and_apply_defaults lib.eval h.cel_programs (h.cfg).parameters params)) [
          | inl (err, v) ↦ absurd (ground (arith, k, v))
          | inr (resolved, v) ↦ (
            resolved,
            v,
            start_resolved-IsRendered h.cfg task_id resolved w (ground (arith, k, v)),
          )
        ]

  -- The handler keeps the program of each expression.
  pub create-program :
      (config : Raw) (action : String) (retry : RetryPolicy) (pool : PoolConfig) (key : List String)
      (h : ExecHandler Prog) (name : String) (spec : ParamSpec) (prog : Prog)
      → create lib config action retry pool key ≡ inr h
      → lookup name (h.cfg).parameters ≡ some (some spec)
      → spec.validate ≢ ""
      → lib.compile spec.validate ≡ inr (some prog)
      → lookup name h.cel_programs ≡ some (some prog)
  create-program config action retry pool key h name spec prog made e n c =
      compile_programs-program (h.cfg).parameters h.cel_programs name spec prog
        (create-programs config action retry pool key h made) e n c

  -- What `Create` has read of the configuration and the handler keeps.
  pub record IsRead (config : Raw) (h : ExecHandler Prog) : Type 0 where
    pub cfg : ExecHandlerConfig Prog
    pub decoded : lib.decode_config config ≡ inr cfg
    pub parameters : (h.cfg).parameters ≡ cfg.parameters
    pub entrypoint : (h.cfg).entrypoint ≡ cfg.entrypoint
    pub command : (h.cfg).command ≡ cfg.command

  pub create-IsRead :
      (config : Raw) (name : String) (retry : RetryPolicy) (pool : PoolConfig) (key : List String)
      (h : ExecHandler Prog)
      → create lib config name retry pool key ≡ inr h
      → IsRead config h
  unfolding create
  create-IsRead config name retry pool key h k = elim (Sum-cases (lib.decode_config config)) [
    | inl (err, e) ↦ absurd (ground (arith, k, e))
    | inr (cfg, e) ↦ elim (Sum-cases (compile_programs lib cfg.parameters)) [
      | inl (err, f) ↦ absurd (ground (arith, k, e, f))
      | inr (programs, f) ↦ elim (Sum-cases (compile_rule lib cfg.stdout)) [
        | inl (err, g) ↦ absurd (ground (arith, k, e, f, g))
        | inr (stdout, g) ↦ elim (Sum-cases (compile_rule lib cfg.stderr)) [
          | inl (err, i) ↦ absurd (ground (arith, k, e, f, g, i))
          | inr (stderr, i) ↦ record {
            cfg = cfg;
            decoded = e;
            parameters = ground (arith, k, e, f, g, i);
            entrypoint = ground (arith, k, e, f, g, i);
            command = ground (arith, k, e, f, g, i);
          }
        ]
      ]
    ]
  ]
