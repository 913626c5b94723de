-- ===== src/Server.antt =====
-- run.go: what `RunCLI` makes of its flags and environment, up to a server that listens, and how it
-- shuts down. Files, the YAML codec and the drivers are parameters.
pub mod Guarded
use sticky_overseer.Base.{
  ℕ, String, Bool, Option, none, some, List, ite, text_eq, ◌⊎◌, inl, inr, if◌then◌else◌,
}
use sticky_overseer.Pool.Types.{QueueConfig}
use sticky_overseer.Pool.Manager.{PoolManager, new_pool_manager}
use sticky_overseer.Config.{
  Config, FileRead, load_config, apply_env, extract_pool_configs, or_default,
}
use sticky_overseer.Actions.{
  ActionHandlerFactory, BuildError, build_action_handlers, registered_types,
}
use sticky_overseer.Transport.{
  Transport, NetLibrary, parse_listen_addr, build_trusted_nets, with_trusted_nets, with_hub,
}
use sticky_overseer.Hub.Types.{Hub, ActionHandler, Launch, World}
use sticky_overseer.Hub.Shutdown.{new_hub, drain_pool, shutdown_workers}

pub record Flags : Type 0 where
  pub config : String
  pub version : Bool
  pub help : Bool
  pub list_handlers : Bool

-- The variables that are read; an unset one is empty.
pub record Environment : Type 0 where
  pub overseer_config : String
  pub overseer_listen : String
  pub overseer_db : String
  pub overseer_log_file : String

-- A server before it listens. The event log is open at the path, if there is one.
pub record Server (IpNet : Type 0) : Type 0 where
  pub hub : Hub
  pub actions : List (String × ActionHandler)
  pub transport : Transport IpNet
  pub event_log : Option String

-- The errors after which the program exits with 1.
pub data StartupError : Type 0 where
  bad_config : String → StartupError
  bad_actions : BuildError → StartupError
  bad_cidrs : String → StartupError
  bad_log_file : (path err : String) → StartupError

-- What the program does first: it prints something and exits, or starts a server.
pub data Startup (IpNet : Type 0) : Type 0 where
  prints_usage prints_version : Startup IpNet
  prints_handlers : List String → Startup IpNet
  fails : StartupError → Startup IpNet
  starts : Server IpNet → Startup IpNet

-- `queue_cfgs` are the queue configurations that the configuration points to, `detected` what
-- `detectLocalSubnets` returns, and `open_log` the error of opening a file to append to it.
pub record Surroundings (Raw Doc Ip IpNet : Type 0) : Type 0 where
  pub read_file : String → FileRead Doc
  pub unmarshal : Doc → String ⊎ Config Raw
  pub queue_cfgs : List QueueConfig
  pub registry : List (ActionHandlerFactory Raw ActionHandler)
  pub net : NetLibrary Ip IpNet
  pub detected : List (Option IpNet)
  pub open_log : String → Option String

module _ {Raw Doc Ip IpNet : Type 0} (env : Surroundings Raw Doc Ip IpNet) (version : String) where
  -- Steps 5 to 9, once there are handlers, networks and an event log.
  unfoldable pub make_server :
      Config Raw
      → List (String × ActionHandler)
      → List (Option IpNet)
      → Option String
      → Server IpNet
  make_server cfg actions nets event_log =
      let pool : PoolManager Launch =
        new_pool_manager env.queue_cfgs cfg.task_pool (extract_pool_configs cfg) in
      record {
        hub = new_hub (some pool);
        actions = actions;
        transport =
            with_hub version cfg.name
              (with_trusted_nets nets (parse_listen_addr env.net cfg.listen));
        event_log = event_log;
      }

  -- Step 8: the log file of the environment, or of the configuration.
  unfoldable pub open_event_log : String → Config Raw → StartupError ⊎ Option String
  open_event_log log_env cfg =
      let path = or_default cfg.log_file log_env in
      ite (text_eq path "") (inr none) (elim (env.open_log path) [
        | none ↦ inr (some path)
        | some err ↦ inl (bad_log_file path err)
      ])

  -- Steps 3 to 9.
  unfoldable pub start_configured : String → Config Raw → Startup IpNet
  start_configured log_env cfg = elim (build_action_handlers env.registry cfg) [
    | inl err ↦ fails (bad_actions err)
    | inr actions ↦ elim (build_trusted_nets env.net env.detected cfg.trusted_cidrs) [
      | inl err ↦ fails (bad_cidrs err)
      | inr nets ↦ elim (open_event_log log_env cfg) [
        | inl err ↦ fails err
        | inr event_log ↦ starts (make_server cfg actions nets event_log)
      ]
    ]
  ]

  -- Steps 1 and 2.
  unfoldable pub start_server : Environment → Flags → Startup IpNet
  start_server vars flags =
      elim (load_config env.read_file env.unmarshal
        (or_default flags.config vars.overseer_config)) [
          | inl err ↦ fails (bad_config err)
          | inr cfg ↦
              start_configured vars.overseer_log_file
                (apply_env vars.overseer_listen vars.overseer_db cfg)
        ]

  unfoldable pub run_cli : Environment → Flags → Startup IpNet
  run_cli vars flags =
      if flags.help
      then prints_usage
      else if flags.version
      then prints_version
      else if flags.list_handlers
      then prints_handlers (registered_types env.registry)
      else start_server vars flags

-- Step 14, up to the wait of `Shutdown`.
unfoldable pub close_down : World → ℕ → Hub → Hub
close_down world now h = shutdown_workers (drain_pool world now h)
