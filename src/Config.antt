-- ===== src/Config.antt =====
-- config.go, and what run.go makes of a configuration. The YAML codec is a parameter, and so is the
-- type `Raw` of a driver's own configuration.
use sticky_overseer.Base.{String, Option, none, some, List, [], ite, text_eq, ◌⊎◌, inl, inr, map}
use sticky_overseer.Messages.{RetryPolicy, zero_retry_policy}
use sticky_overseer.Pool.Types.{PoolConfig, zero_pool_config}

pub record ActionMeta : Type 0 where
  pub description : String

pub record ActionConfig (Raw : Type 0) : Type 0 where
  pub meta : ActionMeta
  pub type_ : String
  pub retry : RetryPolicy
  pub task_pool : PoolConfig
  pub config : Raw
  pub dedupe_key : List String

pub record Config (Raw : Type 0) : Type 0 where
  pub name : String
  pub listen : String
  pub db : String
  pub log_file : String
  pub trusted_cidrs : List String
  pub retry : RetryPolicy
  pub task_pool : PoolConfig
  pub actions : List (String × ActionConfig Raw)

-- `Default` is a pointer.
pub record ParamSpec : Type 0 where
  pub default : Option String
  pub validate : String

-- What `UnmarshalYAML` asks a node of the `yaml` package: its kind, its tag and value where it is a
-- scalar, and what `Decode` makes of it where it is a mapping.
pub data YamlNode : Type 0 where
  scalar_node : (tag value : String) → YamlNode
  mapping_node : String ⊎ ParamSpec → YamlNode
  other_node : YamlNode

-- The specification that `p` points to after the call, and the error.
unfoldable pub unmarshal_yaml : YamlNode → ParamSpec → ParamSpec × Option String
unmarshal_yaml (scalar_node tag value) p =
    let default : Option String = ite (text_eq tag "!!null") none (some value) in
    (record { default = default; validate = "" }, none)
unmarshal_yaml (mapping_node (inl err)) p = (p, some err)
unmarshal_yaml (mapping_node (inr v)) p = (v, none)
unmarshal_yaml other_node p = (p, none)

abbrev pub or_default : String → String → String
or_default default s = ite (text_eq s "") default s

-- What `os.ReadFile` returns.
pub data FileRead {ℓ} (Doc : Type ℓ) : Type ℓ where
  not_found : FileRead Doc
  read_error : String → FileRead Doc
  contents : Doc → FileRead Doc

module _ {Raw : Type 0} where
  abbrev pub empty_config : Config Raw
  empty_config = record {
    name = "";
    listen = "";
    db = "";
    log_file = "";
    trusted_cidrs = [];
    retry = zero_retry_policy;
    task_pool = zero_pool_config;
    actions = [];
  }

  unfoldable pub apply_config_defaults : Config Raw → Config Raw
  apply_config_defaults cfg = record cfg {
    listen = or_default ":8080" cfg.listen;
    db = or_default "./overseer.db" cfg.db;
  }

  -- `unmarshal` is `yaml.Unmarshal` into an empty configuration.
  abbrev pub parse_config {ℓ} :
      {Doc : Type ℓ} → (Doc → String ⊎ Config Raw) → Doc → String ⊎ Config Raw
  parse_config unmarshal doc = elim (unmarshal doc) [
    | inl err ↦ inl err
    | inr cfg ↦ inr (apply_config_defaults cfg)
  ]

  unfoldable pub load_config {ℓ} :
      {Doc : Type ℓ}
      → (String → FileRead Doc)
      → (Doc → String ⊎ Config Raw)
      → String
      → String ⊎ Config Raw
  load_config read_file unmarshal path =
      ite (text_eq path "") (inr (apply_config_defaults empty_config)) (elim (read_file path) [
        | not_found ↦ inr (apply_config_defaults empty_config)
        | read_error err ↦ inl err
        | contents doc ↦ parse_config unmarshal doc
      ])

  -- The overrides by `OVERSEER_LISTEN` and `OVERSEER_DB`, of which an unset one is empty.
  unfoldable pub apply_env : String → String → Config Raw → Config Raw
  apply_env listen_env db_env cfg = record cfg {
    listen = or_default cfg.listen listen_env;
    db = or_default cfg.db db_env;
  }

  abbrev pub action_pool : String × ActionConfig Raw → String × PoolConfig
  action_pool (name, ac) = (name, ac.task_pool)

  unfoldable pub extract_pool_configs : Config Raw → List (String × PoolConfig)
  extract_pool_configs cfg = map action_pool cfg.actions
