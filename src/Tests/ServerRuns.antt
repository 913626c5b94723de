-- ===== src/Tests/ServerRuns.antt =====
-- Instances of the theorems on the servers that run.go starts.
use sticky_overseer.Base.{ℕ, String, true, false, Option, none, some, List, [], ◌∷◌, inl}
use sticky_overseer.Config
use sticky_overseer.Config.{Config, apply_config_defaults, empty_config}
use sticky_overseer.Transport.{NetLibrary, TcpTransport, tcp_at, detect_local_subnets}
use sticky_overseer.Server.{Surroundings, Environment, Flags, Server, make_server}

-- Addresses and networks are texts, and a network has the addresses of its own text.
abbrev net : NetLibrary String String
net = record {
  equal_fold = λ s t. false;
  has_prefix = λ s t. false;
  contains_text = λ s t. false;
  is_int = λ s. false;
  split = λ s sep. s ∷ [];
  trim_space = λ s. s;
  split_host = λ s. some s;
  parse_cidr = λ s. some s;
  parse_ip = λ s. some s;
  is_ip4 = λ ip. true;
  contains_ip = λ n ip. true;
}

abbrev env : Surroundings ℕ ℕ String String
env = record {
  read_file = λ path. Config.not_found;
  unmarshal = λ doc. inl "";
  queue_cfgs = [];
  registry = [];
  net = net;
  detected = detect_local_subnets net none;
  open_log = λ path. none;
}

abbrev vars : Environment
vars = record {
  overseer_config = "";
  overseer_listen = "";
  overseer_db = "";
  overseer_log_file = "";
}

abbrev flags : Flags
flags = record { config = "config.yaml"; version = false; help = false; list_handlers = false }

abbrev local_nets : List (Option String)
local_nets = some "127.0.0.0/8" ∷ some "::1/128" ∷ []

abbrev server : Server String
server = make_server env "1" (apply_config_defaults empty_config) [] local_nets none

abbrev tcp : TcpTransport String
tcp = record (tcp_at ":8080") { trusted_nets = local_nets; has_hub = true; version = "1" }
