-- ===== src/Server/Guarded.antt =====
-- Whom a server that run.go starts lets in.
use sticky_overseer.Base.{◌≡◌, String, true, Option, some, List, [], ◌∷◌, inr}
use sticky_overseer.Actions.{build_action_handlers}
use sticky_overseer.Config.{Config}
use sticky_overseer.Transport.{Transport, NetLibrary, build_trusted_nets, contained}
use sticky_overseer.Hub.Types.{ActionHandler}
use sticky_overseer.Server.{Server, Surroundings, make_server}

-- Is the remote address a host in one of the networks?
abbrev pub IsWithin :
    {Ip IpNet : Type 0} → NetLibrary Ip IpNet → List (Option IpNet) → String → Type 0
IsWithin {Ip} lib nets remote_addr =
    (host : String) × (ip : Ip) × (lib.split_host remote_addr ≡ some host)
    × (lib.parse_ip host ≡ some ip)
    × (contained lib ip nets ≡ true)

module _ {Ip IpNet : Type 0} (lib : NetLibrary Ip IpNet) where
  abbrev NotEmpty : {A : Type 0} → List A → Type 0
  NotEmpty [] = ⊥
  NotEmpty (x ∷ xs) = Unit {0}

module _ {Raw Doc Ip IpNet : Type 0} (env : Surroundings Raw Doc Ip IpNet) (version : String) where
  -- What a server that starts is made of.
  abbrev IsMade : Config Raw → Server IpNet → Type 0
  IsMade cfg server =
      (actions : List (String × ActionHandler)) × (nets : List (Option IpNet)) × (log : Option
        String)
      × (build_action_handlers env.registry cfg ≡ inr actions)
      × (build_trusted_nets env.net env.detected cfg.trusted_cidrs ≡ inr nets)
      × (server ≡ make_server env version cfg actions nets log)
