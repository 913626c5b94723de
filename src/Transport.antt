-- ===== src/Transport.antt =====
-- transport.go, and the trusted networks of hub.go and run.go. The `strings`, `strconv` and `net`
-- packages are a record of operations.
pub mod Listen
use Prim.Native.String.{◌++◌ as append}
use sticky_overseer.Base.{
  String, Bool, true, false, Option, none, some, List, [], ◌∷◌, ite, text_eq, ◌⊎◌, inl, inr,
  if◌then◌else◌, ◌||◌,
}

-- `parse_cidr` is the network that `net.ParseCIDR` returns, nil where it returns an error.
pub record NetLibrary (Ip IpNet : Type 0) : Type 0 where
  pub equal_fold : String → String → Bool
  pub has_prefix : String → String → Bool
  pub contains_text : String → String → Bool
  pub is_int : String → Bool
  pub split : String → String → List String
  pub trim_space : String → String
  pub split_host : String → Option String
  pub parse_cidr : String → Option IpNet
  pub parse_ip : String → Option Ip
  pub is_ip4 : Ip → Bool
  pub contains_ip : Option IpNet → Ip → Bool

-- A network is a pointer. `has_hub` tells whether `hub` is set.
pub record TcpTransport (IpNet : Type 0) : Type 0 where
  pub addr : String
  pub trusted_nets : List (Option IpNet)
  pub has_hub : Bool
  pub version : String
  pub name : String

pub data Transport (IpNet : Type 0) : Type 0 where
  stdio_transport : Transport IpNet
  unix_transport : (path : String) (trusted_nets : List (Option IpNet)) → Transport IpNet
  tcp_transport : TcpTransport IpNet → Transport IpNet

-- `tcpTransport{addr: addr}`
abbrev pub tcp_at : {IpNet : Type 0} → String → TcpTransport IpNet
tcp_at addr = record { addr = addr; trusted_nets = []; has_hub = false; version = ""; name = "" }

unfoldable pub transport_string : {IpNet : Type 0} → Transport IpNet → String
transport_string stdio_transport = "STDIO"
transport_string (unix_transport path nets) = path
transport_string (tcp_transport t) = t.addr

-- `if tcp, ok := transport.(tcpTransport); ok { ... }` of run.go, before and after the hub is made.
unfoldable pub with_trusted_nets :
    {IpNet : Type 0} → List (Option IpNet) → Transport IpNet → Transport IpNet
with_trusted_nets nets stdio_transport = stdio_transport
with_trusted_nets nets (unix_transport path own) = unix_transport path own
with_trusted_nets nets (tcp_transport t) = tcp_transport (record t { trusted_nets = nets })

unfoldable pub with_hub :
    {IpNet : Type 0} → (version name : String) → Transport IpNet → Transport IpNet
with_hub version name stdio_transport = stdio_transport
with_hub version name (unix_transport path own) = unix_transport path own
with_hub version name (tcp_transport t) =
    tcp_transport (record t { has_hub = true; version = version; name = name })

module _ {Ip IpNet : Type 0} (lib : NetLibrary Ip IpNet) where
  unfoldable pub parse_listen_addr : String → Transport IpNet
  parse_listen_addr addr =
      if lib.equal_fold addr "stdio"
      then stdio_transport
      else if lib.has_prefix addr "/" || lib.has_prefix addr "./"
      then unix_transport addr []
      else if lib.is_int addr
      then tcp_transport (tcp_at (append ":" addr))
      else tcp_transport (tcp_at addr)

  -- `net.ParseCIDR(fmt.Sprintf("%s/%d", cidr, bits))`, whose error is ignored.
  abbrev pub host_net : String → Ip → Option IpNet
  host_net cidr ip = lib.parse_cidr (append cidr (if lib.is_ip4 ip then "/32" else "/128"))

  -- A round of the loop of `parseTrustedCIDRs`: the text of its error, or a network.
  unfoldable pub trusted_cidr : String → String ⊎ Option IpNet
  trusted_cidr text =
      let cidr = lib.trim_space text in
      if lib.contains_text cidr "/"
      then (elim (lib.parse_cidr cidr) [
        | none ↦ inl (append "invalid CIDR in trusted CIDRs: " cidr)
        | some net ↦ inr (some net)
      ])
      else (elim (lib.parse_ip cidr) [
        | none ↦ inl (append "invalid IP in trusted CIDRs: " cidr)
        | some ip ↦ inr (host_net cidr ip)
      ])

  -- The loops over the texts, whose first error is returned.
  unfoldable pub parse_each :
      (String → String ⊎ Option IpNet) → List String → String ⊎ List (Option IpNet)
  parse_each parse [] = inr []
  parse_each parse (text ∷ texts) =
      let rest = parse_each parse texts in
      elim (parse text) [
        | inl err ↦ inl err
        | inr net ↦ elim rest [ inl err ↦ inl err | inr nets ↦ inr (net ∷ nets) ]
      ]

  unfoldable pub parse_trusted_cidrs : String → String ⊎ List (Option IpNet)
  parse_trusted_cidrs s = ite (text_eq s "") (inr []) (parse_each trusted_cidr (lib.split s ","))

  -- A round of the loop of `buildTrustedNets`.
  unfoldable pub trusted_net : String → String ⊎ Option IpNet
  trusted_net cidr = elim (lib.parse_cidr cidr) [
    | some net ↦ inr (some net)
    | none ↦ elim (lib.parse_ip cidr) [
      | none ↦ inl (append "invalid CIDR or IP " cidr)
      | some ip ↦ inr (host_net cidr ip)
    ]
  ]

  -- `detected` is what `detectLocalSubnets` returns.
  unfoldable pub build_trusted_nets :
      List (Option IpNet) → List String → String ⊎ List (Option IpNet)
  build_trusted_nets detected [] = inr detected
  build_trusted_nets detected (cidr ∷ cidrs) = parse_each trusted_net (cidr ∷ cidrs)

  -- The loopback networks, and the networks of the addresses of the interfaces, `none` for an error.
  unfoldable pub detect_local_subnets : Option (List (List IpNet)) → List (Option IpNet)
  detect_local_subnets ifaces =
      lib.parse_cidr "127.0.0.0/8"
      ∷ lib.parse_cidr "::1/128"
      ∷ elim ifaces [ none ↦ [] | some addrs ↦ all_nets addrs ]
    where
      nets_and : List IpNet → List (Option IpNet) → List (Option IpNet)
      nets_and [] later = later
      nets_and (net ∷ nets) later = some net ∷ nets_and nets later

      all_nets : List (List IpNet) → List (Option IpNet)
      all_nets [] = []
      all_nets (nets ∷ rest) = nets_and nets (all_nets rest)

  unfoldable pub contained : Ip → List (Option IpNet) → Bool
  contained ip [] = false
  contained ip (net ∷ nets) = lib.contains_ip net ip || contained ip nets

  unfoldable pub is_trusted : (remote_addr : String) → List (Option IpNet) → Bool
  is_trusted remote_addr [] = true
  is_trusted remote_addr (net ∷ nets) = elim (lib.split_host remote_addr) [
    | none ↦ false
    | some host ↦ elim (lib.parse_ip host) [ none ↦ false | some ip ↦ contained ip (net ∷ nets) ]
  ]

  -- Does the `/ws` handler of a transport go on to upgrade a request? There is none on stdio.
  unfoldable pub admits : Transport IpNet → (remote_addr : String) → Bool
  admits stdio_transport remote_addr = false
  admits (tcp_transport t) remote_addr = is_trusted remote_addr t.trusted_nets
  admits (unix_transport path []) remote_addr = true
  admits (unix_transport path (net ∷ nets)) remote_addr = is_trusted remote_addr (net ∷ nets)

-- What the scanner of a stdio connection has still to read: lines, then an error or the end.
pub record StdioConn : Type 0 where
  pub lines : List String
  pub scan_error : Option String
  pub written : List String
  pub closed : Bool

-- `ReadJSON`: the connection and an error or a value.
unfoldable pub read_json {ℓ} :
    {A : Type ℓ} → (String → String ⊎ A) → StdioConn → StdioConn × (String ⊎ A)
read_json unmarshal c = elim (c.lines) [
  | [] ↦ (c, elim (c.scan_error) [ none ↦ inl "EOF" | some err ↦ inl err ])
  | line ∷ rest ↦ (record c { lines = rest }, unmarshal line)
]

-- `WriteJSON` of the text of a value, the latest line first, and `Close`.
unfoldable pub write_json : String → StdioConn → StdioConn
write_json line c = record c { written = line ∷ c.written }

unfoldable pub close_conn : StdioConn → StdioConn
close_conn c = record c { closed = true }
