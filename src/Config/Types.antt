-- ===== src/Config/Types.antt =====
-- The configuration types of config.go, tailscale_config.go and connections.go.
use wireproxy.Base.{Bool, List, Option, ℤ}
use wireproxy.Host.{Addr, Prefix, TcpAddr, Regexp}
use wireproxy.Text.{Text}

pub record PeerConfig : Type 0 where
  pub public_key : Text
  pub pre_shared_key : Text
  pub endpoint : Option Text
  pub keep_alive : ℤ
  pub allowed_ips : List Prefix

pub record DeviceConfig : Type 0 where
  pub secret_key : Text
  pub endpoint : List Addr
  pub peers : List PeerConfig
  pub dns : List Addr
  pub mtu : ℤ
  pub listen_port : Option ℤ
  pub check_alive : List Addr
  pub check_alive_interval : ℤ

pub record UdpProxyTunnelConfig : Type 0 where
  pub bind_address : Text
  pub target : Text
  pub inactivity_timeout : ℤ

-- The parser never leaves `BindAddress` nil.
pub record TcpClientTunnelConfig : Type 0 where
  pub bind_address : TcpAddr
  pub target : Text

-- The two open files are always the process's stdin and stdout.
pub record StdioTunnelConfig : Type 0 where
  pub target : Text

pub record TcpServerTunnelConfig : Type 0 where
  pub listen_port : ℤ
  pub target : Text

pub record Socks5Config : Type 0 where
  pub bind_address : Text
  pub username : Text
  pub password : Text
  pub tunnel_domains : List Regexp
  pub log_domains : Bool

pub record SniConfig : Type 0 where
  pub bind_address : Text
  pub tunnel_domains : List Regexp
  pub log_domains : Bool

pub record HttpConfig : Type 0 where
  pub bind_address : Text
  pub username : Text
  pub password : Text
  pub cert_file : Text
  pub key_file : Text
  pub tunnel_domains : List Regexp
  pub log_domains : Bool

-- `RoutineSpawner`, with a constructor for each type that implements it
pub data Routine : Type 0 where
  tcp_client : TcpClientTunnelConfig → Routine
  stdio : StdioTunnelConfig → Routine
  tcp_server : TcpServerTunnelConfig → Routine
  socks5 : Socks5Config → Routine
  http : HttpConfig → Routine
  sni : SniConfig → Routine
  udp_proxy : UdpProxyTunnelConfig → Routine

pub record TailscaleConfig : Type 0 where
  pub hostname : Text
  pub auth_key : Text
  pub control_url : Text
  pub ephemeral : Bool
  pub state_dir : Text
  pub advertise_tags : List Text

pub record ResolveConfig : Type 0 where
  pub resolve_strategy : Text

pub record Configuration : Type 0 where
  pub name : Text
  pub device : Option DeviceConfig
  pub tailscale : Option TailscaleConfig
  pub routines : List Routine
  pub resolve : ResolveConfig

pub record ConnectionSpec : Type 0 where
  pub name : Text
  pub conf : Configuration
