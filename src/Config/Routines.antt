-- ===== src/Config/Routines.antt =====
-- The parsers of the routine sections, and the table that names them.
use wireproxy.Base.{List, [], ◌∷◌, Outcome, ok, ◌>>=◌, pos}
use wireproxy.Config.Keys.{
  parse_string, parse_port, parse_tcp_addr, parse_regex_list, parse_bool_key, int_key_or,
}
use wireproxy.Config.Types.{Routine, tcp_client, stdio, tcp_server, socks5, http, sni, udp_proxy}
use wireproxy.Host.{Host, Section}
use wireproxy.Text.{Text, codes}

module _ (host : Host) where
  unfoldable pub parse_tcp_client_tunnel_config : Section → Outcome Text Routine
  parse_tcp_client_tunnel_config section = do
    tcp_addr ← parse_tcp_addr host section (codes "BindAddress")
    target ← parse_string host section (codes "Target")
    ok (tcp_client (record { bind_address = tcp_addr; target = target }))

  unfoldable pub parse_stdio_tunnel_config : Section → Outcome Text Routine
  parse_stdio_tunnel_config section = do
    target ← parse_string host section (codes "Target")
    ok (stdio (record { target = target }))

  unfoldable pub parse_tcp_server_tunnel_config : Section → Outcome Text Routine
  parse_tcp_server_tunnel_config section = do
    listen_port ← parse_port section (codes "ListenPort")
    target ← parse_string host section (codes "Target")
    ok (tcp_server (record { listen_port = listen_port; target = target }))

  unfoldable pub parse_socks5_config : Section → Outcome Text Routine
  parse_socks5_config section = do
    bind_address ← parse_string host section (codes "BindAddress")
    username ← parse_string host section (codes "Username")
    password ← parse_string host section (codes "Password")
    tunnel_domains ← parse_regex_list host section (codes "TunnelDomains")
    log_domains ← parse_bool_key section (codes "LogDomains")
    ok (
        socks5 (record {
          bind_address = bind_address;
          username = username;
          password = password;
          tunnel_domains = tunnel_domains;
          log_domains = log_domains;
        }))

  unfoldable pub parse_sni_config : Section → Outcome Text Routine
  parse_sni_config section = do
    bind_address ← parse_string host section (codes "BindAddress")
    tunnel_domains ← parse_regex_list host section (codes "TunnelDomains")
    log_domains ← parse_bool_key section (codes "LogDomains")
    ok (
        sni (record {
          bind_address = bind_address;
          tunnel_domains = tunnel_domains;
          log_domains = log_domains;
        }))

  unfoldable pub parse_http_config : Section → Outcome Text Routine
  parse_http_config section = do
    bind_address ← parse_string host section (codes "BindAddress")
    username ← parse_string host section (codes "Username")
    password ← parse_string host section (codes "Password")
    cert_file ← parse_string host section (codes "CertFile")
    key_file ← parse_string host section (codes "KeyFile")
    tunnel_domains ← parse_regex_list host section (codes "TunnelDomains")
    log_domains ← parse_bool_key section (codes "LogDomains")
    ok (
        http (record {
          bind_address = bind_address;
          username = username;
          password = password;
          cert_file = cert_file;
          key_file = key_file;
          tunnel_domains = tunnel_domains;
          log_domains = log_domains;
        }))

  unfoldable pub parse_udp_proxy_tunnel_config : Section → Outcome Text Routine
  parse_udp_proxy_tunnel_config section = do
    bind_address ← parse_string host section (codes "BindAddress")
    target ← parse_string host section (codes "Target")
    inactivity_timeout ← int_key_or section (codes "InactivityTimeout") (pos 0)
    ok (
        udp_proxy (record {
          bind_address = bind_address;
          target = target;
          inactivity_timeout = inactivity_timeout;
        }))

  -- One row of the table: a section type and its parser.
  abbrev pub Parser : Type 0
  Parser = Text × (Section → Outcome Text Routine)

  abbrev pub routine_parsers : List Parser
  routine_parsers =
      (codes "tcpclienttunnel", parse_tcp_client_tunnel_config)
      ∷ (codes "stdiotunnel", parse_stdio_tunnel_config)
      ∷ (codes "tcpservertunnel", parse_tcp_server_tunnel_config)
      ∷ (codes "socks5", parse_socks5_config)
      ∷ (codes "http", parse_http_config)
      ∷ (codes "sni", parse_sni_config)
      ∷ (codes "udpproxytunnel", parse_udp_proxy_tunnel_config)
      ∷ []
