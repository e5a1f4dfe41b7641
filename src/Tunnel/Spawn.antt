-- ===== src/Tunnel/Spawn.antt =====
-- `SpawnRoutine` of each routine: what it listens on, and what becomes of what comes in. A call to
-- listen that fails ends the routine, and so does a call to accept; neither changes what is
-- listed here.
pub mod Confined
use wireproxy.Base.{
  Bool, true, false, not, ◌&&◌, Option, none, some, List, [], ◌∷◌, is_empty, Outcome, ok, err, ℤ,
  pos, if◌then◌else◌,
}
use wireproxy.Config.Types.{
  Routine, tcp_client, stdio, tcp_server, socks5, http, sni, udp_proxy, Socks5Config, HttpConfig,
  UdpProxyTunnelConfig,
}
use wireproxy.Host.{TcpAddr}
use wireproxy.Http.{HttpServer, http_server}
use wireproxy.Router.{DomainRouter, new_domain_router}
use wireproxy.Text.{Text}
use wireproxy.Tunnel.Address.{AddressPort, AddressError, parse_address_port}

-- A TCP listener of the system, at an address in text or a resolved one, a TCP listener inside the
-- tunnel, or a UDP socket of the system.
pub data Listener : Type 0 where
  at_text : Text → Listener
  at_addr : TcpAddr → Listener
  in_tunnel : ℤ → Listener
  udp_at : Text → Listener

-- `credentials` is none without authentication. `router` is none where everything is dialed and
-- resolved in the tunnel.
pub record Socks5Server : Type 0 where
  pub credentials : Option (Text × Text)
  pub router : Option DomainRouter

pub data Handler : Type 0 where
  client_forward server_forward : AddressPort → Handler
  socks5_server : Socks5Server → Handler
  serving : HttpServer → DomainRouter → Handler
  serving_sni : DomainRouter → Handler
  sessions : UdpProxyTunnelConfig → Handler

pub data Spawned : Type 0 where
  ended : Spawned
  listening : Listener → Handler → Spawned
  piped : AddressPort → Spawned

unfoldable pub spawn_socks5 : Socks5Config → Spawned
unfolding new_domain_router
spawn_socks5 c = listening (at_text c.bind_address) (
    socks5_server (record {
      credentials = if is_empty c.username then none else some (c.username, c.password);
      router =
          if is_empty c.tunnel_domains && not c.log_domains
          then none
          else some (new_domain_router c.tunnel_domains c.log_domains);
    }))

unfoldable pub spawn_http : HttpConfig → Spawned
unfolding http_server new_domain_router
spawn_http c = listening (at_text c.bind_address) (
    serving (http_server c.username c.password c.cert_file c.key_file)
      (new_domain_router c.tunnel_domains c.log_domains))

-- What a routine does with its target, where the target parses.
abbrev pub on_target : Outcome AddressError AddressPort → (AddressPort → Spawned) → Spawned
on_target (err e) next = ended
on_target (ok raddr) next = next raddr

-- `resolves` tells whether `net.ResolveUDPAddr` resolves an address.
unfoldable pub spawn_routine : (Text → Bool) → Routine → Spawned
unfolding spawn_socks5 spawn_http parse_address_port new_domain_router
spawn_routine resolves (tcp_client c) =
    on_target (parse_address_port c.target)
      (λ raddr. listening (at_addr c.bind_address) (client_forward raddr))
spawn_routine resolves (stdio c) = on_target (parse_address_port c.target) (λ raddr. piped raddr)
spawn_routine resolves (tcp_server c) =
    on_target (parse_address_port c.target)
      (λ raddr. listening (in_tunnel c.listen_port) (server_forward raddr))
spawn_routine resolves (socks5 c) = spawn_socks5 c
spawn_routine resolves (http c) = spawn_http c
spawn_routine resolves (sni c) =
    listening (at_text c.bind_address)
      (serving_sni (new_domain_router c.tunnel_domains c.log_domains))
spawn_routine resolves (udp_proxy c) =
    if resolves c.bind_address then listening (udp_at c.bind_address) (sessions c) else ended
