-- ===== src/Tunnel/Forward.antt =====
-- `tcpClientForward`, `tcpServerForward` and `STDIOTcpForward`.
pub mod Tidy
use wireproxy.Base.{
  ℕ, ◌≡◌, refl, Bool, true, false, List, [], ◌∷◌, ◌++◌, Outcome, ok, err, inl, inr, Outcome-cases,
  Bool-cases, some, none, arith, if◌then◌else◌,
}
use wireproxy.Config.Types.{ResolveConfig}
use wireproxy.Host.{Host}
use wireproxy.Router.{Via, tunnel, direct}
use wireproxy.Text.{Text}
use wireproxy.Traffic.{
  Dest, resolved, Effect, dialed, connected, closed_client, closed_peer, forwarding, settle,
  accepted, IsTidy, both_handed_over, client_shut, both_shut, dials, in_hand, absent, handed_over,
  shut, Books,
}
use wireproxy.Tunnel.Address.{AddressPort, Resolver, resolve_to_addr_port}

-- Whether a dial of the address succeeds: on the connection's network, or on the system's.
pub record Dialers : Type 0 where
  pub tunnel : Text × ℕ → Bool
  pub system : Text × ℕ → Bool

abbrev dial_on : Dialers → Via → Text × ℕ → Bool
dial_on d tunnel = d.tunnel
dial_on d direct = d.system

abbrev pub forward_to : Dialers → Via → Outcome Text (Text × ℕ) → List Effect
forward_to d net (err e) = closed_client ∷ []
forward_to d net (ok target) =
    dialed (resolved net target.0 target.1)
    ∷ (if dial_on d net target then connected ∷ forwarding ∷ [] else closed_client ∷ [])

module _ (host : Host) (r : Resolver) (strategy : ResolveConfig) (d : Dialers) where
  unfoldable pub tcp_client_forward : AddressPort → List Effect
  unfolding resolve_to_addr_port
  tcp_client_forward raddr = forward_to d tunnel (resolve_to_addr_port host r strategy raddr)

  unfoldable pub tcp_server_forward : AddressPort → List Effect
  unfolding resolve_to_addr_port
  tcp_server_forward raddr = forward_to d direct (resolve_to_addr_port host r strategy raddr)

  -- The client is the process's own input and output, which is not closed.
  unfoldable pub stdio_tcp_forward : AddressPort → List Effect
  unfolding resolve_to_addr_port
  stdio_tcp_forward raddr = elim (resolve_to_addr_port host r strategy raddr) [
    | err e ↦ []
    | ok target ↦
        dialed (resolved tunnel target.0 target.1)
        ∷ (if dial_on d tunnel target then connected ∷ forwarding ∷ [] else [])
  ]
