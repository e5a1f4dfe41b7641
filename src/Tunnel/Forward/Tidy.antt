-- ===== src/Tunnel/Forward/Tidy.antt =====
-- The two connections of a forward, and what it dials.
use wireproxy.Base.{
  ℕ, ◌≡◌, refl, List, [], ◌∷◌, Outcome, ok, err, inl, inr, Bool-cases, Outcome-cases,
}
use wireproxy.Config.Types.{ResolveConfig}
use wireproxy.Host.{Host, Addr}
use wireproxy.Router.{Via, tunnel, direct}
use wireproxy.Text.{Text}
use wireproxy.Traffic.{Dest, resolved, settle, IsTidy, both_handed_over, client_shut, dials}
use wireproxy.Tunnel.Address.{
  AddressPort, Resolver, resolve_addr_with_context, resolve_to_addr_port,
}
use wireproxy.Tunnel.Forward.{
  Dialers, dial_on, forward_to, tcp_client_forward, tcp_server_forward, stdio_tcp_forward,
}

forward_to-IsTidy :
    (d : Dialers) (net : Via) (o : Outcome Text (Text × ℕ)) → IsTidy (forward_to d net o)
unfolding settle
forward_to-IsTidy d net (err e) = (client_shut, refl, inr (refl, inr refl))
forward_to-IsTidy d net (ok target) = elim (Bool-cases (dial_on d net target)) [
  | inl success ↦ rw success (both_handed_over, refl, inl (refl, refl))
  | inr failure ↦ rw failure (client_shut, refl, inr (refl, inr refl))
]

-- Where a name resolves, its address is the only one dialed, at this port and on this network; where it
-- does not, nothing is dialed.
abbrev pub only_at : Via → ℕ → Outcome Text Addr → List Dest
only_at net port (err e) = []
only_at net port (ok addr) = resolved net addr.string port ∷ []

module _ (host : Host) (r : Resolver) (strategy : ResolveConfig) (d : Dialers)
    (raddr : AddressPort) where
  forward_to-dials :
      (net : Via)
      → dials (forward_to d net (resolve_to_addr_port host r strategy raddr))
        ≡ only_at net raddr.port (resolve_addr_with_context host r strategy raddr.address)
  unfolding resolve_to_addr_port
  forward_to-dials net =
      elim (Outcome-cases (resolve_addr_with_context host r strategy raddr.address)) [
        | inr (e, bad) ↦ rw bad
        | inl (addr, good) ↦ elim (Bool-cases (dial_on d net (addr.string, raddr.port))) [
          | inl success ↦ rw good (rw success)
          | inr failure ↦ rw good (rw failure)
        ]
      ]

  stdio_tcp_forward-dials :
      dials (stdio_tcp_forward host r strategy d raddr)
      ≡ only_at tunnel raddr.port (resolve_addr_with_context host r strategy raddr.address)
  unfolding stdio_tcp_forward resolve_to_addr_port
  stdio_tcp_forward-dials =
      elim (Outcome-cases (resolve_addr_with_context host r strategy raddr.address)) [
        | inr (e, bad) ↦ rw (stdio_tcp_forward, bad)
        | inl (addr, good) ↦ elim (Bool-cases (d.tunnel (addr.string, raddr.port))) [
          | inl success ↦ rw (stdio_tcp_forward, good) (rw success)
          | inr failure ↦ rw (stdio_tcp_forward, good) (rw failure)
        ]
      ]

  -- Whatever the resolution and the dials answer: a client tunnel and the tunnel of the process's
  -- own input and output dial exactly the address that the target's name resolves to, at the
  -- target's port, through the tunnel, and a server tunnel dials it on the system's network;
  -- nothing is dialed where the name does not resolve; and a client or server tunnel uses its two
  -- connections only while they are open and in hand, and ends with the client's closed and no peer
  -- left, or with both handed over to the goroutines that copy.
  pub forward-IsTidy :
      IsTidy (tcp_client_forward host r strategy d raddr)
      × IsTidy (tcp_server_forward host r strategy d raddr)
      × (dials (tcp_client_forward host r strategy d raddr)
          ≡ only_at tunnel raddr.port (resolve_addr_with_context host r strategy raddr.address))
      × (dials (tcp_server_forward host r strategy d raddr)
          ≡ only_at direct raddr.port (resolve_addr_with_context host r strategy raddr.address))
      × (dials (stdio_tcp_forward host r strategy d raddr)
          ≡ only_at tunnel raddr.port (resolve_addr_with_context host r strategy raddr.address))
  unfolding tcp_client_forward tcp_server_forward
  forward-IsTidy =
      let o = resolve_to_addr_port host r strategy raddr in
      (
        forward_to-IsTidy d tunnel o,
        forward_to-IsTidy d direct o,
        forward_to-dials tunnel,
        forward_to-dials direct,
        stdio_tcp_forward-dials,
      )
