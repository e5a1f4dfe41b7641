-- ===== src/Tunnel/Spawn/Confined.antt =====
-- What the routines listen on and dial, beside the rules of the network sandbox.
use wireproxy.Base.{
  ℕ, ◌≡◌, refl, false, true, List, [], ◌∷◌, ◌++◌, some, none, ok, err, Bool, inl, inr, Bool-cases,
  Outcome, All, All-append, any, is_empty, not, ◌&&◌, if◌then◌else◌, arith, append_assoc, ◌%◌,
  subst, sym, Option,
}
use wireproxy.Config.Types.{
  ConnectionSpec, Routine, tcp_client, stdio, tcp_server, socks5, http, sni, udp_proxy,
}
use wireproxy.Connections.StateDir.{is_split_routed, needs_open_egress}
use wireproxy.Host.{Regexp}
use wireproxy.Router.{DomainRouter, new_domain_router, should_tunnel}
use wireproxy.Sandbox.Granted.{Names, Needs, all_routines, lock_network-RulesOf}
use wireproxy.Sandbox.{Rule, bind_tcp, connect_tcp, lock_network}
use wireproxy.Text.{Text}
use wireproxy.Tunnel.Address.Port.{IsIn, Names-dialed, RulesOf-All}
use wireproxy.Tunnel.Address.{AddressPort, AddressError, parse_address_port}
use wireproxy.Tunnel.Spawn.{
  Listener, at_text, at_addr, in_tunnel, udp_at, Handler, client_forward, server_forward,
  socks5_server, serving, serving_sni, sessions, Spawned, ended, listening, piped, spawn_socks5,
  spawn_http, spawn_routine, on_target,
}

-- A TCP listener of the system may be bound.
abbrev pub MayBind : List Rule → Listener → Type 0
MayBind rules (at_text addr) = (port : ℕ) × Names addr port × IsIn (bind_tcp port) rules
MayBind rules (at_addr addr) = IsIn (bind_tcp (addr.port % 65536)) rules
MayBind rules (in_tunnel port) = Unit
MayBind rules (udp_at addr) = Unit

-- The router sends every host into the tunnel.
abbrev pub TunnelsAll : Option DomainRouter → Type 0
TunnelsAll r = (lower : ℕ → ℕ) (host : Text) → should_tunnel lower r host ≡ true

-- TCP is dialed on the system only by a server tunnel, at a port that may be connected to.
abbrev pub DialsAllowed : List Rule → Handler → Type 0
DialsAllowed rules (client_forward raddr) = Unit
DialsAllowed rules (server_forward raddr) = IsIn (connect_tcp raddr.port) rules
DialsAllowed rules (socks5_server s) = TunnelsAll s.router
DialsAllowed rules (serving s router) = TunnelsAll (some router)
DialsAllowed rules (serving_sni router) = TunnelsAll (some router)
DialsAllowed rules (sessions c) = Unit

abbrev pub IsAllowed : List Rule → Spawned → Type 0
IsAllowed rules ended = Unit
IsAllowed rules (piped raddr) = Unit
IsAllowed rules (listening l h) = MayBind rules l × DialsAllowed rules h

open_router-TunnelsAll :
    (patterns : List Regexp) (log_names : Bool)
    → is_empty patterns ≡ true
    → TunnelsAll (some (new_domain_router patterns log_names))
unfolding should_tunnel new_domain_router
open_router-TunnelsAll patterns log_names h lower host = ground arith

socks5_router-TunnelsAll :
    (patterns : List Regexp) (log_names : Bool)
    → is_empty patterns ≡ true
    → TunnelsAll (
        if is_empty patterns && not log_names
        then none
        else some (new_domain_router patterns log_names))
unfolding should_tunnel
socks5_router-TunnelsAll [] true h = open_router-TunnelsAll [] true h
socks5_router-TunnelsAll [] false h = λ lower host. refl
socks5_router-TunnelsAll (p ∷ patterns) log_names h = absurd (ground arith)

IsIn-middle :
    (rule : Rule) (front xs ys : List Rule) → xs ≡ rule ∷ [] → IsIn rule (front ++ xs ++ ys)
IsIn-middle rule front xs ys e = (front, ys, ground (arith, append_assoc front (rule ∷ []) ys))

on_target-IsAllowed :
    (rules : List Rule) (o : Outcome AddressError AddressPort) (next : AddressPort → Spawned)
    → ((raddr : AddressPort) → IsAllowed rules (next raddr))
    → IsAllowed rules (on_target o next)
on_target-IsAllowed rules (err e) next h = tt
on_target-IsAllowed rules (ok raddr) next h = h raddr

-- One routine, that dials no destination directly.
abbrev AllowedIfClosed : (Text → Bool) → List Rule → Routine → Type 0
AllowedIfClosed resolves rules r =
    is_split_routed r ≡ false → IsAllowed rules (spawn_routine resolves r)

module _ (resolves : Text → Bool) where
  routine-IsAllowed :
      (r : Routine) (front xs ys : List Rule)
      → Needs r xs
      → AllowedIfClosed resolves (front ++ xs ++ ys) r
  unfolding spawn_routine spawn_socks5 spawn_http is_split_routed
  routine-IsAllowed (tcp_server c) front xs ys (port, names, e) closed =
      let (name, parsed) = Names-dialed c.target port names in
      let raddr : AddressPort = record { address = name; port = port } in
      subst (λ s. IsAllowed (front ++ xs ++ ys) s)
        {x = listening (in_tunnel c.listen_port) (server_forward raddr)} (ground (arith, parsed))
        (tt, IsIn-middle (connect_tcp port) front xs ys e)
  routine-IsAllowed (tcp_client c) front xs ys e closed =
      on_target-IsAllowed _ (parse_address_port c.target)
        (λ raddr. listening (at_addr c.bind_address) (client_forward raddr))
        (λ raddr. (IsIn-middle (bind_tcp (c.bind_address.port % 65536)) front xs ys e, tt))
  routine-IsAllowed (stdio c) front xs ys e closed =
      on_target-IsAllowed (front ++ xs ++ ys) (parse_address_port c.target) (λ raddr. piped raddr)
        (λ raddr. tt)
  routine-IsAllowed (http c) front xs ys (port, names, e) closed = (
    (port, names, IsIn-middle (bind_tcp port) front xs ys e),
    open_router-TunnelsAll c.tunnel_domains c.log_domains (ground arith),
  )
  routine-IsAllowed (sni c) front xs ys (port, names, e) closed = (
    (port, names, IsIn-middle (bind_tcp port) front xs ys e),
    open_router-TunnelsAll c.tunnel_domains c.log_domains (ground arith),
  )
  routine-IsAllowed (socks5 c) front xs ys (port, names, e) closed = (
    (port, names, IsIn-middle (bind_tcp port) front xs ys e),
    socks5_router-TunnelsAll c.tunnel_domains c.log_domains (ground arith),
  )
  routine-IsAllowed (udp_proxy c) front xs ys e closed =
      elim (Bool-cases (resolves c.bind_address)) [
        | inl found ↦ rw found (tt, tt)
        | inr lost ↦ rw lost tt
      ]

any-none : (p : Routine → Bool) (rs : List Routine) → any p rs ≡ false → All (λ r. p r ≡ false) rs
any-none p [] h = tt
any-none p (r ∷ rs) h = (ground arith, any-none p rs (ground arith))

closed_routines :
    (specs : List ConnectionSpec)
    → needs_open_egress specs ≡ false
    → All (λ r. is_split_routed r ≡ false) (all_routines specs)
unfolding needs_open_egress
closed_routines [] h = tt
closed_routines (spec ∷ specs) h =
    All-append _ spec.conf.routines (all_routines specs)
      (any-none is_split_routed spec.conf.routines (ground arith))
      (closed_routines specs (ground arith))

All-apply :
    (P Q : Routine → Type 0) (rs : List Routine) → All (λ r. P r → Q r) rs → All P rs → All Q rs
All-apply P Q [] f h = tt
All-apply P Q (r ∷ rs) (f, fs) (h, hs) = (f h, All-apply P Q rs fs hs)

-- Where the network is locked down, every routine of every connection stays within its rules: it
-- binds TCP on the system only at ports that they allow, a server tunnel dials only a port that they
-- allow, and the proxies send every host into the tunnel.
pub lock_network-IsAllowed :
    (resolves : Text → Bool) (specs : List ConnectionSpec) (info_addr : Text) (rules : List Rule)
    → lock_network specs info_addr ≡ ok (some rules)
    → All (λ r. IsAllowed rules (spawn_routine resolves r)) (all_routines specs)
lock_network-IsAllowed resolves specs info_addr rules h =
    let (closed, (info, needed, i, listed, e)) = lock_network-RulesOf specs info_addr rules h in
    All-apply (λ r. is_split_routed r ≡ false) (λ r. IsAllowed rules (spawn_routine resolves r))
      (all_routines specs)
      (subst (λ t. All (AllowedIfClosed resolves t) (all_routines specs)) (sym e)
        (RulesOf-All (AllowedIfClosed resolves) (routine-IsAllowed resolves) info listed))
      (closed_routines specs closed)
