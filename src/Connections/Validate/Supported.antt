-- ===== src/Connections/Validate/Supported.antt =====
-- The routines of a validated connection.
use wireproxy.Base.Fresh.{IsFresh, FreshRun, NoRepeat, keys_of, cons?, FreshRun-NoRepeat}
use wireproxy.Base.{
  ◌≡◌, Bool, true, false, not, Option, none, some, List, [], ◌∷◌, ok, ensure, >>=-eq-ok,
  ensure-eq-ok, ℤ, eq_ℤ, is_some, All, arith,
}
use wireproxy.Config.Types.{
  ConnectionSpec, Routine, tcp_client, stdio, tcp_server, socks5, http, sni, udp_proxy,
}
use wireproxy.Connections.Validate.Step.{check_spec-Checked}
use wireproxy.Connections.Validate.{
  Seen, Bind, add_bind, check_routine, check_routines, check_spec, check_specs, info_binds,
  nothing_seen, validate_connections, udp_on_tailscale, server_port_twice, bad_target, is_in_ℤ,
}
use wireproxy.Host.{Host}
use wireproxy.Text.HostPort.{split_host_port}
use wireproxy.Text.{Text, codes}

-- The port in the tunnel that a server tunnel listens on.
abbrev pub server_port : Routine → Option ℤ
server_port (tcp_server c) = some c.listen_port
server_port _ = none

-- No UDP over Tailscale, and no server tunnel without a host and a port to connect to.
abbrev pub IsAllowed : Bool → Routine → Type 0
IsAllowed on_tailscale (udp_proxy c) = on_tailscale ≡ false
IsAllowed on_tailscale (tcp_server c) = is_some (split_host_port c.target) ≡ true
IsAllowed on_tailscale _ = Unit

abbrev pub IsSupported : ConnectionSpec → Type 0
IsSupported spec =
    All (IsAllowed (is_some spec.conf.tailscale)) spec.conf.routines
    × NoRepeat eq_ℤ (keys_of server_port spec.conf.routines)

pub check_routine_lem :
    (name : Text) (on_tailscale : Bool) (r : Routine) (ports : List ℤ) (binds : List Bind)
    {next : List ℤ × List Bind}
    → check_routine name on_tailscale r (ports, binds) ≡ ok next
    → IsAllowed on_tailscale r
      × IsFresh eq_ℤ (server_port r) ports
      × (next.0 ≡ cons? (server_port r) ports)
unfolding check_routine
check_routine_lem name on_tailscale (tcp_client c) ports binds h =
    let (more, p, h1) = >>=-eq-ok (add_bind (codes "tcp") c.bind_address.string name binds) _ h in
    (tt, tt, ground (arith, h1))
check_routine_lem name on_tailscale (socks5 c) ports binds h =
    let (more, p, h1) = >>=-eq-ok (add_bind (codes "tcp") c.bind_address name binds) _ h in
    (tt, tt, ground (arith, h1))
check_routine_lem name on_tailscale (http c) ports binds h =
    let (more, p, h1) = >>=-eq-ok (add_bind (codes "tcp") c.bind_address name binds) _ h in
    (tt, tt, ground (arith, h1))
check_routine_lem name on_tailscale (sni c) ports binds h =
    let (more, p, h1) = >>=-eq-ok (add_bind (codes "tcp") c.bind_address name binds) _ h in
    (tt, tt, ground (arith, h1))
check_routine_lem name on_tailscale (udp_proxy c) ports binds h =
    let (u, p, h1) = >>=-eq-ok (ensure (not on_tailscale) (udp_on_tailscale name)) _ h in
    let (more, q, h2) = >>=-eq-ok (add_bind (codes "udp") c.bind_address name binds) _ h1 in
    let off = ensure-eq-ok (not on_tailscale) _ p in (ground (arith, off), tt, ground (arith, h2))
check_routine_lem name on_tailscale (tcp_server c) ports binds h =
    let (u, p, h1) =
      >>=-eq-ok (ensure (not (is_in_ℤ c.listen_port ports)) (server_port_twice name c.listen_port))
        _ h in
    let (w, q, h2) =
      >>=-eq-ok (ensure (is_some (split_host_port c.target)) (bad_target name c.target)) _ h1 in
    let new = ensure-eq-ok (not (is_in_ℤ c.listen_port ports)) _ p in
    (ensure-eq-ok _ _ q, ground (arith, new), ground (arith, h2))
check_routine_lem name on_tailscale (stdio c) ports binds h = (tt, tt, ground arith)

check_routines_lem :
    (name : Text) (on_tailscale : Bool) (rs : List Routine) (ports : List ℤ) (binds : List Bind)
    {last : List ℤ × List Bind}
    → check_routines name on_tailscale rs (ports, binds) ≡ ok last
    → All (IsAllowed on_tailscale) rs × FreshRun eq_ℤ server_port ports rs
unfolding check_routines
check_routines_lem name on_tailscale [] ports binds h = (tt, tt)
check_routines_lem name on_tailscale (r ∷ rs) ports binds h =
    let (next, p, later) = >>=-eq-ok (check_routine name on_tailscale r (ports, binds)) _ h in
    let (allowed, fresh, more) = check_routine_lem name on_tailscale r ports binds p in
    let (rest, run) = check_routines_lem name on_tailscale rs next.0 next.1 later in
    ((allowed, rest), (fresh, rw more at run))

check_specs-IsSupported :
    (host : Host) (specs : List ConnectionSpec) (seen last : Seen)
    → check_specs host specs seen ≡ ok last
    → All IsSupported specs
unfolding check_specs
check_specs-IsSupported host [] seen last h = tt
check_specs-IsSupported host (spec ∷ specs) seen last h =
    let (next, done, later) = >>=-eq-ok (check_spec host spec seen) _ h in
    let c = check_spec-Checked host spec seen next done in
    let (allowed, run) =
      check_routines_lem spec.name (is_some spec.conf.tailscale) spec.conf.routines [] seen.binds
        c.routines.1 in
    (
      (allowed, (FreshRun-NoRepeat eq_ℤ server_port [] spec.conf.routines run).0),
      check_specs-IsSupported host specs next last later,
    )

-- Where validation succeeds, no Tailscale connection has a UDP proxy, the target of every server
-- tunnel splits into host and port, and no two server tunnels of one connection listen on one port.
pub validate_connections-IsSupported :
    (host : Host) (specs : List ConnectionSpec) (info_addr : Text) {u : Unit {0}}
    → validate_connections host specs info_addr ≡ ok u
    → All IsSupported specs
unfolding validate_connections
validate_connections-IsSupported host specs info_addr h =
    let (binds, p, h0) = >>=-eq-ok (info_binds info_addr) _ h in
    let (seen, q, h1) = >>=-eq-ok (check_specs host specs (nothing_seen binds)) _ h0 in
    check_specs-IsSupported host specs (nothing_seen binds) seen q
