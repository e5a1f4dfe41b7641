-- ===== src/Tests/Tunnelling.antt =====
-- Tunnels: their targets, what they dial, the pings of a connection, and the peers of a tailnet.
use wireproxy.Base.{
  ltb, ◌+◌, ◌*◌, Outcome, map, ◌≡◌, refl, true, false, Bool, List, [], ◌∷◌, any, All, ok, some,
  ◌||◌, err, pos, ℕ, arith, is_ok, if◌then◌else◌,
}
use wireproxy.Config.Types.{ResolveConfig}
use wireproxy.Host.{Host, Addr, ascii_lower}
use wireproxy.Health.{is_overdue}
use wireproxy.Sandbox.Granted.{all_routines}
use wireproxy.Tests.Checking.{specs, granted, specs_locked}
use wireproxy.Tests.Samples.{host, v4}
use wireproxy.Text.HostPort.{has_bracket, join_host_port}
use wireproxy.Text.Numbers.{itoa}
use wireproxy.Text.Strings.{contains_byte, trim_space, trim_suffix}
use wireproxy.Tailnet.{Peer, plain_name, lookup_context_host}
use wireproxy.Tailnet.Domain.{IsUnder, lookup_context_host-IsUnder}
use wireproxy.Text.{Text, codes, text_eq}
use wireproxy.Traffic.{dialed, resolved, connected, forwarding, IsTidy, dials}
use wireproxy.Router.{tunnel, direct}
use wireproxy.Tunnel.Address.Family.{
  is_v4, is_v6, resolve_addr_with_context-Preferred, is_ok-resolve_addr_with_context,
}
use wireproxy.Tunnel.Address.Port.{parse_address_port-join_host_port}
use wireproxy.Tunnel.Spawn.Confined.{IsAllowed, lock_network-IsAllowed}
use wireproxy.Tunnel.Spawn.{spawn_routine}
use wireproxy.Tunnel.Address.Sorted.{Preferred, some_address}
use wireproxy.Tunnel.Address.{
  AddressPort, parse_address_port, Resolver, lookup_addr, resolve_addr_with_context,
  resolve_to_addr_port,
}
use wireproxy.Tunnel.Forward.Tidy.{only_at, forward-IsTidy}
use wireproxy.Tunnel.Forward.{Dialers, tcp_client_forward, tcp_server_forward, stdio_tcp_forward}
use wireproxy.Tunnel.Ping.History.{last_pong}
use wireproxy.Tunnel.Ping.{Probe, echo, nothing, is_pong}

no_bracket : has_bracket (codes "fd00::1") ≡ false
unfolding contains_byte
no_bracket = refl

parse_address_port-join_host_port_example :
    parse_address_port (join_host_port (codes "fd00::1") (itoa (pos 8080)))
    ≡ ok (record { address = codes "fd00::1"; port = 8080 })
parse_address_port-join_host_port_example =
    parse_address_port-join_host_port (codes "fd00::1") 8080 no_bracket (omega arith)

lock_network-IsAllowed_example :
    All (λ r. IsAllowed granted (spawn_routine (λ addr. true) r)) (all_routines specs)
lock_network-IsAllowed_example =
    lock_network-IsAllowed (λ addr. true) specs (codes "localhost:9080") granted specs_locked

abbrev v6 : Text → Addr
v6 s = record { is_4 = false; is_6 = true; string = s }

-- A name with one address of either family.
abbrev answers : List Text
answers = codes "fd00::9" ∷ codes "fe80" ∷ codes "10.0.0.9" ∷ []

abbrev dual_host : Host
dual_host = record host {
  parse_addr = λ s.
      if text_eq s (codes "fd00::9")
      then ok (v6 s)
      else if text_eq s (codes "10.0.0.9")
      then ok (v4 s)
      else err (codes "unable to parse IP");
}

abbrev resolver : Resolver
resolver = record {
  system_dns = false;
  system_lookup = λ name. err (codes "no such host");
  net_lookup = λ name. ok answers;
  shuffle = λ addrs. addrs;
}

abbrev automatic : ResolveConfig
automatic = record { resolve_strategy = codes "auto" }

abbrev name : Text
name = codes "vpn.example"

name_resolves :
    resolve_addr_with_context dual_host resolver automatic name ≡ ok (v4 (codes "10.0.0.9"))
unfolding resolve_addr_with_context text_eq
name_resolves = refl

name_looked_up : lookup_addr resolver name ≡ ok answers
unfolding lookup_addr
name_looked_up = refl

resolve_addr_with_context-Preferred_example :
    Preferred dual_host.parse_addr is_v4 is_v6 answers (v4 (codes "10.0.0.9"))
unfolding text_eq
resolve_addr_with_context-Preferred_example =
    resolve_addr_with_context-Preferred dual_host resolver (λ p xs. refl) answers automatic name
      (v4 (codes "10.0.0.9")) name_looked_up name_resolves

is_ok-resolve_addr_with_context_example :
    is_ok (resolve_addr_with_context dual_host resolver automatic name)
    ≡ some_address dual_host.parse_addr (λ a. is_v4 a || is_v6 a) answers
is_ok-resolve_addr_with_context_example =
    is_ok-resolve_addr_with_context dual_host resolver (λ p xs. refl) answers automatic name
      name_looked_up

abbrev reachable : Dialers
reachable = record { tunnel = λ target. true; system = λ target. false }

abbrev target : AddressPort
target = record { address = name; port = 22 }

target_forwarded :
    tcp_client_forward dual_host resolver automatic reachable target
    ≡ dialed (resolved tunnel (codes "10.0.0.9") 22) ∷ connected ∷ forwarding ∷ []
unfolding tcp_client_forward resolve_to_addr_port text_eq
target_forwarded = refl

forward-IsTidy_example :
    IsTidy (tcp_client_forward dual_host resolver automatic reachable target)
    × IsTidy (tcp_server_forward dual_host resolver automatic reachable target)
    × (dials (tcp_client_forward dual_host resolver automatic reachable target)
        ≡ only_at tunnel 22 (resolve_addr_with_context dual_host resolver automatic name))
    × (dials (tcp_server_forward dual_host resolver automatic reachable target)
        ≡ only_at direct 22 (resolve_addr_with_context dual_host resolver automatic name))
    × (dials (stdio_tcp_forward dual_host resolver automatic reachable target)
        ≡ only_at tunnel 22 (resolve_addr_with_context dual_host resolver automatic name))
forward-IsTidy_example = forward-IsTidy dual_host resolver automatic reachable target

abbrev checked : List Addr
checked = v4 (codes "10.0.0.1") ∷ v4 (codes "10.0.0.2") ∷ []

-- One address answers, the other does not.
abbrev probe_of : Text → Bool → Probe
probe_of addr is_answered = record {
  addr = v4 addr;
  request = record { seq = 7; payload = codes "0123456789abcdef" };
  is_dialed = true;
  writes = true;
  reply =
      if is_answered
      then echo (record { seq = 7; payload = codes "0123456789abcdef" })
      else nothing;
}

abbrev ends : List (ℕ × Probe)
ends = (15, probe_of (codes "10.0.0.1") true) ∷ (16, probe_of (codes "10.0.0.2") false) ∷ []

-- The address that has not answered since the start makes the connection stale.
one_is_stale :
    any
      (λ (a : Addr). ltb ((last_pong a.string 10 ends + 5 + 2) * 1_000_000_000) 20_000_000_000)
      checked
    ≡ true
unfolding text_eq is_pong
one_is_stale = refl

-- An interval of 292 years wraps: a pong that has just come is overdue at once.
huge_is_overdue : is_overdue 20_000_000_000 (pos 9_223_372_036) 20 ≡ true
huge_is_overdue = refl

usual_is_not : is_overdue 20_000_000_000 (pos 5) 20 ≡ false
usual_is_not = refl

abbrev peer_of : Text → Text → Peer
peer_of dns_name ip = record { dns_name = dns_name; host_name = []; ips = ip ∷ [] }

abbrev peers : List Peer
peers =
    peer_of (codes "box.tail1.ts.net.") (codes "100.64.0.1")
    ∷ peer_of (codes "Laptop.tail1.ts.net.") (codes "100.64.0.2")
    ∷ []

abbrev no_system : Text → Outcome Text (List Text)
no_system unknown = err (codes "no such host")

peers-IsUnder :
    All (IsUnder ascii_lower (plain_name ascii_lower (trim_space (codes " Tail1.ts.net.")))) peers
unfolding plain_name trim_space trim_suffix
peers-IsUnder = ((codes "box", refl), ((codes "laptop", refl), tt))

lookup_context_host-IsUnder_example :
    lookup_context_host ascii_lower (some (map some peers)) no_system (codes " Tail1.ts.net.")
    ≡ ok (codes "100.64.0.1" ∷ codes "100.64.0.2" ∷ [])
lookup_context_host-IsUnder_example =
    lookup_context_host-IsUnder ascii_lower no_system (codes " Tail1.ts.net.") peers peers-IsUnder
      refl
