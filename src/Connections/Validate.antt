-- ===== src/Connections/Validate.antt =====
-- `ValidateConnections`: one pass over the connections that fills the maps and collects the
-- listeners, and then a comparison of every pair of listeners. A map is an association list, a
-- set a list; both are searched, and only ever added to.
pub mod Step
pub mod Identity
pub mod Listeners
pub mod Supported
pub mod Ports
pub mod Rounds
pub mod Dirs
pub mod Complete
pub mod Exact
use wireproxy.Base.{
  ℕ, Bool, true, false, not, ◌&&◌, ◌||◌, Option, none, some, List, [], ◌∷◌, ◌++◌, map, Outcome, ok,
  err, ◌>>=◌, ◌>>◌, ensure, ℤ, pos, eq_ℤ, is_empty, any, is_some, if◌then◌else◌,
}
use wireproxy.Config.Types.{
  ConnectionSpec, TailscaleConfig, DeviceConfig, Routine, tcp_client, stdio, tcp_server, socks5,
  http, sni, udp_proxy,
}
use wireproxy.Connections.Name.{matches_name_pattern}
use wireproxy.Connections.StateDir.{effective_state_dir}
use wireproxy.Host.{Host}
use wireproxy.Text.HostPort.{split_host_port}
use wireproxy.Text.Numbers.{atoi, itoa}
use wireproxy.Text.{Text, codes, text_eq}

-- The local type `bind`.
pub record Bind : Type 0 where
  pub kind : Text
  pub host : Text
  pub port : Text
  pub owner : Text

-- One constructor for each message; names first, then what the message shows.
pub data Refusal : Type 0 where
  invalid_address : Text → Refusal
  bad_name duplicate_name : Text → Refusal
  same_hostname : Text → Text → Text → Refusal
  same_state_dir : Text → Text → Text → Refusal
  two_backends : Text → Refusal
  same_listen_port : Text → Text → ℤ → Refusal
  udp_on_tailscale : Text → Refusal
  server_port_twice : Text → ℤ → Refusal
  bad_target : Text → Text → Refusal
  shared_port : Bind → Bind → Refusal

-- The maps and the listeners found so far.
pub record Seen : Type 0 where
  pub names : List Text
  pub hostnames : List (Text × Text)
  pub state_dirs : List (Text × Text)
  pub listen_ports : List (ℤ × Text)
  pub binds : List Bind

unfoldable pub normalize_port : Text → Text
unfolding atoi itoa
normalize_port port = elim (atoi port) [ none ↦ port | some n ↦ itoa n ]

abbrev pub is_wildcard_host : Text → Bool
is_wildcard_host host =
    text_eq host [] || text_eq host (codes "0.0.0.0") || text_eq host (codes "::")

-- `addBind`, on the listeners alone
unfoldable pub add_bind : Text → Text → Text → List Bind → Outcome Refusal (List Bind)
unfolding normalize_port split_host_port
add_bind kind addr owner binds = elim (split_host_port addr) [
  | none ↦ err (invalid_address addr)
  | some (host, port) ↦
      ok (
        binds
        ++ record { kind = kind; host = host; port = normalize_port port; owner = owner } ∷ [])
]

abbrev pub is_in : Text → List Text → Bool
is_in t ts = any (λ u. text_eq u t) ts

abbrev pub is_in_ℤ : ℤ → List ℤ → Bool
is_in_ℤ n ns = any (λ m. eq_ℤ m n) ns

-- `m[key]`, for text keys and for ports
abbrev pub find : Text → List (Text × Text) → Option Text
find key [] = none
find key ((k, v) ∷ m) = let rest = find key m in if text_eq k key then some v else rest

abbrev pub find_port : ℤ → List (ℤ × Text) → Option Text
find_port key [] = none
find_port key ((k, v) ∷ m) = let rest = find_port key m in if eq_ℤ k key then some v else rest

unfoldable pub check_name : Text → Seen → Outcome Refusal Seen
check_name name seen = do
  ensure (not (is_empty name) && matches_name_pattern name) (bad_name name)
  ensure (not (is_in name seen.names)) (duplicate_name name)
  ok (record seen { names = name ∷ seen.names })

-- Refuse where the map has the key and the test holds.
abbrev unless_found : Option Text → Bool → (Text → Refusal) → Outcome Refusal (Unit {0})
unless_found none test refusal = ok tt
unless_found (some prev) test refusal = if test then err (refusal prev) else ok tt

unfoldable pub check_tailscale :
    Host → Text → Option TailscaleConfig → Option DeviceConfig → Seen → Outcome Refusal Seen
unfolding effective_state_dir
check_tailscale host name none device seen = ok seen
check_tailscale host name (some c) device seen = do
  let hostname = map host.lower c.hostname
  unless_found (find hostname seen.hostnames) true (λ prev. same_hostname prev name hostname)
  let dir = effective_state_dir host c name
  unless_found (find dir seen.state_dirs) (not (is_empty dir))
      (λ prev. same_state_dir prev name dir)
  ensure (not (is_some device)) (two_backends name)
  ok (record seen {
    hostnames = (hostname, name) ∷ seen.hostnames;
    state_dirs = (dir, name) ∷ seen.state_dirs;
  })

abbrev pub device_port : Option DeviceConfig → Option ℤ
device_port none = none
device_port (some device) = device.listen_port

unfoldable pub check_listen_port : Text → Option ℤ → Seen → Outcome Refusal Seen
check_listen_port name none seen = ok seen
check_listen_port name (some port) seen = do
  unless_found (find_port port seen.listen_ports) true (λ prev. same_listen_port prev name port)
  ok (record seen { listen_ports = (port, name) ∷ seen.listen_ports })

-- One round of the loop over the routines, on the local set `listenPorts` and the listeners.
unfoldable pub check_routine :
    Text → Bool → Routine → List ℤ × List Bind → Outcome Refusal (List ℤ × List Bind)
unfolding add_bind split_host_port
check_routine name on_tailscale (tcp_client c) (ports, binds) = do
  more ← add_bind (codes "tcp") c.bind_address.string name binds
  ok (ports, more)
check_routine name on_tailscale (socks5 c) (ports, binds) = do
  more ← add_bind (codes "tcp") c.bind_address name binds
  ok (ports, more)
check_routine name on_tailscale (http c) (ports, binds) = do
  more ← add_bind (codes "tcp") c.bind_address name binds
  ok (ports, more)
check_routine name on_tailscale (sni c) (ports, binds) = do
  more ← add_bind (codes "tcp") c.bind_address name binds
  ok (ports, more)
check_routine name on_tailscale (udp_proxy c) (ports, binds) = do
  ensure (not on_tailscale) (udp_on_tailscale name)
  more ← add_bind (codes "udp") c.bind_address name binds
  ok (ports, more)
check_routine name on_tailscale (tcp_server c) (ports, binds) = do
  ensure (not (is_in_ℤ c.listen_port ports)) (server_port_twice name c.listen_port)
  ensure (is_some (split_host_port c.target)) (bad_target name c.target)
  ok (c.listen_port ∷ ports, binds)
check_routine name on_tailscale (stdio c) (ports, binds) = ok (ports, binds)

unfoldable pub check_routines :
    Text → Bool → List Routine → List ℤ × List Bind → Outcome Refusal (List ℤ × List Bind)
unfolding check_routine
check_routines name on_tailscale [] state = ok state
check_routines name on_tailscale (r ∷ rs) state = do
  next ← check_routine name on_tailscale r state
  check_routines name on_tailscale rs next

-- One round of the loop over the connections.
unfoldable pub check_spec : Host → ConnectionSpec → Seen → Outcome Refusal Seen
unfolding check_name check_tailscale check_listen_port check_routines
check_spec host spec seen = do
  named ← check_name spec.name seen
  noded ← check_tailscale host spec.name spec.conf.tailscale spec.conf.device named
  ported ← check_listen_port spec.name (device_port spec.conf.device) noded
  state ←
      check_routines spec.name (is_some spec.conf.tailscale) spec.conf.routines ([], ported.binds)
  ok (record ported { binds = state.1 })

unfoldable pub check_specs : Host → List ConnectionSpec → Seen → Outcome Refusal Seen
unfolding check_spec
check_specs host [] seen = ok seen
check_specs host (spec ∷ specs) seen = do
  next ← check_spec host spec seen
  check_specs host specs next

-- The test of the last two loops.
unfoldable pub conflicts : Bind → Bind → Bool
conflicts a b =
    text_eq a.kind b.kind
    && text_eq a.port b.port
    && (text_eq a.host b.host || is_wildcard_host a.host || is_wildcard_host b.host)

unfoldable pub check_against : Bind → List Bind → Outcome Refusal (Unit {0})
unfolding conflicts
check_against a [] = ok tt
check_against a (b ∷ bs) = do ensure (not (conflicts a b)) (shared_port a b); check_against a bs

unfoldable pub check_binds : List Bind → Outcome Refusal (Unit {0})
unfolding check_against
check_binds [] = ok tt
check_binds (b ∷ bs) = do check_against b bs; check_binds bs

-- The listener of `--info`, if there is one.
unfoldable pub info_binds : Text → Outcome Refusal (List Bind)
unfolding add_bind
info_binds info_addr =
    if is_empty info_addr
    then ok []
    else add_bind (codes "tcp") info_addr (codes "<health endpoint>") []

abbrev pub nothing_seen : List Bind → Seen
nothing_seen binds = record {
  names = [];
  hostnames = [];
  state_dirs = [];
  listen_ports = [];
  binds = binds;
}

unfoldable pub validate_connections : Host → List ConnectionSpec → Text → Outcome Refusal (Unit {0})
unfolding info_binds check_specs check_binds
validate_connections host specs info_addr = do
  binds ← info_binds info_addr
  seen ← check_specs host specs (nothing_seen binds)
  check_binds seen.binds
