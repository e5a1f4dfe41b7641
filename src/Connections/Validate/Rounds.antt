-- ===== src/Connections/Validate/Rounds.antt =====
-- When the parts of one round of `ValidateConnections` succeed.
use wireproxy.Base.Fresh.{IsFresh, FreshRun}
use wireproxy.Base.{
  ◌≡◌, refl, Bool, true, false, Option, none, some, List, [], ◌∷◌, map, ok, ℤ, eq_ℤ, any, is_empty,
  is_some, inl, inr, Option-cases, Outcome-cases, ◌>>=◌, if◌then◌else◌, Bool-cases, All, arith,
}
use wireproxy.Config.Types.{
  TailscaleConfig, DeviceConfig, Routine, tcp_client, stdio, tcp_server, socks5, http, sni,
  udp_proxy,
}
use wireproxy.Connections.Name.{matches_name_pattern}
use wireproxy.Connections.StateDir.{effective_state_dir}
use wireproxy.Connections.Validate.Listeners.{HasAddress}
use wireproxy.Connections.Validate.Step.{node_hostname, text_keys, port_keys, OneBackend}
use wireproxy.Connections.Validate.Supported.{server_port, IsAllowed, check_routine_lem}
use wireproxy.Connections.Validate.{
  Seen, Bind, add_bind, check_name, check_tailscale, check_listen_port, check_routine,
  check_routines, find, find_port, is_in,
}
use wireproxy.Host.{Host}
use wireproxy.Text.HostPort.{split_host_port}
use wireproxy.Text.{Text, codes, text_eq}

find-fresh : (k : Text) (m : List (Text × Text)) → is_in k (text_keys m) ≡ false → find k m ≡ none
find-fresh k [] h = refl
find-fresh k ((j, v) ∷ m) h = ground (arith, find-fresh k m)

find_port-fresh :
    (k : ℤ) (m : List (ℤ × Text)) → any (λ j. eq_ℤ j k) (port_keys m) ≡ false → find_port k m ≡ none
find_port-fresh k [] h = refl
find_port-fresh k ((j, v) ∷ m) h = elim (Bool-cases (eq_ℤ j k)) [
  | inl same ↦ absurd (ground arith)
  | inr other ↦ rw other (find_port-fresh k m (rw other at h))
]

pub check_name-ok :
    (name : Text) (seen : Seen)
    → matches_name_pattern name ≡ true
    → is_in name seen.names ≡ false
    → check_name name seen ≡ ok (record seen { names = name ∷ seen.names })
unfolding check_name matches_name_pattern
check_name-ok [] seen h fresh = absurd (ground arith)
check_name-ok (c ∷ s) seen h fresh = rw h (rw fresh refl)

-- What a Tailscale connection and a listen port record.
abbrev pub with_node : Host → Text → Option TailscaleConfig → Seen → Seen
with_node host name none seen = seen
with_node host name (some c) seen = record seen {
  hostnames = (map host.lower c.hostname, name) ∷ seen.hostnames;
  state_dirs = (effective_state_dir host c name, name) ∷ seen.state_dirs;
}

abbrev pub with_port : Text → Option ℤ → Seen → Seen
with_port name none seen = seen
with_port name (some port) seen = record seen { listen_ports = (port, name) ∷ seen.listen_ports }

-- The state directory that must be new, if there is one.
abbrev pub state_dir : Host → Text → Option TailscaleConfig → Option Text
state_dir host name none = none
state_dir host name (some c) =
    let dir = effective_state_dir host c name in if is_empty dir then none else some dir

-- The directory is not in the map.
abbrev pub IsUnused : Option Text → List (Text × Text) → Type 0
IsUnused none m = Unit
IsUnused (some dir) m = find dir m ≡ none

pub check_tailscale-ok :
    (host : Host) (name : Text) (node : Option TailscaleConfig) (device : Option DeviceConfig)
    (seen : Seen)
    → IsFresh text_eq (node_hostname host node) (text_keys seen.hostnames)
    → IsUnused (state_dir host name node) seen.state_dirs
    → OneBackend node device
    → check_tailscale host name node device seen ≡ ok (with_node host name node seen)
unfolding check_tailscale
check_tailscale-ok host name none device seen f d o = refl
check_tailscale-ok host name (some c) device seen f d o =
    let dir = effective_state_dir host c name in
    rw (find-fresh (map host.lower c.hostname) seen.hostnames f) (elim (Bool-cases (is_empty dir)) [
      | inl empty ↦ elim (Option-cases (find dir seen.state_dirs)) [
        | inl new ↦ rw new (rw o refl)
        | inr (prev, used) ↦ rw used (rw empty (rw o refl))
      ]
      | inr given ↦
          let new : find dir seen.state_dirs ≡ none = unused dir given d in rw new (rw o refl)
    ])
  where
    unused :
        (dir : Text)
        → is_empty dir ≡ false
        → IsUnused (if is_empty dir then none else some dir) seen.state_dirs
        → find dir seen.state_dirs ≡ none
    unused [] given d = cc
    unused (b ∷ dir) given d = d

pub check_listen_port-ok :
    (name : Text) (port : Option ℤ) (seen : Seen)
    → IsFresh eq_ℤ port (port_keys seen.listen_ports)
    → check_listen_port name port seen ≡ ok (with_port name port seen)
unfolding check_listen_port
check_listen_port-ok name none seen f = refl
check_listen_port-ok name (some port) seen f = rw (find_port-fresh port seen.listen_ports f) refl

pub add_bind-ok :
    (kind addr owner : Text) (binds : List Bind)
    → is_some (split_host_port addr) ≡ true
    → (more : List Bind) × (add_bind kind addr owner binds ≡ ok more)
unfolding add_bind
add_bind-ok kind addr owner binds h = elim (Outcome-cases (add_bind kind addr owner binds)) [
  | inl found ↦ found
  | inr (e, bad) ↦ elim (Option-cases (split_host_port addr)) [
    | inl none' ↦ absurd (ground arith)
    | inr ((host, port), good) ↦ absurd (ground arith)
  ]
]

bound-ok :
    (kind addr owner : Text) (ports : List ℤ) (binds : List Bind)
    → is_some (split_host_port addr) ≡ true
    → (next : List ℤ × List Bind) × (◌>>=◌ {B = List ℤ × List Bind}
          (add_bind kind addr owner binds)
          (λ more. ok (ports, more))
        ≡ ok next)
bound-ok kind addr owner ports binds h =
    let (more, e) = add_bind-ok kind addr owner binds h in ((ports, more), rw e refl)

check_routine-ok :
    (name : Text) (t : Bool) (r : Routine) (ports : List ℤ) (binds : List Bind)
    → HasAddress r
    → IsAllowed t r
    → IsFresh eq_ℤ (server_port r) ports
    → (next : List ℤ × List Bind) × (check_routine name t r (ports, binds) ≡ ok next)
unfolding check_routine
check_routine-ok name t (tcp_client c) ports binds a l f =
    bound-ok (codes "tcp") c.bind_address.string name ports binds a
check_routine-ok name t (socks5 c) ports binds a l f =
    bound-ok (codes "tcp") c.bind_address name ports binds a
check_routine-ok name t (http c) ports binds a l f =
    bound-ok (codes "tcp") c.bind_address name ports binds a
check_routine-ok name t (sni c) ports binds a l f =
    bound-ok (codes "tcp") c.bind_address name ports binds a
check_routine-ok name t (udp_proxy c) ports binds a l f =
    let (next, e) = bound-ok (codes "udp") c.bind_address name ports binds a in
    (next, ground (arith, l, e))
check_routine-ok name t (tcp_server c) ports binds a l f =
    ((c.listen_port ∷ ports, binds), ground (arith, f, l))
check_routine-ok name t (stdio c) ports binds a l f = ((ports, binds), refl)

pub check_routines-ok :
    (name : Text) (t : Bool) (rs : List Routine) (ports : List ℤ) (binds : List Bind)
    → All HasAddress rs
    → All (IsAllowed t) rs
    → FreshRun eq_ℤ server_port ports rs
    → (last : List ℤ × List Bind) × (check_routines name t rs (ports, binds) ≡ ok last)
unfolding check_routines
check_routines-ok name t [] ports binds a l f = ((ports, binds), refl)
check_routines-ok name t (r ∷ rs) ports binds (a, as') (l, ls) (f, fs) =
    let ((ports1, binds1), e) = check_routine-ok name t r ports binds a l f in
    let (allowed, fresh, grown) = check_routine_lem name t r ports binds e in
    let (last, later) = check_routines-ok name t rs ports1 binds1 as' ls (rw (← grown) at fs) in
    (last, rw e later)
