-- ===== src/Connections/Validate/Step.antt =====
-- What one round of the loop over the connections checks and records.
use wireproxy.Base.Fresh.{IsFresh, cons?}
use wireproxy.Base.{
  ◌≡◌, refl, sym, ap, ◌∙◌, true, false, not, ◌&&◌, Option, none, some, List, [], ◌∷◌, map, ok,
  ensure, >>=-eq-ok, ensure-eq-ok, ℤ, eq_ℤ, is_empty, any, is_some, inl, inr, Bool-cases, arith,
}
use wireproxy.Config.Types.{ConnectionSpec, TailscaleConfig, DeviceConfig}
use wireproxy.Connections.Name.{matches_name_pattern}
use wireproxy.Connections.StateDir.{effective_state_dir}
use wireproxy.Connections.Validate.{
  Seen, Refusal, check_name, check_tailscale, check_listen_port, check_routines, check_spec, find,
  find_port, unless_found, device_port, is_in, two_backends, bad_name, duplicate_name,
}
use wireproxy.Host.{Host}
use wireproxy.Text.{Text, text_eq}

-- The name that a connection registers in the tailnet, if it is a Tailscale connection.
abbrev pub node_hostname : Host → Option TailscaleConfig → Option Text
node_hostname host none = none
node_hostname host (some c) = some (map host.lower c.hostname)

abbrev pub text_keys : List (Text × Text) → List Text
text_keys [] = []
text_keys ((k, v) ∷ m) = k ∷ text_keys m

abbrev pub port_keys : List (ℤ × Text) → List ℤ
port_keys [] = []
port_keys ((k, v) ∷ m) = k ∷ port_keys m

abbrev pub OneBackend : Option TailscaleConfig → Option DeviceConfig → Type 0
OneBackend none device = Unit
OneBackend (some c) device = device ≡ none

fresh_of_find :
    (k : Text) (m : List (Text × Text)) → find k m ≡ none → is_in k (text_keys m) ≡ false
fresh_of_find k [] h = refl
fresh_of_find k ((j, v) ∷ m) h = ground (arith, fresh_of_find k m)

fresh_of_find_port :
    (k : ℤ) (m : List (ℤ × Text)) → find_port k m ≡ none → any (λ j. eq_ℤ j k) (port_keys m) ≡ false
fresh_of_find_port k [] h = refl
fresh_of_find_port k ((j, v) ∷ m) h = elim (Bool-cases (eq_ℤ j k)) [
  | inl same ↦ absurd (ground arith)
  | inr other ↦ rw other (fresh_of_find_port k m (rw (other) at h))
]

missing_of_unless :
    (o : Option Text) (refusal : Text → Refusal) {u : Unit {0}}
    → unless_found o true refusal ≡ ok u
    → o ≡ none
missing_of_unless none refusal h = refl
missing_of_unless (some prev) refusal h = cc

-- The facts that a successful round leaves, with the maps as their keys.
pub record Checked (host : Host) (spec : ConnectionSpec) (seen next : Seen) : Type 0 where
  pub pattern : matches_name_pattern spec.name ≡ true
  pub new_name : is_in spec.name seen.names ≡ false
  pub names : next.names ≡ spec.name ∷ seen.names
  pub new_hostname :
      IsFresh text_eq (node_hostname host spec.conf.tailscale) (text_keys seen.hostnames)
  pub hostnames :
      text_keys next.hostnames
      ≡ cons? (node_hostname host spec.conf.tailscale) (text_keys seen.hostnames)
  pub one_backend : OneBackend spec.conf.tailscale spec.conf.device
  pub new_port : IsFresh eq_ℤ (device_port spec.conf.device) (port_keys seen.listen_ports)
  pub ports :
      port_keys next.listen_ports
      ≡ cons? (device_port spec.conf.device) (port_keys seen.listen_ports)
  pub routines :
      (ports : List ℤ) × (check_routines spec.name
          (is_some spec.conf.tailscale)
          spec.conf.routines
          ([], seen.binds)
        ≡ ok (ports, next.binds))

pub check_name_lem :
    (name : Text) (seen next : Seen)
    → check_name name seen ≡ ok next
    → (matches_name_pattern name ≡ true)
      × (is_in name seen.names ≡ false)
      × (next ≡ record seen { names = name ∷ seen.names })
unfolding check_name
check_name_lem name seen next h =
    let (u, p, h1) =
      >>=-eq-ok (ensure (not (is_empty name) && matches_name_pattern name) (bad_name name)) _ h in
    let (v, q, h2) = >>=-eq-ok (ensure (not (is_in name seen.names)) (duplicate_name name)) _ h1 in
    let valid = ensure-eq-ok _ _ p in
    let fresh = ensure-eq-ok _ _ q in
    (ground (arith, valid), ground (arith, fresh), ground (arith, h2))

pub check_tailscale_lem :
    (host : Host) (name : Text) (node : Option TailscaleConfig) (device : Option DeviceConfig)
    (seen next : Seen)
    → check_tailscale host name node device seen ≡ ok next
    → IsFresh text_eq (node_hostname host node) (text_keys seen.hostnames)
      × (text_keys next.hostnames ≡ cons? (node_hostname host node) (text_keys seen.hostnames))
      × OneBackend node device
      × (next.names ≡ seen.names)
      × (next.listen_ports ≡ seen.listen_ports)
      × (next.binds ≡ seen.binds)
unfolding check_tailscale
check_tailscale_lem host name none device seen next h =
    (tt, ground arith, tt, ground arith, ground arith, ground arith)
check_tailscale_lem host name (some c) device seen next h =
    let hostname = map host.lower c.hostname in
    let dir = effective_state_dir host c name in
    let (u, p, h1) = >>=-eq-ok (unless_found (find hostname seen.hostnames) true _) _ h in
    let (v, q, h2) =
      >>=-eq-ok (unless_found (find dir seen.state_dirs) (not (is_empty dir)) _) _ h1 in
    let (w, r, h3) = >>=-eq-ok (ensure (not (is_some device)) (two_backends name)) _ h2 in
    let alone = ensure-eq-ok (not (is_some device)) _ r in
    (
      fresh_of_find hostname seen.hostnames (missing_of_unless _ _ p),
      ground (arith, h3),
      ground (arith, alone),
      ground (arith, h3),
      ground (arith, h3),
      ground (arith, h3),
    )

pub check_listen_port_lem :
    (name : Text) (port : Option ℤ) (seen next : Seen)
    → check_listen_port name port seen ≡ ok next
    → IsFresh eq_ℤ port (port_keys seen.listen_ports)
      × (port_keys next.listen_ports ≡ cons? port (port_keys seen.listen_ports))
      × (next.names ≡ seen.names)
      × (next.hostnames ≡ seen.hostnames)
      × (next.binds ≡ seen.binds)
unfolding check_listen_port
check_listen_port_lem name none seen next h =
    (tt, ground arith, ground arith, ground arith, ground arith)
check_listen_port_lem name (some port) seen next h =
    let (u, p, h1) = >>=-eq-ok (unless_found (find_port port seen.listen_ports) true _) _ h in
    (
      fresh_of_find_port port seen.listen_ports (missing_of_unless _ _ p),
      ground (arith, h1),
      ground (arith, h1),
      ground (arith, h1),
      ground (arith, h1),
    )

pub check_spec-Checked :
    (host : Host) (spec : ConnectionSpec) (seen next : Seen)
    → check_spec host spec seen ≡ ok next
    → Checked host spec seen next
unfolding check_spec
check_spec-Checked host spec seen next h =
    let (named, p0, h0) = >>=-eq-ok (check_name spec.name seen) _ h in
    let (noded, p1, h1) =
      >>=-eq-ok (check_tailscale host spec.name spec.conf.tailscale spec.conf.device named) _ h0 in
    let (ported, p2, h2) =
      >>=-eq-ok (check_listen_port spec.name (device_port spec.conf.device) noded) _ h1 in
    let (state, p3, h3) =
      >>=-eq-ok
        (check_routines spec.name (is_some spec.conf.tailscale) spec.conf.routines
          ([], ported.binds))
        _ h2 in
    let (pattern, new_name, e0) = check_name_lem spec.name seen named p0 in
    let (new_host, hosts, one, n1, l1, b1) =
      check_tailscale_lem host spec.name spec.conf.tailscale spec.conf.device named noded p1 in
    let (new_port, ports, n2, t2, b2) =
      check_listen_port_lem spec.name (device_port spec.conf.device) noded ported p2 in
    let e3 : record ported { binds = state.1 } ≡ next = ground arith in
    let same_hosts : named.hostnames ≡ seen.hostnames = ap (λ s. s.hostnames) e0 in
    let same_ports : noded.listen_ports ≡ seen.listen_ports = l1 ∙ ap (λ s. s.listen_ports) e0 in
    let same_binds : ported.binds ≡ seen.binds = b2 ∙ b1 ∙ ap (λ s. s.binds) e0 in
    record {
      pattern = pattern;
      new_name = new_name;
      names = sym (ap (λ s. s.names) e3) ∙ n2 ∙ n1 ∙ ap (λ s. s.names) e0;
      new_hostname = rw (← same_hosts) new_host;
      hostnames =
          sym (ap (λ s. text_keys s.hostnames) e3)
          ∙ ap text_keys t2
          ∙ hosts
          ∙ ap (λ m. cons? (node_hostname host spec.conf.tailscale) (text_keys m)) same_hosts;
      one_backend = one;
      new_port = rw (← same_ports) new_port;
      ports =
          sym (ap (λ s. port_keys s.listen_ports) e3)
          ∙ ports
          ∙ ap (λ m. cons? (device_port spec.conf.device) (port_keys m)) same_ports;
      routines = (
        state.0,
        ap (λ b. check_routines spec.name (is_some spec.conf.tailscale) spec.conf.routines ([], b))
              (sym same_binds)
            ∙ p3
            ∙ ap (λ s. ok (state.0, s.binds)) e3,
      );
    }
