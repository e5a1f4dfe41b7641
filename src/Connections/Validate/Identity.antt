-- ===== src/Connections/Validate/Identity.antt =====
-- Validated connections are told apart: by name, by tailnet hostname and by WireGuard port.
use wireproxy.Base.Fresh.{FreshRun, NoRepeat, keys_of, FreshRun-NoRepeat}
use wireproxy.Base.{◌≡◌, true, Option, some, List, [], ◌∷◌, ok, >>=-eq-ok, ℤ, eq_ℤ, All}
use wireproxy.Config.Types.{ConnectionSpec}
use wireproxy.Connections.Name.{matches_name_pattern}
use wireproxy.Connections.Validate.Step.{
  check_spec-Checked, node_hostname, text_keys, port_keys, OneBackend,
}
use wireproxy.Connections.Validate.{
  Seen, check_spec, check_specs, info_binds, nothing_seen, validate_connections, device_port,
}
use wireproxy.Host.{Host}
use wireproxy.Text.{Text, text_eq}

-- The keys by which connections are told apart.
abbrev pub name_of : ConnectionSpec → Option Text
name_of spec = some spec.name

abbrev pub hostname_of : Host → ConnectionSpec → Option Text
hostname_of host spec = node_hostname host spec.conf.tailscale

abbrev pub port_of : ConnectionSpec → Option ℤ
port_of spec = device_port spec.conf.device

pub record ToldApart (host : Host) (specs : List ConnectionSpec) : Type 0 where
  pub patterns : All (λ spec. matches_name_pattern spec.name ≡ true) specs
  pub one_backend : All (λ spec. OneBackend spec.conf.tailscale spec.conf.device) specs
  pub names : NoRepeat text_eq (keys_of name_of specs)
  pub hostnames : NoRepeat text_eq (keys_of (hostname_of host) specs)
  pub ports : NoRepeat eq_ℤ (keys_of port_of specs)

-- The same, loop by loop, from what has been seen.
record Runs (host : Host) (specs : List ConnectionSpec) (seen : Seen) : Type 0 where
  patterns : All (λ spec. matches_name_pattern spec.name ≡ true) specs
  one_backend : All (λ spec. OneBackend spec.conf.tailscale spec.conf.device) specs
  names : FreshRun text_eq name_of seen.names specs
  hostnames : FreshRun text_eq (hostname_of host) (text_keys seen.hostnames) specs
  ports : FreshRun eq_ℤ port_of (port_keys seen.listen_ports) specs

check_specs-Runs :
    (host : Host) (specs : List ConnectionSpec) (seen last : Seen)
    → check_specs host specs seen ≡ ok last
    → Runs host specs seen
unfolding check_specs
check_specs-Runs host [] seen last h = record {
  patterns = tt;
  one_backend = tt;
  names = tt;
  hostnames = tt;
  ports = tt;
}
check_specs-Runs host (spec ∷ specs) seen last h =
    let (next, done, later) = >>=-eq-ok (check_spec host spec seen) _ h in
    let c = check_spec-Checked host spec seen next done in
    let r = check_specs-Runs host specs next last later in
    record {
      patterns = (c.pattern, r.patterns);
      one_backend = (c.one_backend, r.one_backend);
      names = (c.new_name, rw c.names at r.names);
      hostnames = (c.new_hostname, rw c.hostnames at r.hostnames);
      ports = (c.new_port, rw c.ports at r.ports);
    }

-- Where validation succeeds, every connection's name matches the pattern and no two are equal, no
-- two Tailscale connections have hostnames that are equal in lower case, no two WireGuard devices
-- listen on one port, and no connection has both backends.
pub validate_connections-ToldApart :
    (host : Host) (specs : List ConnectionSpec) (info_addr : Text) {u : Unit {0}}
    → validate_connections host specs info_addr ≡ ok u
    → ToldApart host specs
unfolding validate_connections
validate_connections-ToldApart host specs info_addr h =
    let (binds, p, h0) = >>=-eq-ok (info_binds info_addr) _ h in
    let (seen, q, h1) = >>=-eq-ok (check_specs host specs (nothing_seen binds)) _ h0 in
    let r = check_specs-Runs host specs (nothing_seen binds) seen q in
    record {
      patterns = r.patterns;
      one_backend = r.one_backend;
      names = (FreshRun-NoRepeat text_eq name_of [] specs r.names).0;
      hostnames = (FreshRun-NoRepeat text_eq (hostname_of host) [] specs r.hostnames).0;
      ports = (FreshRun-NoRepeat eq_ℤ port_of [] specs r.ports).0;
    }
