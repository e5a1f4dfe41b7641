-- ===== src/Connections/Validate/Complete.antt =====
-- `ValidateConnections` on connections against which nothing stands.
use wireproxy.Base.Fresh.{IsFresh, FreshRun, NoRepeat, keys_of, NoRepeat-FreshRun_nil}
use wireproxy.Base.{
  ◌≡◌, refl, ap, ◌∙◌, true, false, ◌||◌, Option, none, some, List, [], ◌∷◌, ◌++◌, ok, eq_ℤ,
  is_empty, is_some, inl, inr, All, Pairwise, arith,
}
use wireproxy.Config.Types.{ConnectionSpec, TailscaleConfig}
use wireproxy.Connections.Name.{matches_name_pattern}
use wireproxy.Connections.Validate.Dirs.{
  dir_of, dirs_after, after_spec-dirs, DirsRun, FreshRun-DirsRun,
}
use wireproxy.Connections.Validate.Identity.{ToldApart, name_of, hostname_of, port_of}
use wireproxy.Connections.Validate.Listeners.{
  HasAddress, Coexist, info_listener, specs_binds, check_specs_lem, info_binds_lem,
}
use wireproxy.Connections.Validate.Rounds.{
  with_node, with_port, IsUnused, check_name-ok, check_tailscale-ok, check_listen_port-ok,
  check_routines-ok, add_bind-ok,
}
use wireproxy.Connections.Validate.Step.{check_spec-Checked, text_keys, port_keys, OneBackend}
use wireproxy.Connections.Validate.Supported.{IsSupported, server_port}
use wireproxy.Connections.Validate.{
  Seen, Bind, check_spec, check_specs, check_against, check_binds, conflicts, info_binds,
  nothing_seen, validate_connections, device_port, is_in,
}
use wireproxy.Host.{Host}
use wireproxy.Text.HostPort.{split_host_port}
use wireproxy.Text.{Text, codes, text_eq, text_eq_iff}

-- What one connection must satisfy beside what has been seen.
record Passes (host : Host) (spec : ConnectionSpec) (seen : Seen) : Type 0 where
  pattern : matches_name_pattern spec.name ≡ true
  new_name : is_in spec.name seen.names ≡ false
  new_hostname : IsFresh text_eq (hostname_of host spec) (text_keys seen.hostnames)
  new_dir : IsUnused (dir_of host spec) seen.state_dirs
  one_backend : OneBackend spec.conf.tailscale spec.conf.device
  new_port : IsFresh eq_ℤ (port_of spec) (port_keys seen.listen_ports)
  addresses : All HasAddress spec.conf.routines
  supported : IsSupported spec

-- The maps behind one connection, without its listeners.
abbrev after_spec : Host → ConnectionSpec → Seen → Seen
after_spec host spec seen =
    with_port spec.name (device_port spec.conf.device) (
      with_node host spec.name spec.conf.tailscale (record seen { names = spec.name ∷ seen.names }))

with_node-listen_ports :
    (host : Host) (name : Text) (node : Option TailscaleConfig) (seen : Seen)
    → (with_node host name node seen).listen_ports ≡ seen.listen_ports
with_node-listen_ports host name none seen = refl
with_node-listen_ports host name (some c) seen = refl

check_spec-ok :
    (host : Host) (spec : ConnectionSpec) (seen : Seen)
    → Passes host spec seen
    → (binds : List Bind) × (check_spec host spec seen
        ≡ ok (record (after_spec host spec seen) { binds = binds }))
unfolding check_spec
check_spec-ok host spec seen p =
    let named : Seen = record seen { names = spec.name ∷ seen.names } in
    let noded : Seen = with_node host spec.name spec.conf.tailscale named in
    let ported : Seen = with_port spec.name (device_port spec.conf.device) noded in
    let same : noded.listen_ports ≡ seen.listen_ports =
      with_node-listen_ports host spec.name spec.conf.tailscale named in
    let (last, e) =
      check_routines-ok spec.name (is_some spec.conf.tailscale) spec.conf.routines [] ported.binds
        p.addresses p.supported.0
        (NoRepeat-FreshRun_nil eq_ℤ server_port spec.conf.routines p.supported.1) in
    (
      last.1,
      rw (check_name-ok spec.name seen p.pattern p.new_name) (
          rw
            (check_tailscale-ok host spec.name spec.conf.tailscale spec.conf.device named
              p.new_hostname p.new_dir p.one_backend)
            (rw
              (check_listen_port-ok spec.name (device_port spec.conf.device) noded
                (rw same p.new_port))
              (rw e refl))),
    )

-- What the connections must satisfy beside what has been seen.
record AllPass (host : Host) (specs : List ConnectionSpec) (seen : Seen) : Type 0 where
  patterns : All (λ spec. matches_name_pattern spec.name ≡ true) specs
  one_backend : All (λ spec. OneBackend spec.conf.tailscale spec.conf.device) specs
  names : FreshRun text_eq name_of seen.names specs
  hostnames : FreshRun text_eq (hostname_of host) (text_keys seen.hostnames) specs
  ports : FreshRun eq_ℤ port_of (port_keys seen.listen_ports) specs
  dirs : DirsRun host seen.state_dirs specs
  addresses : All (λ spec. All HasAddress spec.conf.routines) specs
  supported : All IsSupported specs

check_specs-ok :
    (host : Host) (specs : List ConnectionSpec) (seen : Seen)
    → AllPass host specs seen
    → (last : Seen) × (check_specs host specs seen ≡ ok last)
unfolding check_specs
check_specs-ok host [] seen a = (seen, refl)
check_specs-ok host (spec ∷ specs) seen a =
    let (binds, e) = check_spec-ok host spec seen (record {
      pattern = a.patterns.0;
      new_name = a.names.0;
      new_hostname = a.hostnames.0;
      new_dir = a.dirs.0;
      one_backend = a.one_backend.0;
      new_port = a.ports.0;
      addresses = a.addresses.0;
      supported = a.supported.0;
    }) in
    let next : Seen = record (after_spec host spec seen) { binds = binds } in
    let c = check_spec-Checked host spec seen next e in
    let same_dirs : next.state_dirs ≡ dirs_after host spec seen.state_dirs =
      after_spec-dirs host spec.name spec.conf.tailscale (device_port spec.conf.device)
        (record seen { names = spec.name ∷ seen.names }) in
    let (last, later) = check_specs-ok host specs next (record {
      patterns = a.patterns.1;
      one_backend = a.one_backend.1;
      names = rw c.names a.names.1;
      hostnames = rw c.hostnames a.hostnames.1;
      ports = rw c.ports a.ports.1;
      dirs = rw same_dirs a.dirs.1;
      addresses = a.addresses.1;
      supported = a.supported.1;
    }) in
    (last, rw e later)

conflicts-Coexist : (a b : Bind) → Coexist a b → conflicts a b ≡ false
unfolding conflicts
conflicts-Coexist a b (inl kinds) = ground (arith, text_eq_iff a.kind b.kind)
conflicts-Coexist a b (inr (inl ports)) = ground (arith, text_eq_iff a.port b.port)
conflicts-Coexist a b (inr (inr (hosts, x, y))) = ground (arith, text_eq_iff a.host b.host)

check_against-ok : (a : Bind) (bs : List Bind) → All (Coexist a) bs → check_against a bs ≡ ok tt
unfolding check_against
check_against-ok a [] h = refl
check_against-ok a (b ∷ bs) (h, hs) = rw (conflicts-Coexist a b h) (check_against-ok a bs hs)

check_binds-ok : (bs : List Bind) → Pairwise Coexist bs → check_binds bs ≡ ok tt
unfolding check_binds
check_binds-ok [] h = refl
check_binds-ok (b ∷ bs) (h, hs) = rw (check_against-ok b bs h) (check_binds-ok bs hs)

info_binds-ok :
    (info_addr : Text)
    → is_empty info_addr || is_some (split_host_port info_addr) ≡ true
    → (binds : List Bind) × (info_binds info_addr ≡ ok binds)
unfolding info_binds
info_binds-ok [] h = ([], refl)
info_binds-ok (c ∷ addr) h =
    add_bind-ok (codes "tcp") (c ∷ addr) (codes "<health endpoint>") [] (ground arith)

-- Nothing stands against the connections and the health endpoint: they are told apart, no two
-- Tailscale connections keep their state in one directory, every address splits into host and port,
-- every connection is supported, and no two listeners compete.
pub record Acceptable (host : Host) (specs : List ConnectionSpec) (info_addr : Text) : Type 0 where
  pub told_apart : ToldApart host specs
  pub dirs : NoRepeat text_eq (keys_of (dir_of host) specs)
  pub addresses : All (λ spec. All HasAddress spec.conf.routines) specs
  pub supported : All IsSupported specs
  pub info : is_empty info_addr || is_some (split_host_port info_addr) ≡ true
  pub listeners : Pairwise Coexist (info_listener info_addr ++ specs_binds specs)

Acceptable-AllPass :
    (host : Host) (specs : List ConnectionSpec) (info_addr : Text) (binds : List Bind)
    → Acceptable host specs info_addr
    → AllPass host specs (nothing_seen binds)
Acceptable-AllPass host specs info_addr binds a = record {
  patterns = a.told_apart.patterns;
  one_backend = a.told_apart.one_backend;
  names = NoRepeat-FreshRun_nil text_eq name_of specs a.told_apart.names;
  hostnames = NoRepeat-FreshRun_nil text_eq (hostname_of host) specs a.told_apart.hostnames;
  ports = NoRepeat-FreshRun_nil eq_ℤ port_of specs a.told_apart.ports;
  dirs =
      FreshRun-DirsRun host specs [] [] (λ d given new. refl)
        (NoRepeat-FreshRun_nil text_eq (dir_of host) specs a.dirs);
  addresses = a.addresses;
  supported = a.supported;
}

-- Validation refuses nothing without a reason: connections that are told apart, by their state
-- directories too, whose addresses split, that are supported and whose listeners do not compete,
-- the health endpoint's among them, pass.
pub validate_connections_complete :
    (host : Host) (specs : List ConnectionSpec) (info_addr : Text)
    → Acceptable host specs info_addr
    → validate_connections host specs info_addr ≡ ok tt
unfolding validate_connections
validate_connections_complete host specs info_addr a =
    let (binds, p) = info_binds-ok info_addr a.info in
    let (last, q) =
      check_specs-ok host specs (nothing_seen binds)
        (Acceptable-AllPass host specs info_addr binds a) in
    let collected : last.binds ≡ info_listener info_addr ++ specs_binds specs =
      (check_specs_lem host specs (nothing_seen binds) last q).0
      ∙ ap (λ b. b ++ specs_binds specs) (info_binds_lem info_addr binds p) in
    rw p (rw q (check_binds-ok last.binds (rw collected a.listeners)))
