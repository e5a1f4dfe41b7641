-- ===== src/Connections/Validate/Exact.antt =====
-- What `ValidateConnections` has found where it passes, beside what it is to find.
use wireproxy.Base.Fresh.{IsFresh, FreshRun, cons?, FreshRun-NoRepeat}
use wireproxy.Base.{
  ◌≡◌, ◌↔◌, refl, sym, ap, ◌∙◌, true, false, not, ◌||◌, Option, none, some, List, [], ◌∷◌, map,
  Outcome, ok, >>=-eq-ok, is_empty, is_some, inl, inr, Option-cases, arith, if◌then◌else◌,
}
use wireproxy.Config.Types.{ConnectionSpec, TailscaleConfig, DeviceConfig}
use wireproxy.Connections.StateDir.{effective_state_dir}
use wireproxy.Connections.Validate.Complete.{Acceptable, validate_connections_complete}
use wireproxy.Connections.Validate.Dirs.{dir_of, dirs_after, DirsRun, after_spec-dirs}
use wireproxy.Connections.Validate.Identity.{validate_connections-ToldApart}
use wireproxy.Connections.Validate.Listeners.{add_bind_lem, validate_connections-Coexist}
use wireproxy.Connections.Validate.Rounds.{
  with_node, with_port, state_dir, IsUnused, check_tailscale-ok, check_listen_port-ok,
}
use wireproxy.Connections.Validate.Step.{check_name_lem, check_tailscale_lem, check_listen_port_lem}
use wireproxy.Connections.Validate.Supported.{validate_connections-IsSupported}
use wireproxy.Connections.Validate.{
  Seen, Refusal, check_name, check_tailscale, check_listen_port, check_routines, check_spec,
  check_specs, device_port, find, unless_found, info_binds, is_in, nothing_seen,
  validate_connections,
}
use wireproxy.Host.{Host}
use wireproxy.Text.HostPort.{split_host_port}
use wireproxy.Text.{Text, codes, text_eq}

info_binds-splits :
    (info_addr : Text) {binds : _}
    → info_binds info_addr ≡ ok binds
    → is_empty info_addr || is_some (split_host_port info_addr) ≡ true
unfolding info_binds
info_binds-splits [] h = refl
info_binds-splits (c ∷ addr) {binds} h =
    (add_bind_lem (codes "tcp") (c ∷ addr) (codes "<health endpoint>") [] binds h).1

unless_found-IsUnused :
    (dir : Text) (m : List (Text × Text)) (refusal : Text → Refusal) {u : Unit {0}}
    → unless_found (find dir m) (not (is_empty dir)) refusal ≡ ok u
    → IsUnused (if is_empty dir then none else some dir) m
unless_found-IsUnused [] m refusal h = tt
unless_found-IsUnused (b ∷ dir) m refusal h = elim (Option-cases (find (b ∷ dir) m)) [
  | inl new ↦ new
  | inr (prev, used) ↦ absurd (ground arith)
]

check_tailscale-IsUnused :
    (host : Host) (name : Text) (node : Option TailscaleConfig) (device : Option DeviceConfig)
    (seen next : Seen)
    → check_tailscale host name node device seen ≡ ok next
    → IsUnused (state_dir host name node) seen.state_dirs
unfolding check_tailscale
check_tailscale-IsUnused host name none device seen next h = tt
check_tailscale-IsUnused host name (some c) device seen next h =
    let hostname = map host.lower c.hostname in
    let dir = effective_state_dir host c name in
    let (u, p, h1) = >>=-eq-ok (unless_found (find hostname seen.hostnames) true _) _ h in
    let (v, q, h2) =
      >>=-eq-ok (unless_found (find dir seen.state_dirs) (not (is_empty dir)) _) _ h1 in
    unless_found-IsUnused dir seen.state_dirs _ q

ok-injective : {a b : Seen} {m : Outcome Refusal Seen} → m ≡ ok a → m ≡ ok b → a ≡ b
ok-injective h k = ground arith

check_spec-dirs :
    (host : Host) (spec : ConnectionSpec) (seen next : Seen)
    → check_spec host spec seen ≡ ok next
    → IsUnused (dir_of host spec) seen.state_dirs
      × (next.state_dirs ≡ dirs_after host spec seen.state_dirs)
unfolding check_spec
check_spec-dirs host spec seen next h =
    let node = spec.conf.tailscale in
    let port = device_port spec.conf.device in
    let (named, p0, h0) = >>=-eq-ok (check_name spec.name seen) _ h in
    let (noded, p1, h1) =
      >>=-eq-ok (check_tailscale host spec.name node spec.conf.device named) _ h0 in
    let (ported, p2, h2) = >>=-eq-ok (check_listen_port spec.name port noded) _ h1 in
    let (state, p3, h3) =
      >>=-eq-ok (check_routines spec.name (is_some node) spec.conf.routines ([], ported.binds)) _
        h2 in
    let (pattern, new_name, e0) = check_name_lem spec.name seen named p0 in
    let (fresh, _, one, _, _, _) =
      check_tailscale_lem host spec.name node spec.conf.device named noded p1 in
    let (new_port, _, _, _, _) = check_listen_port_lem spec.name port noded ported p2 in
    let unused = check_tailscale-IsUnused host spec.name node spec.conf.device named noded p1 in
    let e1 : noded ≡ with_node host spec.name node named =
      ok-injective p1
        (check_tailscale-ok host spec.name node spec.conf.device named fresh unused one) in
    let e2 : ported ≡ with_port spec.name port noded =
      ok-injective p2 (check_listen_port-ok spec.name port noded new_port) in
    let e3 : record ported { binds = state.1 } ≡ next = ground arith in
    let same : named.state_dirs ≡ seen.state_dirs = ap (λ s. s.state_dirs) e0 in
    (
      rw (← same) unused,
      sym (ap (λ s. s.state_dirs) e3)
          ∙ ap (λ s. s.state_dirs) e2
          ∙ ap (λ s. (with_port spec.name port s).state_dirs) e1
          ∙ after_spec-dirs host spec.name node port named
          ∙ ap (dirs_after host spec) same,
    )

check_specs-DirsRun :
    (host : Host) (specs : List ConnectionSpec) (seen last : Seen)
    → check_specs host specs seen ≡ ok last
    → DirsRun host seen.state_dirs specs
unfolding check_specs
check_specs-DirsRun host [] seen last h = tt
check_specs-DirsRun host (spec ∷ specs) seen last h =
    let (next, done, later) = >>=-eq-ok (check_spec host spec seen) _ h in
    let (unused, dirs) = check_spec-dirs host spec seen next done in
    (unused, rw dirs at (check_specs-DirsRun host specs next last later))

-- A directory that is not in the map is not among the keys.
abbrev Covers : List (Text × Text) → List Text → Type 0
Covers m ks = (d : Text) → find d m ≡ none → is_in d ks ≡ false

dir-IsFresh :
    (m : List (Text × Text)) (ks : List Text) (dir name : Text)
    → Covers m ks
    → IsUnused (if is_empty dir then none else some dir) m
    → IsFresh text_eq (if is_empty dir then none else some dir) ks
      × Covers ((dir, name) ∷ m) (cons? (if is_empty dir then none else some dir) ks)
dir-IsFresh m ks [] name covers u = (tt, λ d new. ground (arith, covers d))
dir-IsFresh m ks (b ∷ dir) name covers u = (covers (b ∷ dir) u, λ d new. ground (arith, covers d))

node-IsFresh :
    (host : Host) (name : Text) (node : Option TailscaleConfig) (m : List (Text × Text))
    (ks : List Text)
    → Covers m ks
    → IsUnused (state_dir host name node) m
    → IsFresh text_eq (state_dir host name node) ks
      × Covers
          (elim node [ none ↦ m | some c ↦ (effective_state_dir host c name, name) ∷ m ])
          (cons? (state_dir host name node) ks)
node-IsFresh host name none m ks covers u = (tt, covers)
node-IsFresh host name (some c) m ks covers u =
    dir-IsFresh m ks (effective_state_dir host c name) name covers u

DirsRun-FreshRun :
    (host : Host) (specs : List ConnectionSpec) (m : List (Text × Text)) (ks : List Text)
    → Covers m ks
    → DirsRun host m specs
    → FreshRun text_eq (dir_of host) ks specs
DirsRun-FreshRun host [] m ks covers r = tt
DirsRun-FreshRun host (spec ∷ specs) m ks covers (u, r) =
    let (fresh, next) = node-IsFresh host spec.name spec.conf.tailscale m ks covers u in
    (fresh, DirsRun-FreshRun host specs (dirs_after host spec m) _ next r)

validate_connections-Acceptable :
    (host : Host) (specs : List ConnectionSpec) (info_addr : Text)
    → validate_connections host specs info_addr ≡ ok tt
    → Acceptable host specs info_addr
unfolding validate_connections
validate_connections-Acceptable host specs info_addr h =
    let (binds, p, h0) = >>=-eq-ok (info_binds info_addr) _ h in
    let (seen, q, h1) = >>=-eq-ok (check_specs host specs (nothing_seen binds)) _ h0 in
    let (addresses, listeners) = validate_connections-Coexist host specs info_addr h in
    record {
      told_apart = validate_connections-ToldApart host specs info_addr h;
      dirs =
          (FreshRun-NoRepeat text_eq (dir_of host) [] specs (
            DirsRun-FreshRun host specs [] [] (λ d new. refl)
              (check_specs-DirsRun host specs (nothing_seen binds) seen q))).0;
      addresses = addresses;
      supported = validate_connections-IsSupported host specs info_addr h;
      info = info_binds-splits info_addr p;
      listeners = listeners;
    }

-- Validation passes exactly where nothing stands against the connections and the health endpoint:
-- every name matches the name pattern, no two connections share a name, a tailnet hostname in lower
-- case or a WireGuard port, none has both backends, no two Tailscale connections keep their state
-- in one directory, the address of every listener, the health endpoint's among them, splits into
-- host and port, every connection is supported, which means no UDP proxy on Tailscale, server
-- tunnels with targets that split and no two of them on one port of a connection, and no two
-- listeners compete.
pub validate_connections_iff :
    (host : Host) (specs : List ConnectionSpec) (info_addr : Text)
    → (validate_connections host specs info_addr ≡ ok tt) ↔ Acceptable host specs info_addr
validate_connections_iff host specs info_addr = (
  validate_connections-Acceptable host specs info_addr,
  validate_connections_complete host specs info_addr,
)
