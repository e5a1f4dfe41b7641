-- ===== src/Connections/Validate/Listeners.antt =====
-- Validated connections do not compete for a local address.
use wireproxy.Base.{
  ◌≡◌, ◌≢◌, refl, sym, ap, ◌∙◌, Bool, true, false, not, Option, none, some, List, [], ◌∷◌, ◌++◌, ok,
  ◌>>=◌, ensure, >>=-eq-ok, ensure-eq-ok, ◌⊎◌, inl, inr, Option-cases, Bool-cases, ℤ, All, Pairwise,
  is_empty, is_some, append-nil, append_assoc, arith, if◌then◌else◌,
}
use wireproxy.Config.Types.{
  ConnectionSpec, Routine, tcp_client, stdio, tcp_server, socks5, http, sni, udp_proxy,
}
use wireproxy.Connections.Validate.Step.{check_spec-Checked}
use wireproxy.Connections.Validate.{
  Seen, Bind, add_bind, check_routine, check_routines, check_spec, check_specs, check_against,
  check_binds, conflicts, info_binds, nothing_seen, validate_connections, normalize_port,
  is_wildcard_host, is_in_ℤ,
}
use wireproxy.Host.{Host}
use wireproxy.Text.HostPort.{split_host_port}
use wireproxy.Text.{Text, codes, text_eq, text_eq_iff}

-- The kind and the address of the local socket that a routine opens, if it opens one.
abbrev pub listener : Routine → Option (Text × Text)
listener (tcp_client c) = some (codes "tcp", c.bind_address.string)
listener (socks5 c) = some (codes "tcp", c.bind_address)
listener (http c) = some (codes "tcp", c.bind_address)
listener (sni c) = some (codes "tcp", c.bind_address)
listener (udp_proxy c) = some (codes "udp", c.bind_address)
listener (tcp_server c) = none
listener (stdio c) = none

-- The socket as a listener with its host and port; none where the address does not split.
abbrev opened : Text → Text × Text → List Bind
opened owner (kind, addr) = elim (split_host_port addr) [
  | none ↦ []
  | some (host, port) ↦
      record { kind = kind; host = host; port = normalize_port port; owner = owner } ∷ []
]

abbrev pub routine_binds : Text → Routine → List Bind
routine_binds owner r = elim (listener r) [ none ↦ [] | some socket ↦ opened owner socket ]

abbrev pub routines_binds : Text → List Routine → List Bind
routines_binds owner [] = []
routines_binds owner (r ∷ rs) = routine_binds owner r ++ routines_binds owner rs

-- Every listener of the connections, in order.
abbrev pub specs_binds : List ConnectionSpec → List Bind
specs_binds [] = []
specs_binds (spec ∷ specs) = routines_binds spec.name spec.conf.routines ++ specs_binds specs

abbrev pub info_listener : Text → List Bind
info_listener info_addr =
    if is_empty info_addr then [] else opened (codes "<health endpoint>") (codes "tcp", info_addr)

-- The routine opens no socket, or one whose address splits into host and port.
abbrev pub HasAddress : Routine → Type 0
HasAddress r = elim (listener r) [
  | none ↦ Unit
  | some (kind, addr) ↦ is_some (split_host_port addr) ≡ true
]

-- Two listeners that can both be bound: they differ in kind, in port, or in host, and then neither
-- host stands for all.
abbrev pub Coexist : Bind → Bind → Type 0
Coexist a b =
    (a.kind ≢ b.kind)
    ⊎ (a.port ≢ b.port)
    ⊎ ((a.host ≢ b.host) × (is_wildcard_host a.host ≡ false) × (is_wildcard_host b.host ≡ false))

pub add_bind_lem :
    (kind addr owner : Text) (before after : List Bind)
    → add_bind kind addr owner before ≡ ok after
    → (after ≡ before ++ opened owner (kind, addr)) × (is_some (split_host_port addr) ≡ true)
unfolding add_bind
add_bind_lem kind addr owner before after h = elim (Option-cases (split_host_port addr)) [
  | inl bad ↦ absurd (ground arith)
  | inr ((host, port), good) ↦ rw good (ground arith, refl)
]

-- The same behind the pair that the loop carries.
bound_lem :
    (kind addr owner : Text) (ports ports' : List ℤ) (before after : List Bind)
    → ◌>>=◌ {B = List ℤ × List Bind} (add_bind kind addr owner before) (λ more. ok (ports, more))
      ≡ ok (ports', after)
    → (after ≡ before ++ opened owner (kind, addr)) × (is_some (split_host_port addr) ≡ true)
bound_lem kind addr owner ports ports' before after h =
    let (more, p, q) = >>=-eq-ok (add_bind kind addr owner before) _ h in
    let same : more ≡ after = ground arith in
    let (grown, good) = add_bind_lem kind addr owner before more p in (sym same ∙ grown, good)

check_routine_lem :
    (name : Text) (on_tailscale : Bool) (r : Routine) (ports ports' : List ℤ)
    (before after : List Bind)
    → check_routine name on_tailscale r (ports, before) ≡ ok (ports', after)
    → (after ≡ before ++ routine_binds name r) × HasAddress r
unfolding check_routine
check_routine_lem name t (tcp_client c) ports ports' before after h =
    bound_lem (codes "tcp") c.bind_address.string name ports ports' before after h
check_routine_lem name t (socks5 c) ports ports' before after h =
    bound_lem (codes "tcp") c.bind_address name ports ports' before after h
check_routine_lem name t (http c) ports ports' before after h =
    bound_lem (codes "tcp") c.bind_address name ports ports' before after h
check_routine_lem name t (sni c) ports ports' before after h =
    bound_lem (codes "tcp") c.bind_address name ports ports' before after h
check_routine_lem name t (udp_proxy c) ports ports' before after h =
    let (u, p, q) = >>=-eq-ok (ensure (not t) _) _ h in
    bound_lem (codes "udp") c.bind_address name ports ports' before after q
check_routine_lem name t (tcp_server c) ports ports' before after h =
    let (u, p, q) = >>=-eq-ok (ensure (not (is_in_ℤ c.listen_port ports)) _) _ h in
    let (v, p', q') = >>=-eq-ok (ensure (is_some (split_host_port c.target)) _) _ q in
    (ground (arith, append-nil before), tt)
check_routine_lem name t (stdio c) ports ports' before after h =
    (ground (arith, append-nil before), tt)

check_routines_lem :
    (name : Text) (on_tailscale : Bool) (rs : List Routine) (ports ports' : List ℤ)
    (before after : List Bind)
    → check_routines name on_tailscale rs (ports, before) ≡ ok (ports', after)
    → (after ≡ before ++ routines_binds name rs) × All HasAddress rs
unfolding check_routines
check_routines_lem name t [] ports ports' before after h = (ground (arith, append-nil before), tt)
check_routines_lem name t (r ∷ rs) ports ports' before after h =
    let ((ports1, middle), p, q) = >>=-eq-ok (check_routine name t r (ports, before)) _ h in
    let (here, good) = check_routine_lem name t r ports ports1 before middle p in
    let (later, rest) = check_routines_lem name t rs ports1 ports' middle after q in
    (
      later
          ∙ ap (λ b. b ++ routines_binds name rs) here
          ∙ append_assoc before (routine_binds name r) (routines_binds name rs),
      (good, rest),
    )

pub check_specs_lem :
    (host : Host) (specs : List ConnectionSpec) (seen last : Seen)
    → check_specs host specs seen ≡ ok last
    → (last.binds ≡ seen.binds ++ specs_binds specs)
      × All (λ spec. All HasAddress spec.conf.routines) specs
unfolding check_specs
check_specs_lem host [] seen last h = (ground (arith, append-nil seen.binds), tt)
check_specs_lem host (spec ∷ specs) seen last h =
    let (next, p, q) = >>=-eq-ok (check_spec host spec seen) _ h in
    let (ports, checked) = (check_spec-Checked host spec seen next p).routines in
    let (here, good) =
      check_routines_lem spec.name (is_some spec.conf.tailscale) spec.conf.routines [] ports
        seen.binds next.binds checked in
    let (later, rest) = check_specs_lem host specs next last q in
    (
      later
          ∙ ap (λ b. b ++ specs_binds specs) here
          ∙ append_assoc seen.binds (routines_binds spec.name spec.conf.routines)
              (specs_binds specs),
      (good, rest),
    )

pub info_binds_lem :
    (info_addr : Text) (binds : List Bind)
    → info_binds info_addr ≡ ok binds
    → binds ≡ info_listener info_addr
unfolding info_binds
info_binds_lem [] binds h = ground arith
info_binds_lem (c ∷ addr) binds h =
    (add_bind_lem (codes "tcp") (c ∷ addr) (codes "<health endpoint>") [] binds h).0

Coexist-conflicts : (a b : Bind) → conflicts a b ≡ false → Coexist a b
unfolding conflicts
Coexist-conflicts a b h = elim (Bool-cases (text_eq a.kind b.kind)) [
  | inr kinds ↦ inl (λ e. cc (kinds, (text_eq_iff a.kind b.kind).1 e))
  | inl kinds ↦ elim (Bool-cases (text_eq a.port b.port)) [
    | inr ports ↦ inr (inl (λ e. cc (ports, (text_eq_iff a.port b.port).1 e)))
    | inl ports ↦ inr (inr (ground (arith, text_eq_iff a.host b.host), ground arith, ground arith))
  ]
]

check_against-Coexist :
    (a : Bind) (bs : List Bind) {u : Unit {0}} → check_against a bs ≡ ok u → All (Coexist a) bs
unfolding check_against
check_against-Coexist a [] h = tt
check_against-Coexist a (b ∷ bs) h =
    let (v, p, q) = >>=-eq-ok (ensure (not (conflicts a b)) _) _ h in
    let apart = ensure-eq-ok (not (conflicts a b)) _ p in
    (Coexist-conflicts a b (ground arith), check_against-Coexist a bs q)

check_binds-Coexist : (bs : List Bind) {u : Unit {0}} → check_binds bs ≡ ok u → Pairwise Coexist bs
unfolding check_binds
check_binds-Coexist [] h = tt
check_binds-Coexist (b ∷ bs) h =
    let (v, p, q) = >>=-eq-ok (check_against b bs) _ h in
    (check_against-Coexist b bs p, check_binds-Coexist bs q)

-- Where validation succeeds, the address of every listener splits into host and port, and every
-- two listeners, the health endpoint's among them, can both be bound: they differ in kind or in
-- port, or they differ in host and neither host is a wildcard.
pub validate_connections-Coexist :
    (host : Host) (specs : List ConnectionSpec) (info_addr : Text) {u : Unit {0}}
    → validate_connections host specs info_addr ≡ ok u
    → All (λ spec. All HasAddress spec.conf.routines) specs
      × Pairwise Coexist (info_listener info_addr ++ specs_binds specs)
unfolding validate_connections
validate_connections-Coexist host specs info_addr h =
    let (binds, p, h0) = >>=-eq-ok (info_binds info_addr) _ h in
    let (seen, q, h1) = >>=-eq-ok (check_specs host specs (nothing_seen binds)) _ h0 in
    let (all_binds, good) = check_specs_lem host specs (nothing_seen binds) seen q in
    let collected =
      all_binds ∙ ap (λ b. b ++ specs_binds specs) (info_binds_lem info_addr binds p) in
    (good, rw collected at (check_binds-Coexist seen.binds h1))
