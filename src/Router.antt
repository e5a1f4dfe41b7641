-- ===== src/Router.antt =====
-- router.go, and the dialers of routine.go that follow its decisions.
pub mod Agree
use wireproxy.Base.{
  ℕ, Bool, true, false, ◌||◌, Option, none, some, List, ◌++◌, map, is_empty, any, if◌then◌else◌,
}
use wireproxy.Host.{Regexp}
use wireproxy.Text.HostPort.{split_host_port, join_host_port}
use wireproxy.Text.Strings.{trim_suffix}
use wireproxy.Text.{Text, codes}

pub record DomainRouter : Type 0 where
  pub patterns : List Regexp
  pub log_names : Bool

unfoldable pub new_domain_router : List Regexp → Bool → DomainRouter
new_domain_router patterns log_names = record { patterns = patterns; log_names = log_names }

-- `none` is the nil router.
unfoldable pub should_tunnel : (ℕ → ℕ) → Option DomainRouter → Text → Bool
unfolding trim_suffix
should_tunnel lower none host = true
should_tunnel lower (some r) host =
    let name = map lower (trim_suffix host (codes ".")) in
    if is_empty r.patterns then true else any (λ (p : Regexp). p.matches name) r.patterns

abbrev logged : Option DomainRouter → Bool
logged none = false
logged (some r) = r.log_names

-- The decision, and the line that is logged, if one is.
unfoldable pub route : (ℕ → ℕ) → Option DomainRouter → Text → Bool × Option Text
unfolding should_tunnel
route lower r host =
    let tunnel = should_tunnel lower r host in
    let dest = if tunnel then codes "TUNNEL" else codes "DIRECT" in
    (
      tunnel,
      if logged r
          then some (codes "route: " ++ host ++ codes " -> " ++ dest ++ codes "\n")
          else none,
    )

unfoldable pub host_from_addr : Text → Text
unfolding split_host_port
host_from_addr address = elim (split_host_port address) [
  | none ↦ address
  | some (host, port) ↦ host
]

-- The network that a connection is dialed on: `d.Net` or the system's.
pub data Via : Type 0 where
  tunnel direct : Via

abbrev pub via : Bool → Via
via true = tunnel
via false = direct

unfoldable pub routed_dial : (ℕ → ℕ) → Option DomainRouter → Text → Via
unfolding route host_from_addr
routed_dial lower r address = via (route lower r (host_from_addr address)).0

-- `fqdn` is `request.DestAddr.FQDN`.
unfoldable pub routed_socks5_dial : (ℕ → ℕ) → Option DomainRouter → Text → Text → Via
unfolding route host_from_addr
routed_socks5_dial lower r fqdn address =
    via (route lower r (if is_empty fqdn then host_from_addr address else fqdn)).0
