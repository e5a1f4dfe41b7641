-- ===== src/Tailnet.antt =====
-- `LookupContextHost` of tailscale.go. The status of the node is third-party: what it lists is an
-- argument, its peers in the order in which the loop comes to them.
pub mod Domain
use wireproxy.Base.{
  ℕ, Bool, true, false, not, ◌&&◌, ◌||◌, Option, none, some, List, [], ◌∷◌, ◌++◌, map, Outcome, ok,
  err, is_empty, if◌then◌else◌,
}
use wireproxy.Text.Strings.{trim_space, trim_suffix, has_suffix}
use wireproxy.Text.{Text, codes, text_eq}

-- A peer, with its addresses as texts.
pub record Peer : Type 0 where
  pub dns_name : Text
  pub host_name : Text
  pub ips : List Text

-- A name in lower case, without a dot at its end.
unfoldable pub plain_name : (ℕ → ℕ) → Text → Text
unfolding trim_suffix
plain_name lower name = trim_suffix (map lower name) (codes ".")

unfoldable pub is_matched : (ℕ → ℕ) → Text → Peer → Bool
unfolding plain_name has_suffix
is_matched lower host p =
    let dns_name = plain_name lower p.dns_name in
    let host_name = map lower p.host_name in
    if is_empty dns_name && is_empty host_name
    then false
    else text_eq host dns_name
      || text_eq host host_name
      || (not (is_empty dns_name) && has_suffix dns_name (b'.' ∷ host))

-- The loop over the peers; `none` is a nil peer.
unfoldable pub peer_addrs : (ℕ → ℕ) → Text → List (Option Peer) → List Text → List Text
unfolding is_matched
peer_addrs lower host [] addrs = addrs
peer_addrs lower host (none ∷ peers) addrs = peer_addrs lower host peers addrs
peer_addrs lower host (some p ∷ peers) addrs =
    peer_addrs lower host peers (if is_matched lower host p then addrs ++ p.ips else addrs)

-- `status` is none where the client, the call or the answer is missing.
unfoldable pub lookup_context_host :
    (ℕ → ℕ)
    → Option (List (Option Peer))
    → (Text → Outcome Text (List Text))
    → Text
    → Outcome Text (List Text)
unfolding plain_name peer_addrs trim_space
lookup_context_host lower status system host =
    let name = plain_name lower (trim_space host) in
    elim status [
      | none ↦ system name
      | some peers ↦
          let addrs = peer_addrs lower name peers [] in
          if is_empty addrs then system name else ok addrs
    ]
