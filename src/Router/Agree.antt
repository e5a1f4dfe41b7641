-- ===== src/Router/Agree.antt =====
-- The proxies decide alike on one destination.
use mathlib.Core.List.{reverse-append, reverse-reverse}
use wireproxy.Base.{ℕ, ◌≡◌, ◌≢◌, refl, Option, none, some, [], ◌∷◌, ◌++◌, arith}
use wireproxy.Router.{
  DomainRouter, should_tunnel, route, host_from_addr, via, routed_dial, routed_socks5_dial,
}
use wireproxy.Text.HostPort.RoundTrip.{IsClean, split_host_port-join_host_port}
use wireproxy.Text.HostPort.{join_host_port}
use wireproxy.Text.Strings.{trim_suffix, trim_prefix, has_prefix}
use wireproxy.Text.{Text, codes}

pub host_from_addr-join :
    (host port : Text) → IsClean host port → host_from_addr (join_host_port host port) ≡ host
unfolding host_from_addr
host_from_addr-join host port c = ground (arith, split_host_port-join_host_port host port c)

-- A destination given as a name is routed alike by the HTTP and SNI proxies, which see it joined
-- with a port, and by the SOCKS5 proxy, which sees the name itself, whatever address it is handed:
-- through the tunnel exactly where the router says so. The name is not empty and holds no bracket,
-- and the port holds neither bracket nor colon.
pub routed_dial-routed_socks5_dial :
    (lower : ℕ → ℕ) (r : Option DomainRouter) (host port address : Text)
    → IsClean host port
    → host ≢ []
    → (routed_dial lower r (join_host_port host port) ≡ via (should_tunnel lower r host))
      × (routed_socks5_dial lower r host address ≡ via (should_tunnel lower r host))
unfolding routed_dial routed_socks5_dial route
routed_dial-routed_socks5_dial lower r [] port address c named = absurd (named refl)
routed_dial-routed_socks5_dial lower r (x ∷ host) port address c named =
    (rw (host_from_addr-join (x ∷ host) port c), refl)

trim_suffix-concat : (s : Text) (c : ℕ) → trim_suffix (s ++ c ∷ []) (c ∷ []) ≡ s
unfolding trim_suffix trim_prefix has_prefix
trim_suffix-concat s c = rw (reverse-append s (c ∷ [])) (ground (arith, reverse-reverse s))

-- A trailing dot, as of a fully qualified name, does not change the decision.
should_tunnel-dot :
    (lower : ℕ → ℕ) (r : Option DomainRouter) (host : Text)
    → trim_suffix host (codes ".") ≡ host
    → should_tunnel lower r (host ++ codes ".") ≡ should_tunnel lower r host
unfolding should_tunnel
should_tunnel-dot lower none host plain = refl
should_tunnel-dot lower (some r) host plain = rw (trim_suffix-concat host b'.', plain)
