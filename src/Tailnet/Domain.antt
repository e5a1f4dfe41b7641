-- ===== src/Tailnet/Domain.antt =====
-- Which peers a name stands for.
use mathlib.Core.List.{reverse-append}
use wireproxy.Base.{
  ℕ, ◌≡◌, refl, ◌∙◌, true, false, some, List, [], ◌∷◌, ◌++◌, map, Outcome, ok, All, is_empty,
  reverse, append_assoc, append-nil, arith,
}
use wireproxy.Tailnet.{Peer, plain_name, is_matched, peer_addrs, lookup_context_host}
use wireproxy.Text.Strings.{has_prefix, has_suffix, trim_space}
use wireproxy.Text.{Text}

has_prefix-append : (p s : Text) → has_prefix (p ++ s) p ≡ true
unfolding has_prefix
has_prefix-append [] s = refl
has_prefix-append (c ∷ p) s = ground (arith, has_prefix-append p s)

has_suffix-append : (s p : Text) → has_suffix (s ++ p) p ≡ true
unfolding has_suffix
has_suffix-append s p = rw (reverse-append s p) (has_prefix-append (reverse p) (reverse s))

-- The peer's DNS name lies below the domain.
abbrev pub IsUnder : (ℕ → ℕ) → Text → Peer → Type 0
IsUnder lower domain p = (label : Text) × (plain_name lower p.dns_name ≡ label ++ b'.' ∷ domain)

some_append : (s t : Text) (c : ℕ) → is_empty (s ++ c ∷ t) ≡ false
some_append [] t c = refl
some_append (b ∷ s) t c = refl

is_matched-IsUnder :
    (lower : ℕ → ℕ) (domain : Text) (p : Peer)
    → IsUnder lower domain p
    → is_matched lower domain p ≡ true
unfolding is_matched
is_matched-IsUnder lower domain p (label, e) =
    ground (arith, e, has_suffix-append label (b'.' ∷ domain), some_append label domain b'.')

abbrev pub all_ips : List Peer → List Text
all_ips [] = []
all_ips (p ∷ peers) = p.ips ++ all_ips peers

peer_addrs-IsUnder :
    (lower : ℕ → ℕ) (domain : Text) (peers : List Peer) (addrs : List Text)
    → All (IsUnder lower domain) peers
    → peer_addrs lower domain (map some peers) addrs ≡ addrs ++ all_ips peers
unfolding peer_addrs
peer_addrs-IsUnder lower domain [] addrs h = ground (arith, append-nil addrs)
peer_addrs-IsUnder lower domain (p ∷ peers) addrs (u, h) =
    rw (is_matched-IsUnder lower domain p u, peer_addrs)
      (peer_addrs-IsUnder lower domain peers (addrs ++ p.ips) h
        ∙ append_assoc addrs p.ips (all_ips peers))

-- Where the DNS names of all peers lie below one domain, as in a tailnet, a lookup of the domain
-- itself is answered with the addresses of all peers, in order, where they have any, whatever the
-- system's resolver says.
pub lookup_context_host-IsUnder :
    (lower : ℕ → ℕ) (system : Text → Outcome Text (List Text)) (host : Text) (peers : List Peer)
    → All (IsUnder lower (plain_name lower (trim_space host))) peers
    → is_empty (all_ips peers) ≡ false
    → lookup_context_host lower (some (map some peers)) system host ≡ ok (all_ips peers)
unfolding lookup_context_host
lookup_context_host-IsUnder lower system host peers under present =
    ground (arith, peer_addrs-IsUnder lower (plain_name lower (trim_space host)) peers [] under)
