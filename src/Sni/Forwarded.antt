-- ===== src/Sni/Forwarded.antt =====
-- The two connections of a client of the SNI proxy, and what is dialed for it.
use wireproxy.Base.{
  ℕ, ◌≡◌, ◌≢◌, refl, false, Option, none, some, List, [], ◌∷◌, ◌++◌, is_empty, inl, inr, Bool-cases,
  arith, if◌then◌else◌,
}
use wireproxy.Router.Agree.{routed_dial-routed_socks5_dial}
use wireproxy.Router.{DomainRouter, should_tunnel, via, routed_dial}
use wireproxy.Text.HostPort.{join_host_port, has_bracket}
use wireproxy.Text.{Text, codes}
use wireproxy.Traffic.{
  Dest, named, closed_client, settle, IsTidy, both_handed_over, client_shut, dials,
}
use wireproxy.Sni.{World, peek_client_hello, target_of, forward_hello, close_on_error, sni_serve}
use wireproxy.Text.Strings.{contains_byte}

closes-IsTidy : IsTidy (closed_client ∷ [])
unfolding settle
closes-IsTidy = (client_shut, refl, inr (refl, inr refl))

forward_hello-IsTidy :
    (w : World) (hello : Option Text) → IsTidy (close_on_error (forward_hello w hello))
unfolding settle forward_hello
forward_hello-IsTidy w none = closes-IsTidy
forward_hello-IsTidy w (some hostname) = elim (Bool-cases w.clears_deadline) [
  | inr fails ↦ rw fails closes-IsTidy
  | inl clears ↦ elim (Bool-cases (is_empty hostname)) [
    | inl nameless ↦ rw clears (rw nameless closes-IsTidy)
    | inr has_name ↦ elim (Bool-cases (w.dials (target_of hostname))) [
      | inl connects ↦
          rw clears (rw has_name (rw connects (both_handed_over, refl, inl (refl, refl))))
      | inr fails ↦ rw clears (rw has_name (rw fails (client_shut, refl, inr (refl, inr refl))))
    ]
  ]
]

-- Port 443 of a name; one with a colon stands in brackets.
abbrev pub https_at : Text → Text
https_at name =
    if contains_byte name b':' then codes "[" ++ name ++ codes "]:443" else name ++ codes ":443"

-- The name under which a connection is forwarded: the ClientHello's, where the deadline could be set
-- and cleared and the name is not empty.
abbrev pub forwarded_as : World → List Dest
forwarded_as w = elim w.hello [
  | none ↦ []
  | some name ↦
      if w.sets_deadline
      then if w.clears_deadline
        then if is_empty name then [] else named (https_at name) ∷ []
        else []
      else []
]

-- Whatever the client sends and the calls answer, the SNI proxy uses its two connections only while
-- they are open and in hand, and ends with the client's closed and no peer left, or with both
-- handed over to the goroutines that copy; and what it dials is exactly port 443 of the server name
-- in the ClientHello, in brackets where the name has a colon, and nothing where there is no such
-- name, it is empty, or a deadline cannot be set or cleared.
pub sni_serve-IsTidy : (w : World) → IsTidy (sni_serve w) × (dials (sni_serve w) ≡ forwarded_as w)
unfolding sni_serve join_host_port
sni_serve-IsTidy w = (
  elim (Bool-cases w.sets_deadline) [
    | inl sets ↦ rw sets (forward_hello-IsTidy w (peek_client_hello w))
    | inr fails ↦ rw fails closes-IsTidy
  ],
  ground arith,
)

-- A client is forwarded through the tunnel exactly where the router sends its server name there, the
-- name being without brackets and not empty.
pub routed_dial-target_of :
    (lower : ℕ → ℕ) (r : Option DomainRouter) (hostname : Text)
    → has_bracket hostname ≡ false
    → hostname ≢ []
    → routed_dial lower r (target_of hostname) ≡ via (should_tunnel lower r hostname)
unfolding contains_byte
routed_dial-target_of lower r hostname plain present =
    (routed_dial-routed_socks5_dial lower r hostname (codes "443") []
      (record { host_plain = plain; port_plain = refl; port_colon = refl }) present).0
