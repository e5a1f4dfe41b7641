-- ===== src/Sni.antt =====
-- sni.go: the server name of a TLS client, and where its connection is forwarded. The handshake is
-- the standard library's: it answers with the ClientHello's server name, if it has come to one.
pub mod Forwarded
use wireproxy.Base.{
  ℕ, ◌-◌, ◌≡◌, ◌≢◌, refl, Bool, true, false, Option, none, some, List, [], ◌∷◌, ◌++◌, is_empty, inl,
  inr, Bool-cases, Option-cases, arith, if◌then◌else◌,
}
use wireproxy.Router.Agree.{routed_dial-routed_socks5_dial}
use wireproxy.Router.{DomainRouter, should_tunnel, via, routed_dial}
use wireproxy.Text.HostPort.RoundTrip.{IsClean}
use wireproxy.Text.HostPort.{join_host_port, has_bracket}
use wireproxy.Text.{Text, codes}
use wireproxy.Traffic.{
  Dest, named, Effect, dialed, connected, closed_client, forwarding, settle, accepted, IsTidy,
  dials, handed_over, shut, absent,
}

-- What the calls answer: whether the read deadline can be set and cleared, the ClientHello's server
-- name, whether the handshake succeeds where there is none, and whether a dial gives a connection.
pub record World : Type 0 where
  pub sets_deadline : Bool
  pub hello : Option Text
  pub handshakes : Bool
  pub clears_deadline : Bool
  pub dials : Text → Bool

-- The server name, or none for an error; without a ClientHello the name is empty.
unfoldable pub peek_client_hello : World → Option Text
peek_client_hello w = elim w.hello [
  | some name ↦ some name
  | none ↦ if w.handshakes then some [] else none
]

abbrev pub target_of : Text → Text
target_of hostname = join_host_port hostname (codes "443")

-- The effects, and whether the error is nil.
unfoldable pub forward_hello : World → Option Text → List Effect × Bool
forward_hello w none = ([], false)
forward_hello w (some hostname) =
    if w.clears_deadline
    then if is_empty hostname
      then ([], false)
      else if w.dials (target_of hostname)
      then (dialed (named (target_of hostname)) ∷ connected ∷ forwarding ∷ [], true)
      else (dialed (named (target_of hostname)) ∷ [], false)
    else ([], false)

unfoldable pub sni_proxy_forward : World → List Effect × Bool
unfolding peek_client_hello forward_hello
sni_proxy_forward w = if w.sets_deadline then forward_hello w (peek_client_hello w) else ([], false)

abbrev pub close_on_error : List Effect × Bool → List Effect
close_on_error (effects, true) = effects
close_on_error (effects, false) = effects ++ closed_client ∷ []

unfoldable pub sni_serve : World → List Effect
unfolding sni_proxy_forward
sni_serve w = close_on_error (sni_proxy_forward w)
