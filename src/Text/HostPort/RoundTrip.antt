-- ===== src/Text/HostPort/RoundTrip.antt =====
-- Joining and splitting are inverse on clean parts, and splitting yields clean parts.
use wireproxy.Base.{
  ◌≡◌, refl, false, none, some, [], ◌∷◌, ◌++◌, inl, inr, Option-cases, Bool-cases, ◌==◌, arith,
}
use wireproxy.Text.Defs.{Text}
use wireproxy.Text.HostPort.{
  cut_last, has_bracket, split_bracketed, plain_parts, split_host_port, join_host_port,
}
use wireproxy.Text.Strings.Cut.{cut-append, cut-eq-some}
use wireproxy.Text.Strings.{contains_byte, cut}

-- No bracket in either part, and no colon in the port.
pub record IsClean (host port : Text) : Type 0 where
  pub host_plain : has_bracket host ≡ false
  pub port_plain : has_bracket port ≡ false
  pub port_colon : contains_byte port b':' ≡ false

cut_last-none : (s : Text) → contains_byte s b':' ≡ false → cut_last s ≡ none
unfolding cut_last contains_byte
cut_last-none [] h = refl
cut_last-none (c ∷ s) h = ground (arith, cut_last-none s)

cut_last-append :
    (host port : Text)
    → contains_byte port b':' ≡ false
    → cut_last (host ++ b':' ∷ port) ≡ some (host, port)
unfolding cut_last
cut_last-append [] port h = rw (cut_last-none port h) (ground arith)
cut_last-append (c ∷ host) port h = rw (cut_last-append host port h)

split_bracketed-append :
    (host port : Text)
    → IsClean host port
    → split_bracketed (host ++ b']' ∷ b':' ∷ port) ≡ some (host, port)
unfolding split_bracketed
split_bracketed-append host port c = ground (
  arith,
  c.host_plain,
  c.port_plain,
  c.port_colon,
  cut-append host b']' (b':' ∷ port) (ground (arith, c.host_plain)),
)

split_plain :
    (host port : Text)
    → contains_byte host b':' ≡ false
    → IsClean host port
    → split_host_port (host ++ b':' ∷ port) ≡ some (host, port)
unfolding split_host_port contains_byte
split_plain [] port h c = ground (arith, c.port_plain, cut_last-none port c.port_colon)
split_plain (x ∷ host) port h c =
    ground (arith, c.host_plain, c.port_plain, cut_last-append host port c.port_colon)

-- A host and a port that are clean come back from the address that joins them.
pub split_host_port-join_host_port :
    (host port : Text)
    → IsClean host port
    → split_host_port (join_host_port host port) ≡ some (host, port)
unfolding split_host_port join_host_port
split_host_port-join_host_port host port c = elim (Bool-cases (contains_byte host b':')) [
  | inl v6 ↦ rw v6 (split_bracketed-append host port c)
  | inr plain ↦ rw plain (split_plain host port plain c)
]

cut_last-some : (s : Text) → cut_last s ≡ none → contains_byte s b':' ≡ false
unfolding cut_last contains_byte
cut_last-some [] h = refl
cut_last-some (c ∷ s) h = elim (Option-cases (cut_last s)) [
  | inl missing ↦ ground (arith, cut_last-some s missing)
  | inr (p, found) ↦ absurd (ground arith)
]

cut_last-eq-some :
    (s host port : Text) → cut_last s ≡ some (host, port) → contains_byte port b':' ≡ false
unfolding cut_last contains_byte
cut_last-eq-some [] host port h = cc
cut_last-eq-some (c ∷ s) host port h = elim (Option-cases (cut_last s)) [
  | inl missing ↦ ground (arith, cut_last-some s missing)
  | inr ((k, v), found) ↦ ground (arith, cut_last-eq-some s k v found)
]

split_bracketed-IsClean :
    (s host port : Text) → split_bracketed s ≡ some (host, port) → IsClean host port
unfolding split_bracketed
split_bracketed-IsClean s host port h = elim (Option-cases (cut s b']')) [
  | inl missing ↦ absurd (ground arith)
  | inr ((k, []), found) ↦ absurd (ground arith)
  | inr ((k, c ∷ p), found) ↦ ground (arith, cut-eq-some s b']' k (c ∷ p) found)
]

plain_parts-IsClean :
    (s host port : Text) → plain_parts (cut_last s) ≡ some (host, port) → IsClean host port
plain_parts-IsClean s host port h = elim (Option-cases (cut_last s)) [
  | inl missing ↦ absurd (ground arith)
  | inr ((k, p), found) ↦ ground (arith, cut_last-eq-some s k p found)
]

-- What an address splits into is clean.
pub split_host_port-IsClean :
    (s host port : Text) → split_host_port s ≡ some (host, port) → IsClean host port
unfolding split_host_port
split_host_port-IsClean [] host port h = cc
split_host_port-IsClean (c ∷ s) host port h = elim (Bool-cases (c == b'[')) [
  | inl bracket ↦ split_bracketed-IsClean s host port (ground arith)
  | inr plain ↦ plain_parts-IsClean (c ∷ s) host port (ground arith)
]
