-- ===== src/Text/HostPort.antt =====
-- `net.SplitHostPort` and `net.JoinHostPort`. The four messages of a refusal are one `none`.
pub mod RoundTrip
use wireproxy.Base.{
  ℕ, ◌≡◌, refl, Bool, true, false, ◌||◌, Option, none, some, List, [], ◌∷◌, ◌++◌, ◌==◌,
  if◌then◌else◌, arith,
}
use wireproxy.Text.Defs.{Text}
use wireproxy.Text.Strings.{contains_byte, cut}

-- What stands before and behind the last `:`.
unfoldable pub cut_last : Text → Option (Text × Text)
unfolding contains_byte cut
cut_last [] = none
cut_last (c ∷ s) = elim (cut_last s) [
  | some p ↦ some (c ∷ p.0, p.1)
  | none ↦ if c == b':' then some ([], s) else none
]

-- `host` holds no bracket of its own, and neither does the port.
abbrev pub has_bracket : Text → Bool
has_bracket s = contains_byte s b'[' || contains_byte s b']'

-- An address that starts with `[`: the rest of it after the bracket. The first `]` must stand
-- just before the last colon.
unfoldable pub split_bracketed : Text → Option (Text × Text)
unfolding contains_byte cut
split_bracketed s = elim (cut s b']') [
  | none ↦ none
  | some (host, []) ↦ none
  | some (host, c ∷ port) ↦
      if c == b':'
      then if contains_byte port b':' || contains_byte host b'[' || has_bracket port
        then none
        else some (host, port)
      else none
]

abbrev plain_parts : Option (Text × Text) → Option (Text × Text)
plain_parts none = none
plain_parts (some (host, port)) =
    if contains_byte host b':' || has_bracket host || has_bracket port
    then none
    else some (host, port)

unfoldable pub split_host_port : Text → Option (Text × Text)
unfolding split_bracketed cut_last contains_byte cut
split_host_port [] = none
split_host_port (c ∷ s) = if c == b'[' then split_bracketed s else plain_parts (cut_last (c ∷ s))

unfoldable pub join_host_port : Text → Text → Text
unfolding contains_byte
join_host_port host port =
    if contains_byte host b':' then b'[' ∷ (host ++ b']' ∷ b':' ∷ port) else host ++ b':' ∷ port
