-- ===== src/Connections/Validate/Ports.antt =====
-- What `normalizePort` identifies.
use wireproxy.Base.{◌≡◌, ◌↔◌, some, ℤ, inl, inr, Option-cases, arith}
use wireproxy.Connections.Validate.{normalize_port}
use wireproxy.Text.Numbers.RoundTrip.{atoi-itoa, atoi-IsInt}
use wireproxy.Text.Numbers.{atoi}
use wireproxy.Text.{Text}

-- Two ports that are numbers are normalized alike exactly where they are the same number.
normalize_port_iff :
    (p q : Text) (m n : ℤ)
    → atoi p ≡ some m
    → atoi q ≡ some n
    → (normalize_port p ≡ normalize_port q) ↔ (m ≡ n)
unfolding normalize_port
normalize_port_iff p q m n hp hq = (
  λ e. ground (arith, atoi-itoa m (atoi-IsInt p hp), atoi-itoa n (atoi-IsInt q hq)),
  λ e. ground arith,
)

-- Normalizing twice is normalizing once, for any port.
normalize_port_idempotent : (p : Text) → normalize_port (normalize_port p) ≡ normalize_port p
unfolding normalize_port
normalize_port_idempotent p = elim (Option-cases (atoi p)) [
  | inl bad ↦ ground arith
  | inr (n, h) ↦ ground (arith, atoi-itoa n (atoi-IsInt p h))
]
