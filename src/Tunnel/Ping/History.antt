-- ===== src/Tunnel/Ping/History.antt =====
-- The records against the history of the probes, and what makes a connection stale.
use wireproxy.Base.{ℕ, ◌≡◌, Bool, ◌&&◌, List, [], ◌∷◌, any, if◌then◌else◌}
use wireproxy.Host.{Addr}
use wireproxy.Text.{Text, text_eq}
use wireproxy.Tunnel.Ping.{Records, Probe, is_pong}

-- The second of the last pong of an address, or that of the start.
abbrev pub last_pong : Text → ℕ → List (ℕ × Probe) → ℕ
last_pong addr last [] = last
last_pong addr last ((now, p) ∷ ends) =
    last_pong addr (if is_pong p && text_eq p.addr.string addr then now else last) ends

abbrev pub is_checked : List Addr → Text → Bool
is_checked addrs text = any (λ (a : Addr). text_eq a.string text) addrs

-- The records hold `value` at the addresses, and nothing else.
abbrev Holds : List Addr → (Text → ℕ) → Records → Type 0
Holds addrs value records =
    (q : Text → ℕ → Bool)
    → any (λ e. q e.0 e.1) records ≡ any (λ (a : Addr). q a.string (value a.string)) addrs

abbrev after : ℕ → Probe → (Text → ℕ) → Text → ℕ
after now p value text = if is_pong p && text_eq p.addr.string text then now else value text
