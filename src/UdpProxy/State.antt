-- ===== src/UdpProxy/State.antt =====
-- udp_proxy.go: what the proxy keeps, and where its goroutines stand.
use wireproxy.Base.{ℕ, zero, suc, Bool, true, Option, none, some, List, [], ◌∷◌, if◌then◌else◌}
use wireproxy.Text.{Text, text_eq}

-- Where a session's goroutine stands in `handleRemoteToLocal`: not spawned yet, at the head of its
-- loop, in `Read`, before the update of `lastActive`, before the write to the client, before
-- `removeSession`, before `Close`, and past the end.
pub data Phase : Type 0 where
  unstarted at_head blocked touching forwarding leaving closing finished : Phase

-- `udpSession`, with the source address and the place of its goroutine. `closed` tells whether
-- `closeChan` is.
pub record Session : Type 0 where
  pub src : Text
  pub conn_open : Bool
  pub last_active : ℕ
  pub closed : Bool
  pub phase : Phase

-- Where the main loop stands: in `ReadFromUDP`, past the end, before the dial, before the second
-- lock with a session of its own, before the `go` statement, before the update of `lastActive`,
-- and before the write.
pub data Reader : Type 0 where
  idle stopped : Reader
  dialing : Text → Reader
  created : Text → ℕ → Reader
  starting marking writing : ℕ → Reader

-- A pointer to a session is its place in `sessions`, which only grows.
pub record Proxy : Type 0 where
  pub table : List (Text × ℕ)
  pub sessions : List Session
  pub reader : Reader
  pub now : ℕ

abbrev pub start : ℕ → Proxy
start now = record { table = []; sessions = []; reader = idle; now = now }

-- `sessions[src]` and `delete(sessions, src)`
unfoldable pub find : Text → List (Text × ℕ) → Option ℕ
find src [] = none
find src ((k, id) ∷ t) = let rest = find src t in if text_eq k src then some id else rest

unfoldable pub delete : Text → List (Text × ℕ) → List (Text × ℕ)
delete src [] = []
delete src ((k, id) ∷ t) = let rest = delete src t in if text_eq k src then rest else (k, id) ∷ rest

-- The object behind a pointer, and its update.
unfoldable pub get : ℕ → List Session → Option Session
get i [] = none
get zero (s ∷ ss) = some s
get (suc i) (s ∷ ss) = get i ss

unfoldable pub put : ℕ → Session → List Session → List Session
put i r [] = []
put zero r (s ∷ ss) = r ∷ ss
put (suc i) r (s ∷ ss) = s ∷ put i r ss

-- `closeSessionChan`: closing twice is closing once.
abbrev pub close_session_chan : Session → Session
close_session_chan s = record s { closed = true }

abbrev pub touch : ℕ → Session → Session
touch now s = record s { last_active = now }
