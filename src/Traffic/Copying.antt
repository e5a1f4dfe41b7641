-- ===== src/Traffic/Copying.antt =====
-- `connForward` of routine.go and the two goroutines at the end of `serve` of http.go, which copy
-- between a client and its peer. A copy may return at any time, and returns at once where one of
-- the connections is closed; what is copied is left out.
pub mod Ends
use wireproxy.Base.{Bool, true, false, not, ◌&&◌, ◌||◌, Option, none, some, List, [], ◌∷◌}

pub data Conn : Type 0 where
  client peer : Conn

-- The goroutine that copies to the client, and the one that copies to the peer.
pub data Copier : Type 0 where
  inbound outbound : Copier

-- Copying, then before its first and its second call of `Close`, then past both.
pub data CopyPhase : Type 0 where
  copying closing half_closed finished : CopyPhase

pub record Pair : Type 0 where
  pub client_open : Bool
  pub peer_open : Bool
  pub inbound_phase : CopyPhase
  pub outbound_phase : CopyPhase

abbrev pub other : Conn → Conn
other client = peer
other peer = client

abbrev pub close : Conn → Pair → Pair
close client s = record s { client_open = false }
close peer s = record s { peer_open = false }

abbrev pub phase_of : Copier → Pair → CopyPhase
phase_of inbound s = s.inbound_phase
phase_of outbound s = s.outbound_phase

abbrev pub put_phase : Copier → CopyPhase → Pair → Pair
put_phase inbound p s = record s { inbound_phase = p }
put_phase outbound p s = record s { outbound_phase = p }

-- The connection that a goroutine closes first: deferred calls run in reverse. `connForward` closes
-- the one that it copies to.
abbrev pub forward_order : Copier → Conn
forward_order inbound = client
forward_order outbound = peer

-- Both goroutines of `serve` close the peer first.
abbrev pub serve_order : Copier → Conn
serve_order c = peer

abbrev pub started : Pair
started = record {
  client_open = true;
  peer_open = true;
  inbound_phase = copying;
  outbound_phase = copying;
}

-- The next step of a goroutine in its phase; none past its end.
abbrev pub step_in : Conn → Copier → CopyPhase → Pair → Option Pair
step_in first c copying s = some (put_phase c closing s)
step_in first c closing s = some (put_phase c half_closed (close first s))
step_in first c half_closed s = some (put_phase c finished (close (other first) s))
step_in first c finished s = none

unfoldable pub advance : (Copier → Conn) → Copier → Pair → Option Pair
advance order c s = step_in (order c) c (phase_of c s) s

-- The steps of both, in the order in which they happen.
unfoldable pub advance_all : (Copier → Conn) → List Copier → Pair → Option Pair
unfolding advance
advance_all order [] s = some s
advance_all order (c ∷ events) s = elim (advance order c s) [
  | none ↦ none
  | some next ↦ advance_all order events next
]

-- A goroutine's next step comes by itself: it only waits while it copies between open connections.
unfoldable pub is_due : Copier → Pair → Bool
is_due c s = elim (phase_of c s) [
  | copying ↦ not (s.client_open && s.peer_open)
  | closing ↦ true
  | half_closed ↦ true
  | finished ↦ false
]
