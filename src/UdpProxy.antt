-- ===== src/UdpProxy.antt =====
-- udp_proxy.go: the table of sessions, under interleavings of the goroutine that reads from the
-- clients, the cleaner, and one goroutine for each session, which reads from its remote end. An
-- event is one critical section or one call that blocks, with its outcome; in between, any other
-- goroutine may run. Payloads are left out, and the cleaner's ticks may come at any time.
mod State
mod Store
mod Clean
pub mod Valid
mod Dialing
mod Cleaning
mod Leaving
pub mod Invariant
pub mod Expiry
pub mod Rank
mod Steps
pub mod Ending
use wireproxy.Base.{
  ℕ, zero, suc, ◌+◌, ◌*◌, ◌%◌, ◌^◌, Bool, true, false, not, Option, none, some, List, [], ◌∷◌, ◌++◌,
  ℤ, pos_part, length, leb, ltb, ◌==◌, if◌then◌else◌,
}
use wireproxy.Text.{Text, text_eq}
unfoldable pub use State.*

-- The bits of `time.Duration(conf.InactivityTimeout) * time.Second`, for a positive timeout.
abbrev pub duration_bits : ℤ → ℕ
duration_bits timeout = pos_part timeout * 1_000_000_000 % 2 ^ 64

-- `now.Sub(sess.lastActive) >= inactivityDur`; from `2 ^ 63` up, the bits are a negative number.
unfoldable pub expired : ℤ → ℕ → Session → Bool
expired timeout now s =
    let bits = duration_bits timeout in
    if ltb bits (2 ^ 63)
    then leb (s.last_active + bits) now
    else leb (s.last_active + bits) (now + 2 ^ 64)

-- The cleaner's loop over the map.
unfoldable pub clean : ℤ → ℕ → List (Text × ℕ) → List Session → List (Text × ℕ) × List Session
unfolding get put expired
clean timeout now [] ss = ([], ss)
clean timeout now ((k, id) ∷ t) ss =
    let rest = clean timeout now t ss in
    elim (get id ss) [
      | none ↦ ((k, id) ∷ rest.0, rest.1)
      | some s ↦
          if expired timeout now s
          then clean timeout now t (put id (close_session_chan s) ss)
          else ((k, id) ∷ rest.0, rest.1)
    ]

unfoldable pub tick : ℤ → Proxy → Proxy
unfolding clean
tick timeout p =
    let cleaned = clean timeout p.now p.table p.sessions in
    record p { table = cleaned.0; sessions = cleaned.1 }

-- `removeSession` at the pointer `id`
unfoldable pub remove_session : ℕ → Session → Proxy → Proxy
unfolding find delete put
remove_session id s p = elim (find s.src p.table) [
  | none ↦ record p { sessions = put id (record s { phase = closing }) p.sessions }
  | some current ↦
      if current == id
      then record p {
        table = delete s.src p.table;
        sessions = put id (record s { phase = closing; closed = true }) p.sessions;
      }
      else record p { sessions = put id (record s { phase = closing }) p.sessions }
]

-- What `Read` returns: data, a time-out, another error.
pub data Read : Type 0 where
  got timed_out broken : Read

pub data Event : Type 0 where
  -- the main loop
  received : Text → Event
  listener_closed : Event
  dialed : Bool → Event
  installed spawned marked written : Event
  -- the cleaner, and the clock
  ticked : Event
  passed : ℕ → Event
  -- the goroutine of a session
  looped refreshed removed dropped : ℕ → Event
  returned : ℕ → Read → Event
  forwarded : ℕ → Bool → Event

-- One step of a session's own goroutine that does not touch the table; none where it stands
-- elsewhere.
unfoldable pub loop_head : Session → Option Session
loop_head s = elim s.phase [
  | at_head ↦ some (record s { phase = if s.closed then leaving else blocked })
  | _ ↦ none
]

abbrev after_read : Bool → Read → Phase
after_read closed got = touching
after_read closed timed_out = if closed then leaving else at_head
after_read closed broken = leaving

unfoldable pub read_returns : Read → Session → Option Session
read_returns result s = elim s.phase [
  | blocked ↦ some (record s { phase = after_read s.closed result })
  | _ ↦ none
]

unfoldable pub refresh : ℕ → Session → Option Session
refresh now s = elim s.phase [
  | touching ↦ some (record s { last_active = now; phase = forwarding })
  | _ ↦ none
]

unfoldable pub forward : Bool → Session → Option Session
forward sent s = elim s.phase [
  | forwarding ↦ some (record s { phase = if sent then at_head else leaving })
  | _ ↦ none
]

unfoldable pub close_conn : Session → Option Session
close_conn s = elim s.phase [
  | closing ↦ some (record s { conn_open = false; phase = finished })
  | _ ↦ none
]

-- A step of the goroutine at the pointer.
abbrev pub store_at : ℕ → Proxy → Option Session → Option Proxy
store_at id p none = none
store_at id p (some s) = some (record p { sessions = put id s p.sessions })

abbrev pub advance : ℕ → (Session → Option Session) → Proxy → Option Proxy
advance id f p = elim (get id p.sessions) [ none ↦ none | some s ↦ store_at id p (f s) ]

abbrev pub is_leaving : Phase → Bool
is_leaving leaving = true
is_leaving _ = false

abbrev pub leave : ℕ → Proxy → Option Proxy
leave id p = elim (get id p.sessions) [
  | none ↦ none
  | some s ↦ if is_leaving s.phase then some (remove_session id s p) else none
]

-- `s.lastActive = time.Now()` at the pointer
abbrev pub touch_at : ℕ → Proxy → List Session
touch_at id p = elim (get id p.sessions) [
  | none ↦ p.sessions
  | some s ↦ put id (touch p.now s) p.sessions
]

-- The first half of `getOrCreateSession`.
unfoldable pub look_up : Text → Proxy → Proxy
unfolding find get put
look_up src p = elim (find src p.table) [
  | none ↦ record p { reader = dialing src }
  | some id ↦ record p { sessions = touch_at id p; reader = marking id }
]

-- The dial, and the session that is made where it succeeds.
unfoldable pub dial : Text → Bool → Proxy → Proxy
dial src success p =
    if success
    then record p {
      sessions =
          p.sessions
          ++ record {
            src = src;
            conn_open = true;
            last_active = p.now;
            closed = false;
            phase = unstarted;
          }
            ∷ [];
      reader = created src (length p.sessions);
    }
    else record p { reader = idle }

-- The duplicate's connection is closed, and it gets no goroutine.
abbrev drop_duplicate : ℕ → List Session → List Session
drop_duplicate id ss = elim (get id ss) [
  | none ↦ ss
  | some s ↦ put id (record s { conn_open = false; phase = finished }) ss
]

-- The second half of `getOrCreateSession`.
unfoldable pub install : Text → ℕ → Proxy → Proxy
unfolding find get put
install src id p = elim (find src p.table) [
  | none ↦ record p { table = (src, id) ∷ p.table; reader = starting id }
  | some existing ↦ record p {
    sessions = drop_duplicate id (touch_at existing p);
    reader = marking existing;
  }
]

abbrev pub spawn : ℕ → Proxy → Proxy
spawn id p = elim (get id p.sessions) [
  | none ↦ p
  | some s ↦ record p {
    sessions = put id (record s { phase = at_head }) p.sessions;
    reader = marking id;
  }
]

-- The steps of the main loop; none where it stands elsewhere.
unfoldable pub reader_step : Event → Reader → Proxy → Option Proxy
unfolding look_up dial install
reader_step (received src) idle p = some (look_up src p)
reader_step listener_closed idle p = some (record p { reader = stopped })
reader_step (dialed success) (dialing src) p = some (dial src success p)
reader_step installed (created src id) p = some (install src id p)
reader_step spawned (starting id) p = some (spawn id p)
reader_step marked (marking id) p =
    some (record p { sessions = touch_at id p; reader = writing id })
reader_step written (writing id) p = some (record p { reader = idle })
reader_step _ _ p = none

unfoldable pub step : ℤ → Event → Proxy → Option Proxy
unfolding reader_step tick remove_session loop_head read_returns refresh forward close_conn
step timeout ticked p = if ltb 0 (pos_part timeout) then some (tick timeout p) else none
step timeout (passed d) p = some (record p { now = p.now + d })
step timeout (looped id) p = advance id loop_head p
step timeout (returned id result) p = advance id (read_returns result) p
step timeout (refreshed id) p = advance id (refresh p.now) p
step timeout (forwarded id sent) p = advance id (forward sent) p
step timeout (removed id) p = leave id p
step timeout (dropped id) p = advance id close_conn p
step timeout event p = reader_step event p.reader p

unfoldable pub run : ℤ → List Event → Proxy → Option Proxy
unfolding step
run timeout [] p = some p
run timeout (event ∷ events) p = elim (step timeout event p) [
  | none ↦ none
  | some next ↦ run timeout events next
]
