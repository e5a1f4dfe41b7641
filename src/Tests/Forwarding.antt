-- ===== src/Tests/Forwarding.antt =====
-- The UDP proxy: one client's session is opened, expires, and ends. A TCP tunnel: one copy returns and
-- both goroutines end.
use wireproxy.Base.{
  ◌≤◌, ◌⊎◌, ◌||◌, ◌+◌, ◌*◌, ◌<◌, ◌≡◌, ◌↔◌, refl, true, false, some, List, [], ◌∷◌, ◌++◌, pos, arith,
}
use wireproxy.Traffic.Copying
use wireproxy.Traffic.Copying.Ends.{count, AllClosed, advance_all-AllClosed}
use wireproxy.Traffic.Copying.{Copier, inbound, outbound, Pair, forward_order, started, is_due}
use wireproxy.Text.{Text, codes}
use wireproxy.UdpProxy.{
  Session, at_head, finished, idle, Proxy, start, find, get, tick, Event, received, dialed,
  installed, spawned, marked, written, ticked, passed, looped, removed, dropped, run,
}
use wireproxy.UdpProxy.Valid.{Valid}
use wireproxy.UdpProxy.Invariant.{run-start-Valid}
use wireproxy.UdpProxy.Expiry.{tick_iff}
use wireproxy.UdpProxy.Ending.{Ends, run-closed-Ends}

abbrev client : Text
client = codes "10.0.0.2:5000"

abbrev opening : List Event
opening = received client ∷ dialed true ∷ installed ∷ spawned ∷ marked ∷ written ∷ []

abbrev session : Session
session = record {
  src = client;
  conn_open = true;
  last_active = 0;
  closed = false;
  phase = at_head;
}

abbrev opened : Proxy
opened = record { table = (client, 0) ∷ []; sessions = session ∷ []; reader = idle; now = 0 }

opening_runs : run (pos 60) opening (start 0) ≡ some opened
unfolding run
opening_runs = refl

run-start-Valid_example : Valid opened
run-start-Valid_example = run-start-Valid (pos 60) 0 opening opening_runs

abbrev minute_later : Proxy
minute_later = record opened { now = 60_000_000_000 }

later_runs : run (pos 60) (opening ++ passed 60_000_000_000 ∷ []) (start 0) ≡ some minute_later
unfolding run
later_runs = refl

later-Valid : Valid minute_later
later-Valid = run-start-Valid (pos 60) 0 (opening ++ passed 60_000_000_000 ∷ []) later_runs

tick_iff_example : (find client (tick (pos 60) minute_later).table ≡ some 0) ↔ (
    (find client minute_later.table ≡ some 0)
    × (minute_later.now < session.last_active + 60 * 1_000_000_000))
unfolding get
tick_iff_example = tick_iff 60 minute_later client 0 session (omega arith) later-Valid refl

-- At the minute, the cleaner drops the session and tells its goroutine to end.
abbrev told : Proxy
told = record minute_later { table = []; sessions = record session { closed = true } ∷ [] }

abbrev until_told : List Event
until_told = opening ++ passed 60_000_000_000 ∷ ticked ∷ []

told_runs : run (pos 60) until_told (start 0) ≡ some told
unfolding run
told_runs = refl

told-Valid : Valid told
told-Valid = run-start-Valid (pos 60) 0 until_told told_runs

abbrev wind_down : List Event
wind_down = looped 0 ∷ removed 0 ∷ dropped 0 ∷ []

abbrev ended : Proxy
ended = record told {
  sessions = record session { closed = true; phase = finished; conn_open = false } ∷ [];
}

ended_runs : run (pos 60) wind_down told ≡ some ended
unfolding run
ended_runs = refl

run-closed-Ends_example : Ends (pos 60) 0 wind_down ended
unfolding get
run-closed-Ends_example =
    run-closed-Ends (pos 60) 0 wind_down told (record session { closed = true }) told-Valid refl
      refl refl ended_runs

-- The client hangs up: the copy to the peer returns, its goroutine closes both, and the other ends.
abbrev hang_up : List Copier
hang_up = outbound ∷ outbound ∷ inbound ∷ outbound ∷ inbound ∷ inbound ∷ []

abbrev hung_up : Pair
hung_up = record {
  client_open = false;
  peer_open = false;
  inbound_phase = Copying.finished;
  outbound_phase = Copying.finished;
}

hang_up_runs : Copying.advance_all forward_order hang_up started ≡ some hung_up
unfolding Copying.advance_all
hang_up_runs = refl

advance_all-AllClosed_example :
    (count hang_up ≤ 6)
    × ((hang_up ≡ [])
        ⊎ ((is_due inbound hung_up || is_due outbound hung_up ≡ true) ⊎ AllClosed hung_up))
advance_all-AllClosed_example = advance_all-AllClosed forward_order hang_up hung_up hang_up_runs
