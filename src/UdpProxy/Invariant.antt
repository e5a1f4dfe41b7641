-- ===== src/UdpProxy/Invariant.antt =====
-- The invariant under every event, in any order.
use wireproxy.Base.{
  ℕ, ◌+◌, ltb, pos_part, ◌≡◌, refl, inl, inr, some, List, [], ◌∷◌, ℤ, Bool-cases, Option-cases,
  arith, subst,
}
use wireproxy.UdpProxy.{
  Reader, idle, stopped, dialing, created, starting, marking, writing, Proxy, start, loop_head,
  read_returns, refresh, forward, close_conn, reader_step, step, run, Event, received,
  listener_closed, dialed, installed, spawned, marked, written, ticked, passed, looped, refreshed,
  removed, dropped, returned, forwarded, touch_at,
}
use wireproxy.UdpProxy.Valid.{
  Valid, reader-Valid, loop_head-Quiet, read_returns-Quiet, refresh-Quiet, forward-Quiet,
  close_conn-Quiet, start-Valid,
}
use wireproxy.UdpProxy.Dialing.{
  advance-Valid, touch_at-Valid, look_up-Valid, dial-Valid, install-Valid, spawn-Valid,
}
use wireproxy.UdpProxy.Cleaning.{tick-Valid}
use wireproxy.UdpProxy.Leaving.{leave-Valid}

module _ (p : Proxy) (v : Valid p) where
  passed-Valid : (d : ℕ) → Valid (record p { now = p.now + d })
  passed-Valid d = record {
    distinct = v.distinct;
    serves = v.serves;
    accounted = v.accounted;
    connected = v.connected;
    pending = v.pending;
    waits = v.waits;
  }

  reader_step-Valid :
      (event : Event) (reader : Reader) {q : Proxy}
      → p.reader ≡ reader
      → reader_step event reader p ≡ some q
      → Valid q
  unfolding reader_step
  reader_step-Valid (received src) idle e m = subst Valid (cc) (look_up-Valid p v src e)
  reader_step-Valid listener_closed idle e m =
      subst Valid (cc) (reader-Valid p v stopped (λ i h. ground arith) (λ i h. ground arith) tt)
  reader_step-Valid (dialed success) (dialing src) e m =
      subst Valid (cc) (dial-Valid p v src e success)
  reader_step-Valid installed (created src id) e m = subst Valid (cc) (install-Valid p v src id e)
  reader_step-Valid spawned (starting id) e m = subst Valid (cc) (spawn-Valid p v id e)
  reader_step-Valid marked (marking id) e m = subst Valid (cc) (
      reader-Valid (record p { sessions = touch_at id p }) (touch_at-Valid p v id) (writing id)
        (λ i h. ground arith) (λ i h. ground arith) tt)
  reader_step-Valid written (writing id) e m =
      subst Valid (cc) (reader-Valid p v idle (λ i h. ground arith) (λ i h. ground arith) tt)
  reader_step-Valid _ _ e m = cc

  pub step-Valid :
      (timeout : ℤ) (event : Event) {q : Proxy} → step timeout event p ≡ some q → Valid q
  unfolding step
  step-Valid timeout ticked {q} m = elim (Bool-cases (ltb 0 (pos_part timeout))) [
    | inl on ↦ subst Valid (ground arith) (tick-Valid p v timeout)
    | inr off ↦ ground arith
  ]
  step-Valid timeout (passed d) m = subst Valid (cc) (passed-Valid d)
  step-Valid timeout (looped id) m = advance-Valid p v id loop_head loop_head-Quiet m
  step-Valid timeout (returned id result) m =
      advance-Valid p v id (read_returns result) (read_returns-Quiet result) m
  step-Valid timeout (refreshed id) m = advance-Valid p v id (refresh p.now) (refresh-Quiet p.now) m
  step-Valid timeout (forwarded id sent) m =
      advance-Valid p v id (forward sent) (forward-Quiet sent) m
  step-Valid timeout (removed id) m = leave-Valid p v id m
  step-Valid timeout (dropped id) m = advance-Valid p v id close_conn close_conn-Quiet m
  step-Valid timeout event m = reader_step-Valid event p.reader refl m

pub run-Valid :
    (timeout : ℤ) (events : List Event) (p : Proxy) {q : Proxy}
    → Valid p
    → run timeout events p ≡ some q
    → Valid q
unfolding run
run-Valid timeout [] p v e = subst Valid (cc) v
run-Valid timeout (event ∷ events) p v e = elim (Option-cases (step timeout event p)) [
  | inl none' ↦ cc
  | inr (next, m) ↦ run-Valid timeout events next (step-Valid p v timeout event m) (cc)
]

-- Whatever happens in whatever order, from an empty table: every session that the table holds under
-- a source is that source's, its channel open and its goroutine not yet come to removeSession;
-- every other session is told to end, or its goroutine has come to removeSession, or it is about to
-- be installed; a connection is open exactly until the goroutine is past its end; a goroutine that
-- has not started is the main loop's to start; and where the main loop has dialed for a source, the
-- table holds none under it.
pub run-start-Valid :
    (timeout : ℤ) (now : ℕ) (events : List Event) {p : Proxy}
    → run timeout events (start now) ≡ some p
    → Valid p
run-start-Valid timeout now events e = run-Valid timeout events (start now) (start-Valid now) e
