-- ===== src/UdpProxy/Steps.antt =====
-- A step of any goroutine leaves a closed session closed and no further from its end.
use wireproxy.Base.{
  ℕ, ◌≡◌, refl, Bool, true, false, some, ℤ, inl, inr, Bool-cases, Option-cases, ltb, pos_part, ◌==◌,
  ==_iff, arith, subst, if◌then◌else◌,
}
use wireproxy.Text.{Text}
use wireproxy.UdpProxy.Store.{get-concat, get-some-lt}
use wireproxy.UdpProxy.Clean.{get-clean}
use wireproxy.UdpProxy.Valid.{Valid, Waits, is_unstarted}
use wireproxy.UdpProxy.{
  unstarted, at_head, closing, Session, Reader, idle, dialing, created, starting, marking, writing,
  Proxy, find, get, put, tick, remove_session, loop_head, read_returns, refresh, forward,
  close_conn, reader_step, step, Event, received, listener_closed, dialed, installed, spawned,
  marked, written, ticked, passed, looped, refreshed, removed, dropped, returned, forwarded, leave,
  look_up, dial, install, spawn, is_leaving, close_session_chan,
}
use wireproxy.UdpProxy.Rank.{
  own, Toward, loop_head-Down, read_returns-Down, refresh-Down, forward-Down, close_conn-Down,
  put-Toward, advance-Toward, stay, touch_at-Toward,
}

module _ (p : Proxy) (i : ℕ) (s : Session) (at : get i p.sessions ≡ some s)
    (closed : s.closed ≡ true) (started : is_unstarted s.phase ≡ false) where
  to : (n : ℕ) (q r : Proxy) → Toward n i s q.sessions → some q ≡ some r → Toward n i s r.sessions
  to n q r t e = subst (λ (x : Proxy). Toward n i s x.sessions) {x = q} {y = r} (cc) t

  look_up-Toward : (src : Text) → Toward 0 i s (look_up src p).sessions
  unfolding look_up
  look_up-Toward src = elim (Option-cases (find src p.table)) [
    | inl none' ↦ rw (none', look_up) (stay p i s at closed started)
    | inr (j, f) ↦ rw (f, look_up) (touch_at-Toward p i s at closed started j)
  ]

  dial-Toward : (src : Text) (success : Bool) → Toward 0 i s (dial src success p).sessions
  unfolding dial
  dial-Toward src false = (stay p i s at closed started)
  dial-Toward src true = (
    s,
    ground (
      arith,
      get-concat i
          (record {
            src = src;
            conn_open = true;
            last_active = p.now;
            closed = false;
            phase = unstarted;
          })
          p.sessions,
      get-some-lt i p.sessions at,
    ),
    closed,
    started,
    ground arith,
  )

  install-Toward :
      (src : Text) (id : ℕ)
      → Valid p
      → p.reader ≡ created src id
      → Toward 0 i s (install src id p).sessions
  unfolding install
  install-Toward src id v e =
      let w : Waits p.table p.sessions (created src id) =
        subst (Waits p.table p.sessions) e v.waits in
      rw (w.0, install) (stay p i s at closed started)

  spawned-Toward :
      (id : ℕ) (t : Session)
      → get id p.sessions ≡ some t
      → is_unstarted t.phase ≡ true
      → Toward 0 i s (put id (record t { phase = at_head }) p.sessions)
  spawned-Toward id t g u =
      put-Toward p i s at closed started 0 id t (record t { phase = at_head }) g
        (ground (arith, ==_iff id i))

  spawn-Toward : (id : ℕ) → Valid p → p.reader ≡ starting id → Toward 0 i s (spawn id p).sessions
  spawn-Toward id v e =
      let w : Waits p.table p.sessions (starting id) = subst (Waits p.table p.sessions) e v.waits in
      rw (w.1, spawn) (spawned-Toward id w.0 w.1 w.2)

  tick-Toward : (timeout : ℤ) → Toward 0 i s (tick timeout p).sessions
  unfolding tick
  tick-Toward timeout = elim (get-clean timeout p.now i p.table p.sessions at) [
    | inl same ↦ (s, same, closed, started, ground arith)
    | inr shut ↦ (close_session_chan s, shut, refl, started, ground arith)
  ]

  -- Whether its channel is closed on the way or not.
  closing-Toward :
      (j : ℕ) (t r : Session)
      → get j p.sessions ≡ some t
      → is_leaving t.phase ≡ true
      → r.phase ≡ closing
      → (t.closed ≡ true → r.closed ≡ true)
      → Toward (if j == i then 1 else 0) i s (put j r p.sessions)
  closing-Toward j t r g l e c =
      put-Toward p i s at closed started (if j == i then 1 else 0) j t r g
        (ground (arith, ==_iff j i))

  left-Toward :
      (j : ℕ) (t : Session)
      → get j p.sessions ≡ some t
      → is_leaving t.phase ≡ true
      → Toward (if j == i then 1 else 0) i s (remove_session j t p).sessions
  unfolding remove_session
  left-Toward j t g l = elim (Option-cases (find t.src p.table)) [
    | inl none' ↦
        rw (none', remove_session)
          (closing-Toward j t (record t { phase = closing }) g l refl (λ c. c))
    | inr (k, f) ↦ elim (Bool-cases (k == j)) [
      | inl same ↦
          rw (f, same, remove_session)
            (closing-Toward j t (record t { phase = closing; closed = true }) g l refl (λ c. refl))
      | inr other ↦
          rw (f, other, remove_session)
            (closing-Toward j t (record t { phase = closing }) g l refl (λ c. c))
    ]
  ]

  leave-Toward :
      (j : ℕ) {q : Proxy} → leave j p ≡ some q → Toward (if j == i then 1 else 0) i s q.sessions
  unfolding remove_session
  leave-Toward j {q} e = elim (Option-cases (get j p.sessions)) [
    | inl none' ↦ cc
    | inr (t, g) ↦ elim (Bool-cases (is_leaving t.phase)) [
      | inr stays ↦ ground arith
      | inl l ↦
          to (if j == i then 1 else 0) (remove_session j t p) q (left-Toward j t g l) (ground arith)
    ]
  ]

  reader_step-Toward :
      (event : Event) (reader : Reader) {q : Proxy}
      → Valid p
      → p.reader ≡ reader
      → reader_step event reader p ≡ some q
      → Toward 0 i s q.sessions
  unfolding reader_step
  reader_step-Toward (received src) idle v e m = to 0 _ _ (look_up-Toward src) m
  reader_step-Toward listener_closed idle v e m = to 0 _ _ (stay p i s at closed started) m
  reader_step-Toward (dialed success) (dialing src) v e m = to 0 _ _ (dial-Toward src success) m
  reader_step-Toward installed (created src id) v e m = to 0 _ _ (install-Toward src id v e) m
  reader_step-Toward spawned (starting id) v e m = to 0 _ _ (spawn-Toward id v e) m
  reader_step-Toward marked (marking id) v e m =
      to 0 _ _ (touch_at-Toward p i s at closed started id) m
  reader_step-Toward written (writing id) v e m = to 0 _ _ (stay p i s at closed started) m
  reader_step-Toward _ _ v e m = cc

  pub step-Toward :
      (timeout : ℤ) (event : Event) {q : Proxy}
      → Valid p
      → step timeout event p ≡ some q
      → Toward (own i event) i s q.sessions
  unfolding step
  step-Toward timeout ticked {q} v m = elim (Bool-cases (ltb 0 (pos_part timeout))) [
    | inl on ↦ to 0 (tick timeout p) q (tick-Toward timeout) (ground arith)
    | inr off ↦ ground arith
  ]
  step-Toward timeout (passed d) v m = to 0 _ _ (stay p i s at closed started) m
  step-Toward timeout (looped id) v m =
      advance-Toward p i s at closed started id loop_head loop_head-Down m
  step-Toward timeout (returned id result) v m =
      advance-Toward p i s at closed started id (read_returns result) (read_returns-Down result) m
  step-Toward timeout (refreshed id) v m =
      advance-Toward p i s at closed started id (refresh p.now) (refresh-Down p.now) m
  step-Toward timeout (forwarded id sent) v m =
      advance-Toward p i s at closed started id (forward sent) (forward-Down sent) m
  step-Toward timeout (removed id) v m = leave-Toward id m
  step-Toward timeout (dropped id) v m =
      advance-Toward p i s at closed started id close_conn close_conn-Down m
  step-Toward timeout event v m = reader_step-Toward event p.reader v refl m
