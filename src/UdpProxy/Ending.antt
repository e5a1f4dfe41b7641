-- ===== src/UdpProxy/Ending.antt =====
-- The end of a session whose channel is closed, whatever else happens in between.
use wireproxy.Base.{
  ℕ, ◌≤◌, ◌≡◌, ◌⊎◌, Bool, true, false, some, List, [], ◌∷◌, ℤ, inl, inr, Bool-cases, Option-cases,
  is_some, arith, subst,
}
use wireproxy.UdpProxy.Valid.{Valid, is_unstarted, is_finished}
use wireproxy.UdpProxy.Invariant.{step-Valid, run-Valid}
use wireproxy.UdpProxy.{
  Phase, unstarted, at_head, blocked, touching, forwarding, leaving, closing, finished, Session,
  Proxy, get, loop_head, read_returns, refresh, forward, close_conn, Read, step, run, Event, looped,
  refreshed, removed, dropped, returned, forwarded,
}
use wireproxy.UdpProxy.Rank.{own_steps, Toward, stay}
use wireproxy.UdpProxy.Steps.{step-Toward}

run-Toward :
    (timeout : ℤ) (i : ℕ) (events : List Event) (p : Proxy) (s : Session) {q : Proxy}
    → Valid p
    → get i p.sessions ≡ some s
    → s.closed ≡ true
    → is_unstarted s.phase ≡ false
    → run timeout events p ≡ some q
    → Toward (own_steps i events) i s q.sessions
unfolding run
run-Toward timeout i [] p s {q} v at c u e =
    subst (λ (q : Proxy). Toward 0 i s q.sessions) {x = p} {y = q} (cc) (stay p i s at c u)
run-Toward timeout i (event ∷ events) p s {q} v at c u e =
    elim (Option-cases (step timeout event p)) [
      | inl none' ↦ cc
      | inr (next, m) ↦
          let (r, at', c', u', n) = step-Toward p i s at c u timeout event v m in
          let (z, at'', c'', u'', n') =
            run-Toward timeout i events next r {q = q} (step-Valid p v timeout event m) at' c' u'
              (cc) in
          (z, at'', c'', u'', ground arith)
    ]

-- The goroutine's next event, given what its calls return.
abbrev pub next_event : ℕ → Read → Bool → Phase → List Event
next_event i result sent unstarted = []
next_event i result sent at_head = looped i ∷ []
next_event i result sent blocked = returned i result ∷ []
next_event i result sent touching = refreshed i ∷ []
next_event i result sent forwarding = forwarded i sent ∷ []
next_event i result sent leaving = removed i ∷ []
next_event i result sent closing = dropped i ∷ []
next_event i result sent finished = []

next_event-enabled :
    (timeout : ℤ) (i : ℕ) (result : Read) (sent : Bool) (p : Proxy) (s : Session)
    → get i p.sessions ≡ some s
    → is_unstarted s.phase ≡ false
    → is_some (run timeout (next_event i result sent s.phase) p) ≡ true
unfolding run step loop_head read_returns refresh forward close_conn
next_event-enabled timeout i result sent p s at u = ground arith

-- The goroutine at the pointer has taken at most six steps in the events, and is past its end with
-- its connection closed, or can take a next step, whatever its calls return.
abbrev pub Ends : ℤ → ℕ → List Event → Proxy → Type 0
Ends timeout i events q =
    (own_steps i events ≤ 6)
    × (r : Session) × (get i q.sessions ≡ some r)
    × (r.closed ≡ true)
    × (((r.phase ≡ finished) × (r.conn_open ≡ false))
        ⊎ ((result : Read) (sent : Bool)
            → (own_steps i (next_event i result sent r.phase) ≡ 1)
              × (is_some (run timeout (next_event i result sent r.phase) q) ≡ true)))

-- From any valid state, whatever events follow in whatever order, a started goroutine whose channel
-- is closed takes at most six more steps of its own; its channel stays closed; and at the end of
-- the events it is past its end with its connection closed, or it can take a next step of its own,
-- whatever its calls return.
pub run-closed-Ends :
    (timeout : ℤ) (i : ℕ) (events : List Event) (p : Proxy) (s : Session) {q : Proxy}
    → Valid p
    → get i p.sessions ≡ some s
    → s.closed ≡ true
    → is_unstarted s.phase ≡ false
    → run timeout events p ≡ some q
    → Ends timeout i events q
run-closed-Ends timeout i events p s {q} v at c u e =
    let (r, at', c', u', n) = run-Toward timeout i events p s v at c u e in
    let valid : Valid q = run-Valid timeout events p v e in
    (
      ground (arith, n),
      r,
      at',
      c',
      elim (Bool-cases (is_finished r.phase)) [
        | inl done ↦ inl (ground arith, ground (arith, valid.connected i r at'))
        | inr on ↦
            inr (λ result sent. (ground arith, next_event-enabled timeout i result sent q r at' u'))
      ],
    )
