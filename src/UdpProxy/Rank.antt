-- ===== src/UdpProxy/Rank.antt =====
-- How far a session's goroutine is from its end, once its channel is closed.
use wireproxy.Base.{
  ℕ, ◌+◌, ◌<◌, ◌≤◌, ◌≡◌, ◌⊎◌, Bool, true, false, Option, some, List, [], ◌∷◌, inl, inr,
  Option-cases, ◌==◌, arith, subst, if◌then◌else◌,
}
use wireproxy.UdpProxy.Store.{get-put}
use wireproxy.UdpProxy.Valid.{is_unstarted}
use wireproxy.UdpProxy.{
  Phase, unstarted, at_head, blocked, touching, forwarding, leaving, closing, finished, Session,
  Proxy, get, put, loop_head, read_returns, refresh, forward, close_conn, Read, Event, looped,
  refreshed, removed, dropped, returned, forwarded, advance, touch_at,
}

-- How many steps a goroutine takes at most, once its channel is closed.
abbrev pub rank : Phase → ℕ
rank unstarted = 7
rank blocked = 6
rank touching = 5
rank forwarding = 4
rank at_head = 3
rank leaving = 2
rank closing = 1
rank finished = 0

-- 1 for the events of the goroutine at the pointer, 0 for the others.
abbrev pub own : ℕ → Event → ℕ
own i (looped id) = if id == i then 1 else 0
own i (refreshed id) = if id == i then 1 else 0
own i (removed id) = if id == i then 1 else 0
own i (dropped id) = if id == i then 1 else 0
own i (returned id result) = if id == i then 1 else 0
own i (forwarded id sent) = if id == i then 1 else 0
own i _ = 0

abbrev pub own_steps : ℕ → List Event → ℕ
own_steps i [] = 0
own_steps i (event ∷ events) = own i event + own_steps i events

-- Closed and started, and at least `n` steps further than `s`.
abbrev pub Toward : ℕ → ℕ → Session → List Session → Type 0
Toward n i s ss =
    (r : Session) × (get i ss ≡ some r)
    × (r.closed ≡ true)
    × (is_unstarted r.phase ≡ false)
    × (n + rank r.phase ≤ rank s.phase)

abbrev Down : Session → Session → Type 0
Down s r = (r.closed ≡ true) × (is_unstarted r.phase ≡ false) × (rank r.phase < rank s.phase)

pub loop_head-Down : (s r : Session) → loop_head s ≡ some r → s.closed ≡ true → Down s r
unfolding loop_head
loop_head-Down s r h c = ground arith

pub read_returns-Down :
    (result : Read) (s r : Session) → read_returns result s ≡ some r → s.closed ≡ true → Down s r
unfolding read_returns
read_returns-Down result s r h c = ground arith

pub refresh-Down : (now : ℕ) (s r : Session) → refresh now s ≡ some r → s.closed ≡ true → Down s r
unfolding refresh
refresh-Down now s r h c = ground arith

pub forward-Down :
    (sent : Bool) (s r : Session) → forward sent s ≡ some r → s.closed ≡ true → Down s r
unfolding forward
forward-Down sent s r h c = ground arith

pub close_conn-Down : (s r : Session) → close_conn s ≡ some r → s.closed ≡ true → Down s r
unfolding close_conn
close_conn-Down s r h c = ground arith

module _ (p : Proxy) (i : ℕ) (s : Session) (at : get i p.sessions ≡ some s)
    (closed : s.closed ≡ true) (started : is_unstarted s.phase ≡ false) where
  -- Another session changes, or this one goes on.
  pub put-Toward :
      (n j : ℕ) (t r : Session)
      → get j p.sessions ≡ some t
      → ((j ≡ i)
          × (r.closed ≡ true)
          × (is_unstarted r.phase ≡ false)
          × (n + rank r.phase ≤ rank s.phase))
        ⊎ ((j == i) ≡ false) × (n ≡ 0)
      → Toward n i s (put j r p.sessions)
  put-Toward n j t r g (inl (e, c, u, m)) = (r, ground (arith, get-put j i r p.sessions g), c, u, m)
  put-Toward n j t r g (inr (e, z)) =
      (s, ground (arith, get-put j i r p.sessions g), closed, started, ground arith)

  pub advance-Toward :
      (j : ℕ) (f : Session → Option Session)
      → ((t r : Session) → f t ≡ some r → t.closed ≡ true → Down t r)
      → {q : Proxy} → advance j f p ≡ some q
      → Toward (if j == i then 1 else 0) i s q.sessions
  advance-Toward j f down {q} e = elim (Option-cases (get j p.sessions)) [
    | inl none' ↦ cc
    | inr (t, g) ↦ elim (Option-cases (f t)) [
      | inl none' ↦ cc
      | inr (r, moved) ↦
          subst (λ (q : Proxy). Toward (if j == i then 1 else 0) i s q.sessions)
            {x = record p { sessions = put j r p.sessions }} {y = q} (cc)
            (put-Toward (if j == i then 1 else 0) j t r g (ground (arith, down t r moved)))
    ]
  ]

  pub stay : Toward 0 i s p.sessions
  stay = (s, at, closed, started, ground arith)

  pub touch_at-Toward : (j : ℕ) → Toward 0 i s (touch_at j p)
  touch_at-Toward j = elim (Option-cases (get j p.sessions)) [
    | inl none' ↦ rw (none', touch_at) stay
    | inr (t, g) ↦
        rw (g, touch_at) (put-Toward 0 j t (record t { last_active = p.now }) g (ground arith))
  ]
