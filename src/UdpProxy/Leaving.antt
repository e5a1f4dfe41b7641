-- ===== src/UdpProxy/Leaving.antt =====
-- The invariant under `removeSession`.
use wireproxy.Base.{
  ℕ, ◌≢◌, ◌≡◌, inl, inr, true, none, some, List, Bool-cases, Option-cases, ◌==◌, arith, subst,
}
use wireproxy.Text.{Text, text_eq_iff}
use wireproxy.UdpProxy.Store.{get-put, find-delete, delete-Distinct}
use wireproxy.UdpProxy.{
  closing, Session, Reader, idle, stopped, dialing, created, starting, marking, writing, Proxy,
  find, delete, get, put, remove_session, leave, is_leaving,
}
use wireproxy.UdpProxy.Valid.{Waits, Valid, get-put-cases}

module _ (p : Proxy) (v : Valid p) where
  -- What the main loop waits for is not a session that is leaving.
  Waits-leave :
      (i : ℕ) (s r : Session)
      → get i p.sessions ≡ some s
      → is_leaving s.phase ≡ true
      → (table : List (Text × ℕ)) → ((src : Text) → find src p.table ≡ none → find src table ≡ none)
      → (reader : Reader) → Waits p.table p.sessions reader
      → Waits table (put i r p.sessions) reader
  Waits-leave i s r at l table less (dialing src) w = less src w
  Waits-leave i s r at l table less (created src id) (n, t, g, a, b, c) =
      (less src n, t, ground (arith, get-put i id r p.sessions at), a, b, c)
  Waits-leave i s r at l table less (starting id) (t, g, c) =
      (t, ground (arith, get-put i id r p.sessions at), c)
  Waits-leave i s r at l table less idle w = tt
  Waits-leave i s r at l table less stopped w = tt
  Waits-leave i s r at l table less (marking id) w = tt
  Waits-leave i s r at l table less (writing id) w = tt

  -- The goroutine's own entry goes, and its channel is closed with it.
  removed-Valid :
      (i : ℕ) (s : Session)
      → get i p.sessions ≡ some s
      → is_leaving s.phase ≡ true
      → find s.src p.table ≡ some i
      → Valid (record p {
        table = delete s.src p.table;
        sessions = put i (record s { phase = closing; closed = true }) p.sessions;
      })
  removed-Valid i s at l f =
      let r : Session = record s { phase = closing; closed = true } in
      record {
        distinct = delete-Distinct s.src p.table v.distinct;
        serves = λ k j g.
            let listed : find k p.table ≡ some j = ground (arith, find-delete k s.src p.table) in
            let (t, at', a, b, c) = v.serves k j listed in
            (
              t,
              ground (
                arith,
                find-delete k s.src p.table,
                text_eq_iff s.src k,
                get-put i j r p.sessions at,
              ),
              a,
              b,
              c,
            );
        accounted = λ j t g. ground (
          arith,
          get-put-cases i r p.sessions at j t g,
          get-put i j r p.sessions at,
          v.accounted j t,
          find-delete t.src s.src p.table,
          text_eq_iff s.src t.src,
        );
        connected = λ j t g.
            ground
              (arith, get-put-cases i r p.sessions at j t g, v.connected i s at, v.connected j t);
        pending = λ j t g u. ground (arith, get-put-cases i r p.sessions at j t g, v.pending j t);
        waits =
            Waits-leave i s r at l (delete s.src p.table)
              (λ k n. ground (arith, find-delete k s.src p.table)) p.reader v.waits;
      }

  -- The table holds another session, or none, under the source: only the goroutine moves on.
  unlisted-Valid :
      (i : ℕ) (s : Session)
      → get i p.sessions ≡ some s
      → is_leaving s.phase ≡ true
      → find s.src p.table ≢ some i
      → Valid (record p { sessions = put i (record s { phase = closing }) p.sessions })
  unlisted-Valid i s at l n =
      let r : Session = record s { phase = closing } in
      record {
        distinct = v.distinct;
        serves = λ k j g.
            let (t, at', a, b, c) = v.serves k j g in
            (t, ground (arith, get-put i j r p.sessions at), a, b, c);
        accounted = λ j t g. ground (arith, get-put-cases i r p.sessions at j t g, v.accounted j t);
        connected = λ j t g.
            ground
              (arith, get-put-cases i r p.sessions at j t g, v.connected i s at, v.connected j t);
        pending = λ j t g u. ground (arith, get-put-cases i r p.sessions at j t g, v.pending j t);
        waits = Waits-leave i s r at l p.table (λ k h. h) p.reader v.waits;
      }

  pub leave-Valid : (i : ℕ) {q : Proxy} → leave i p ≡ some q → Valid q
  unfolding remove_session
  leave-Valid i {q} e = elim (Option-cases (get i p.sessions)) [
    | inl none' ↦ cc
    | inr (s, at) ↦ elim (Bool-cases (is_leaving s.phase)) [
      | inr stays ↦ ground arith
      | inl l ↦ elim (Option-cases (find s.src p.table)) [
        | inl absent ↦ subst Valid (ground arith) (unlisted-Valid i s at l (λ f. cc))
        | inr (j, present) ↦ elim (Bool-cases (j == i)) [
          | inl same ↦ subst Valid (ground arith) (removed-Valid i s at l (ground arith))
          | inr other ↦ subst Valid (ground arith) (unlisted-Valid i s at l (λ f. ground arith))
        ]
      ]
    ]
  ]
