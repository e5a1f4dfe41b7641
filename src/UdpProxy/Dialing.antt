-- ===== src/UdpProxy/Dialing.antt =====
-- The invariant under the steps of the main loop, and under those steps of a session's goroutine
-- that do not touch the table.
use wireproxy.Base.{
  ℕ, ◌≡◌, refl, ◌⊎◌, inl, inr, Bool, true, false, Option, none, some, List, [], ◌∷◌, ◌++◌,
  Bool-cases, Option-cases, length, arith, subst,
}
use wireproxy.Text.{Text, text_eq, text_eq_iff}
use wireproxy.UdpProxy.Store.{get-put, find-cons, get-concat, get-some-lt}
use wireproxy.UdpProxy.{
  unstarted, at_head, Session, idle, dialing, created, starting, marking, Proxy, find, get, put,
  look_up, dial, install, spawn, advance, touch_at, touch,
}
use wireproxy.UdpProxy.Valid.{
  is_unstarted, Waits, Valid, Quiet, get-put-cases, Serves-put, put-Valid, reader-Valid,
}

module _ (p : Proxy) (v : Valid p) where
  pub advance-Valid :
      (i : ℕ) (f : Session → Option Session)
      → ((s r : Session) → f s ≡ some r → Quiet s r)
      → {q : Proxy} → advance i f p ≡ some q
      → Valid q
  advance-Valid i f quiet e = elim (Option-cases (get i p.sessions)) [
    | inl none' ↦ cc
    | inr (s, at) ↦ elim (Option-cases (f s)) [
      | inl none' ↦ cc
      | inr (r, moved) ↦ subst Valid (cc) (put-Valid p v i s r at (quiet s r moved))
    ]
  ]

  pub touch_at-Valid : (i : ℕ) → Valid (record p { sessions = touch_at i p })
  touch_at-Valid i = elim (Option-cases (get i p.sessions)) [
    | inl none' ↦ rw (none', touch_at) v
    | inr (s, at) ↦
        rw (at, touch_at) (put-Valid p v i s (touch p.now s) at (refl, refl, refl, refl, λ c. c))
  ]

  pub look_up-Valid : (src : Text) → p.reader ≡ idle → Valid (look_up src p)
  unfolding look_up
  look_up-Valid src e = elim (Option-cases (find src p.table)) [
    | inl absent ↦
        rw (absent, look_up)
          (reader-Valid p v (dialing src) (λ i h. ground arith) (λ i h. ground arith) absent)
    | inr (id, present) ↦
        rw (present, look_up)
          (reader-Valid (record p { sessions = touch_at id p }) (touch_at-Valid id) (marking id)
            (λ i h. ground arith) (λ i h. ground arith) tt)
  ]

  -- The new session is behind a pointer that nothing holds yet.
  module _ (src : Text) (e : p.reader ≡ dialing src) where
    abbrev fresh : Session
    fresh = record {
      src = src;
      conn_open = true;
      last_active = p.now;
      closed = false;
      phase = unstarted;
    }

    abbrev grown : List Session
    grown = p.sessions ++ fresh ∷ []

    grown-old : (j : ℕ) (s : Session) → get j p.sessions ≡ some s → get j grown ≡ some s
    grown-old j s h = ground (arith, get-concat j fresh p.sessions, get-some-lt j p.sessions h)

    grown-cases :
        (j : ℕ) (s : Session)
        → get j grown ≡ some s
        → (get j p.sessions ≡ some s) ⊎ ((length p.sessions ≡ j) × (fresh ≡ s))
    grown-cases j s h = ground (arith, get-concat j fresh p.sessions)

    absent : find src p.table ≡ none
    absent = subst (Waits p.table p.sessions) e v.waits

    dialed-Valid : Valid (record p { sessions = grown; reader = created src (length p.sessions) })
    dialed-Valid = record {
      distinct = v.distinct;
      serves = λ k i f. let (s, at, a, b, c) = v.serves k i f in (s, grown-old i s at, a, b, c);
      accounted = λ i s h. ground (arith, grown-cases i s h, v.accounted i s);
      connected = λ i s h. ground (arith, grown-cases i s h, v.connected i s);
      pending = λ i s h u. ground (arith, grown-cases i s h, v.pending i s);
      waits = (
        absent,
        fresh,
        ground (arith, get-concat (length p.sessions) fresh p.sessions),
        refl,
        refl,
        refl,
      );
    }

    pub dial-Valid : (success : Bool) → Valid (dial src success p)
    unfolding dial
    dial-Valid true = dialed-Valid
    dial-Valid false = reader-Valid p v idle (λ i h. ground arith) (λ i h. ground arith) tt

  install_new-Valid :
      (src : Text) (id : ℕ)
      → p.reader ≡ created src id
      → Waits p.table p.sessions (created src id)
      → Valid (record p { table = (src, id) ∷ p.table; reader = starting id })
  install_new-Valid src id e (absent, s, at, of_src, opened, new) = record {
    distinct = (absent, v.distinct);
    serves = λ k i f. elim (Bool-cases (text_eq src k)) [
      | inl same ↦ (
        s,
        ground (arith, find-cons k src id p.table),
        ground (arith, text_eq_iff src k),
        opened,
        ground arith,
      )
      | inr other ↦ v.serves k i (ground (arith, find-cons k src id p.table))
    ];
    accounted = λ i t g.
        ground (arith, v.accounted i t g, find-cons t.src src id p.table, text_eq_iff src t.src);
    connected = v.connected;
    pending = λ i t g u. ground (arith, v.pending i t g u);
    waits = (s, at, new);
  }

  pub install-Valid : (src : Text) (id : ℕ) → p.reader ≡ created src id → Valid (install src id p)
  unfolding install
  install-Valid src id e =
      let w : Waits p.table p.sessions (created src id) =
        subst (Waits p.table p.sessions) e v.waits in
      rw (w.0, install) (install_new-Valid src id e w)

  spawned-Valid :
      (id : ℕ) (s : Session)
      → p.reader ≡ starting id
      → get id p.sessions ≡ some s
      → is_unstarted s.phase ≡ true
      → Valid (record p {
        sessions = put id (record s { phase = at_head }) p.sessions;
        reader = marking id;
      })
  spawned-Valid id s e at new =
      let r : Session = record s { phase = at_head } in
      record {
        distinct = v.distinct;
        serves =
            λ k i f. Serves-put id r p.sessions at refl refl (ground arith) k i (v.serves k i f);
        accounted = λ i t g.
            ground
              (arith, get-put-cases id r p.sessions at i t g, v.accounted i t, v.accounted id s at);
        connected = λ i t g.
            ground
              (arith, get-put-cases id r p.sessions at i t g, v.connected i t, v.connected id s at);
        pending = λ i t g u. ground (
          arith,
          get-put-cases id r p.sessions at i t g,
          get-put id i r p.sessions at,
          v.pending i t,
        );
        waits = tt;
      }

  pub spawn-Valid : (id : ℕ) → p.reader ≡ starting id → Valid (spawn id p)
  spawn-Valid id e =
      let w : Waits p.table p.sessions (starting id) = subst (Waits p.table p.sessions) e v.waits in
      rw (w.1, spawn) (spawned-Valid id w.0 e w.1 w.2)
