-- ===== src/UdpProxy/Clean.antt =====
-- What the cleaner's pass leaves in the map and behind the pointers.
use wireproxy.Base.{
  ℕ, ◌≡◌, ◌≢◌, refl, ◌⊎◌, true, false, none, some, List, [], ◌∷◌, ℤ, inl, inr, Bool-cases,
  Option-cases, ◌==◌, arith,
}
use wireproxy.Text.{Text, text_eq_iff, text_eq_refl}
use wireproxy.UdpProxy.{Session, unstarted, find, get, put, expired, clean, close_session_chan}
use wireproxy.UdpProxy.Store.{Distinct, get-put}

-- The cleaner's pass, which closes the expired sessions of the map and drops their entries.
module _ (timeout : ℤ) (now : ℕ) where
  expired-close : (s : Session) → expired timeout now (close_session_chan s) ≡ expired timeout now s
  unfolding expired
  expired-close s = refl

  -- The pass over `t` closes the session or leaves it.
  pub get-clean :
      (j : ℕ) (t : List (Text × ℕ)) (ss : List Session) {s : Session}
      → get j ss ≡ some s
      → (get j (clean timeout now t ss).1 ≡ some s)
        ⊎ (get j (clean timeout now t ss).1 ≡ some (close_session_chan s))
  unfolding clean
  get-clean j [] ss h = inl h
  get-clean j ((k, id) ∷ t) ss {s} h = elim (Option-cases (get id ss)) [
    | inl none' ↦ ground (arith, get-clean j t ss h)
    | inr (r, at) ↦ elim (Bool-cases (id == j)) [
      | inl same ↦ ground (
        arith,
        get-clean j t ss h,
        get-clean j t (put id (close_session_chan r) ss) {s = close_session_chan r}
            (ground (arith, get-put id j (close_session_chan r) ss at)),
      )
      | inr other ↦ ground (
        arith,
        get-clean j t ss h,
        get-clean j t (put id (close_session_chan r) ss) {s = s}
            (ground (arith, get-put id j (close_session_chan r) ss at)),
      )
    ]
  ]

  -- A session of the map that has expired is closed.
  pub get-clean-expired :
      (src : Text) (j : ℕ) (t : List (Text × ℕ)) (ss : List Session) {s : Session}
      → find src t ≡ some j
      → expired timeout now s ≡ true
      → get j ss ≡ some s
      → get j (clean timeout now t ss).1 ≡ some (close_session_chan s)
  unfolding find clean
  get-clean-expired src j [] ss f e h = cc
  get-clean-expired src j ((k, id) ∷ t) ss {s} f e h = elim (Option-cases (get id ss)) [
    | inl none' ↦ ground (arith, get-clean-expired src j t ss {s = s})
    | inr (r, at) ↦ elim (Bool-cases (id == j)) [
      | inl same ↦ ground (
        arith,
        get-clean j t (put id (close_session_chan r) ss) {s = close_session_chan r}
            (ground (arith, get-put id j (close_session_chan r) ss at)),
      )
      | inr other ↦ ground (
        arith,
        get-clean-expired src j t ss {s = s},
        get-clean-expired src j t (put id (close_session_chan r) ss) {s = s},
        get-put id j (close_session_chan r) ss at,
      )
    ]
  ]

  -- An entry whose session has not expired stays, in front of what it hides.
  pub find-clean-active :
      (src : Text) (j : ℕ) (t : List (Text × ℕ)) (ss : List Session) {s : Session}
      → find src t ≡ some j
      → expired timeout now s ≡ false
      → get j ss ≡ some s
      → find src (clean timeout now t ss).0 ≡ some j
  unfolding find clean
  find-clean-active src j [] ss f e h = cc
  find-clean-active src j ((k, id) ∷ t) ss {s} f e h = elim (Option-cases (get id ss)) [
    | inl none' ↦ ground (arith, find-clean-active src j t ss {s = s})
    | inr (r, at) ↦ ground (
      arith,
      find-clean-active src j t ss {s = s},
      find-clean-active src j t (put id (close_session_chan r) ss) {s = s},
      get-put id j (close_session_chan r) ss at,
    )
  ]

  pub find-clean-none :
      (src : Text) (t : List (Text × ℕ)) (ss : List Session)
      → find src t ≡ none
      → find src (clean timeout now t ss).0 ≡ none
  unfolding find clean
  find-clean-none src [] ss f = refl
  find-clean-none src ((k, id) ∷ t) ss f = elim (Option-cases (get id ss)) [
    | inl none' ↦ ground (arith, find-clean-none src t ss)
    | inr (r, at) ↦
        ground (
          arith,
          find-clean-none src t ss,
          find-clean-none src t (put id (close_session_chan r) ss),
        )
  ]

  pub clean-Distinct :
      (t : List (Text × ℕ)) (ss : List Session) → Distinct t → Distinct (clean timeout now t ss).0
  unfolding clean
  clean-Distinct [] ss h = tt
  clean-Distinct ((k, id) ∷ t) ss (f, h) = elim (Option-cases (get id ss)) [
    | inl none' ↦ ground (arith, find-clean-none k t ss f, clean-Distinct t ss h)
    | inr (r, at) ↦ ground (
      arith,
      find-clean-none k t ss f,
      clean-Distinct t ss h,
      clean-Distinct t (put id (close_session_chan r) ss) h,
    )
  ]

  -- What the pass leaves in the map was there, and has not expired.
  pub find-clean-some :
      (src : Text) (j : ℕ) (t : List (Text × ℕ)) (ss : List Session) {s : Session}
      → Distinct t
      → find src (clean timeout now t ss).0 ≡ some j
      → (find src t ≡ some j) × (get j ss ≡ some s → expired timeout now s ≡ false)
  unfolding find clean
  find-clean-some src j [] ss d f = cc
  find-clean-some src j ((k, id) ∷ t) ss {s} (n, d) f = elim (Option-cases (get id ss)) [
    | inl none' ↦ ground (arith, find-clean-some src j t ss {s = s} d)
    | inr (r, at) ↦ ground (
      arith,
      text_eq_iff k src,
      find-clean-some src j t ss {s = s} d,
      find-clean-some src j t (put id (close_session_chan r) ss) {s = s} d,
      find-clean-some src j t (put id (close_session_chan r) ss) {s = close_session_chan r} d,
      expired-close r,
      get-put id j (close_session_chan r) ss at,
    )
  ]

  -- A session that has not expired is as it was.
  pub get-clean-active :
      (j : ℕ) (t : List (Text × ℕ)) (ss : List Session) {s : Session}
      → expired timeout now s ≡ false
      → get j ss ≡ some s
      → get j (clean timeout now t ss).1 ≡ some s
  unfolding clean
  get-clean-active j [] ss e h = h
  get-clean-active j ((k, id) ∷ t) ss {s} e h = elim (Option-cases (get id ss)) [
    | inl none' ↦ ground (arith, get-clean-active j t ss {s = s} e h)
    | inr (r, at) ↦ ground (
      arith,
      get-clean-active j t ss {s = s},
      get-clean-active j t (put id (close_session_chan r) ss) {s = s},
      get-put id j (close_session_chan r) ss at,
    )
  ]

  pub get-clean-none :
      (j : ℕ) (t : List (Text × ℕ)) (ss : List Session)
      → get j ss ≡ none
      → get j (clean timeout now t ss).1 ≡ none
  unfolding clean
  get-clean-none j [] ss h = h
  get-clean-none j ((k, id) ∷ t) ss h = elim (Option-cases (get id ss)) [
    | inl none' ↦ ground (arith, get-clean-none j t ss h)
    | inr (r, at) ↦ ground (
      arith,
      get-clean-none j t ss h,
      get-clean-none j t (put id (close_session_chan r) ss),
      get-put id j (close_session_chan r) ss at,
    )
  ]

  -- A session that the map does not hold is as it was.
  pub get-clean-unlisted :
      (j : ℕ) (t : List (Text × ℕ)) (ss : List Session)
      → Distinct t
      → ((src : Text) → find src t ≢ some j)
      → get j (clean timeout now t ss).1 ≡ get j ss
  unfolding find clean
  get-clean-unlisted j [] ss d h = refl
  get-clean-unlisted j ((k, id) ∷ t) ss (n, d) h =
      let others : (src : Text) → find src t ≢ some j =
        λ src f. h src (ground (arith, text_eq_iff k src)) in
      elim (Option-cases (get id ss)) [
        | inl none' ↦ ground (arith, get-clean-unlisted j t ss d others)
        | inr (r, at) ↦ ground (
          arith,
          h k,
          text_eq_refl k,
          get-clean-unlisted j t ss d others,
          get-clean-unlisted j t (put id (close_session_chan r) ss) d others,
          get-put id j (close_session_chan r) ss at,
        )
      ]

  pub find-clean-listed :
      (src : Text) (j : ℕ) (t : List (Text × ℕ)) (ss : List Session)
      → Distinct t
      → find src (clean timeout now t ss).0 ≡ some j
      → find src t ≡ some j
  find-clean-listed src j t ss d f =
      let any_session : Session = record {
        src = src;
        conn_open = true;
        last_active = now;
        closed = false;
        phase = unstarted;
      } in
      (find-clean-some src j t ss {s = any_session} d f).0
