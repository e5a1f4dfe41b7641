-- ===== src/UdpProxy/Valid.antt =====
-- The invariant of the session table, and the changes that leave it alone.
use wireproxy.Base.{
  ℕ, ◌≡◌, ◌⊎◌, inl, inr, Bool, true, false, not, none, some, List, Bool-cases, ◌==◌, ==_iff, arith,
}
use wireproxy.Text.{Text}
use wireproxy.UdpProxy.Store.{Distinct, get-put}
use wireproxy.UdpProxy.{
  Phase, unstarted, closing, finished, Session, Reader, idle, stopped, dialing, created, starting,
  marking, writing, Proxy, start, find, get, put, loop_head, read_returns, refresh, forward,
  close_conn, Read,
}

-- The session's goroutine has not come to `removeSession` yet.
abbrev pub is_working : Phase → Bool
is_working closing = false
is_working finished = false
is_working _ = true

abbrev pub is_unstarted : Phase → Bool
is_unstarted unstarted = true
is_unstarted _ = false

abbrev pub is_finished : Phase → Bool
is_finished finished = true
is_finished _ = false

-- The main loop is about to install the session, or to spawn its goroutine.
abbrev pub is_installing : ℕ → Reader → Bool
is_installing i (created src id) = id == i
is_installing i _ = false

abbrev pub is_pending : ℕ → Reader → Bool
is_pending i (created src id) = id == i
is_pending i (starting id) = id == i
is_pending i _ = false

-- A session that the table holds under a source is that source's, open, and served.
abbrev pub Serves : Text → ℕ → List Session → Type 0
Serves src i ss =
    (s : Session) × (get i ss ≡ some s)
    × (s.src ≡ src)
    × (s.closed ≡ false)
    × (is_working s.phase ≡ true)

-- A session is in the table, or told to end, or its goroutine has come to `removeSession`, or it is
-- about to be installed.
abbrev pub Accounted : ℕ → Session → List (Text × ℕ) → Reader → Type 0
Accounted i s table reader =
    (find s.src table ≡ some i)
    ⊎ (s.closed ≡ true)
    ⊎ (is_working s.phase ≡ false)
    ⊎ (is_installing i reader ≡ true)

-- What the main loop has found out stays true, as only it adds to the table.
abbrev pub Waits : List (Text × ℕ) → List Session → Reader → Type 0
Waits table ss (dialing src) = find src table ≡ none
Waits table ss (created src id) =
    (find src table ≡ none)
    × (s : Session) × (get id ss ≡ some s)
    × (s.src ≡ src)
    × (s.closed ≡ false)
    × (is_unstarted s.phase ≡ true)
Waits table ss (starting id) = (s : Session) × (get id ss ≡ some s) × (is_unstarted s.phase ≡ true)
Waits table ss _ = Unit

pub record Valid (p : Proxy) : Type 0 where
  pub distinct : Distinct p.table
  pub serves : (src : Text) (i : ℕ) → find src p.table ≡ some i → Serves src i p.sessions
  pub accounted : (i : ℕ) (s : Session) → get i p.sessions ≡ some s → Accounted i s p.table p.reader
  -- The connection is open until the goroutine is past its end, and none is lost: a goroutine that
  -- has not started is the main loop's to start.
  pub connected :
      (i : ℕ) (s : Session) → get i p.sessions ≡ some s → s.conn_open ≡ not (is_finished s.phase)
  pub pending :
      (i : ℕ) (s : Session)
      → get i p.sessions ≡ some s
      → is_unstarted s.phase ≡ true
      → is_pending i p.reader ≡ true
  pub waits : Waits p.table p.sessions p.reader

pub start-Valid : (now : ℕ) → Valid (start now)
unfolding find get
start-Valid now = record {
  distinct = tt;
  serves = λ src i h. cc;
  accounted = λ i s h. cc;
  connected = λ i s h. cc;
  pending = λ i s h. cc;
  waits = tt;
}

-- A change of one session that the table need not know of.
abbrev pub Quiet : Session → Session → Type 0
Quiet s r =
    (r.src ≡ s.src)
    × (r.closed ≡ s.closed)
    × (is_working r.phase ≡ is_working s.phase)
    × (is_unstarted r.phase ≡ is_unstarted s.phase)
    × (s.conn_open ≡ not (is_finished s.phase) → r.conn_open ≡ not (is_finished r.phase))

module _ (i : ℕ) (r : Session) (ss : List Session) {s : Session} (h : get i ss ≡ some s) where
  -- What is behind a pointer after the change.
  pub get-put-cases :
      (j : ℕ) (t : Session)
      → get j (put i r ss) ≡ some t
      → ((i ≡ j) × (r ≡ t)) ⊎ (get j ss ≡ some t)
  get-put-cases j t g = ground (arith, get-put i j r ss h)

  pub Serves-put :
      r.src ≡ s.src
      → r.closed ≡ s.closed
      → is_working r.phase ≡ is_working s.phase
      → (src : Text) (j : ℕ) → Serves src j ss
      → Serves src j (put i r ss)
  Serves-put same_src same_closed same_working src j (t, g, a, b, c) = elim (Bool-cases (i == j)) [
    | inl same ↦ (
      r,
      ground (arith, get-put i j r ss h),
      ground (arith, ==_iff i j),
      ground (arith, ==_iff i j),
      ground (arith, ==_iff i j),
    )
    | inr other ↦ (t, ground (arith, get-put i j r ss h), a, b, c)
  ]

  pub Waits-put :
      Quiet s r
      → (table : List (Text × ℕ)) (reader : Reader) → Waits table ss reader
      → Waits table (put i r ss) reader
  Waits-put q table (created src id) (n, t, g, a, b, c) = elim (Bool-cases (i == id)) [
    | inl same ↦ (
      n,
      r,
      ground (arith, get-put i id r ss h),
      ground (arith, ==_iff i id),
      ground (arith, ==_iff i id),
      ground (arith, ==_iff i id),
    )
    | inr other ↦ (n, t, ground (arith, get-put i id r ss h), a, b, c)
  ]
  Waits-put q table (starting id) (t, g, u) = elim (Bool-cases (i == id)) [
    | inl same ↦ (r, ground (arith, get-put i id r ss h), ground (arith, ==_iff i id))
    | inr other ↦ (t, ground (arith, get-put i id r ss h), u)
  ]
  Waits-put q table (dialing src) w = w
  Waits-put q table idle w = tt
  Waits-put q table stopped w = tt
  Waits-put q table (marking id) w = tt
  Waits-put q table (writing id) w = tt

module _ (p : Proxy) (v : Valid p) where
  pub put-Valid :
      (i : ℕ) (s r : Session)
      → get i p.sessions ≡ some s
      → Quiet s r
      → Valid (record p { sessions = put i r p.sessions })
  put-Valid i s r h q = record {
    distinct = v.distinct;
    serves = λ src j f. Serves-put i r p.sessions h q.0 q.1 q.2 src j (v.serves src j f);
    accounted = λ j t g.
        ground (arith, get-put-cases i r p.sessions h j t g, v.accounted i s h, v.accounted j t);
    connected = λ j t g.
        ground (arith, get-put-cases i r p.sessions h j t g, v.connected i s h, v.connected j t);
    pending = λ j t g u.
        ground (arith, get-put-cases i r p.sessions h j t g, v.pending i s h, v.pending j t);
    waits = Waits-put i r p.sessions h q p.table p.reader v.waits;
  }

  -- The main loop moves on with nothing pending left behind.
  pub reader-Valid :
      (r : Reader)
      → ((i : ℕ) → is_installing i p.reader ≡ true → is_installing i r ≡ true)
      → ((i : ℕ) → is_pending i p.reader ≡ true → is_pending i r ≡ true)
      → Waits p.table p.sessions r
      → Valid (record p { reader = r })
  reader-Valid r installs pends w = record {
    distinct = v.distinct;
    serves = v.serves;
    accounted = λ j t g. ground (arith, v.accounted j t g, installs j);
    connected = v.connected;
    pending = λ j t g u. pends j (v.pending j t g u);
    waits = w;
  }

pub loop_head-Quiet : (s r : Session) → loop_head s ≡ some r → Quiet s r
unfolding loop_head
loop_head-Quiet s r h = ground arith

pub read_returns-Quiet :
    (result : Read) (s r : Session) → read_returns result s ≡ some r → Quiet s r
unfolding read_returns
read_returns-Quiet result s r h = ground arith

pub refresh-Quiet : (now : ℕ) (s r : Session) → refresh now s ≡ some r → Quiet s r
unfolding refresh
refresh-Quiet now s r h = ground arith

pub forward-Quiet : (sent : Bool) (s r : Session) → forward sent s ≡ some r → Quiet s r
unfolding forward
forward-Quiet sent s r h = ground arith

pub close_conn-Quiet : (s r : Session) → close_conn s ≡ some r → Quiet s r
unfolding close_conn
close_conn-Quiet s r h = ground arith
