-- ===== src/UdpProxy/Cleaning.antt =====
-- The invariant under the cleaner's pass.
use wireproxy.Base.{ℕ, ◌≡◌, ◌⊎◌, inl, inr, some, List, ℤ, Bool-cases, Option-cases, ◌∙◌, arith}
use wireproxy.Text.{Text}
use wireproxy.UdpProxy.Clean.{
  get-clean, get-clean-expired, get-clean-active, get-clean-none, find-clean-active,
  find-clean-none, find-clean-some, get-clean-unlisted, find-clean-listed, clean-Distinct,
}
use wireproxy.UdpProxy.{
  Session, Reader, idle, stopped, dialing, created, starting, marking, writing, Proxy, find, get,
  tick, clean, close_session_chan, expired,
}
use wireproxy.UdpProxy.Valid.{Serves, Accounted, Waits, Valid}

module _ (p : Proxy) (v : Valid p) where
  module _ (timeout : ℤ) where
    abbrev kept : List (Text × ℕ)
    kept = (clean timeout p.now p.table p.sessions).0

    abbrev cleaned : List Session
    cleaned = (clean timeout p.now p.table p.sessions).1

    cleaned-cases :
        (j : ℕ) (t : Session)
        → get j cleaned ≡ some t
        → (s : Session) × (get j p.sessions ≡ some s) × ((s ≡ t) ⊎ (close_session_chan s ≡ t))
    cleaned-cases j t g = elim (Option-cases (get j p.sessions)) [
      | inl none' ↦ ground (arith, get-clean-none timeout p.now j p.table p.sessions none')
      | inr (s, at) ↦ (s, at, ground (arith, get-clean timeout p.now j p.table p.sessions at))
    ]

    cleaned-Serves : (src : Text) (i : ℕ) → find src kept ≡ some i → Serves src i cleaned
    cleaned-Serves src i f =
        let listed = find-clean-listed timeout p.now src i p.table p.sessions v.distinct f in
        let (s, at, a, b, c) = v.serves src i listed in
        (
          s,
          get-clean-active timeout p.now i p.table p.sessions
              ((find-clean-some timeout p.now src i p.table p.sessions v.distinct f).1 at) at,
          a,
          b,
          c,
        )

    cleaned-Accounted : (i : ℕ) (t : Session) → get i cleaned ≡ some t → Accounted i t kept p.reader
    cleaned-Accounted i t g =
        let (s, at, now_t) = cleaned-cases i t g in
        elim (Bool-cases (expired timeout p.now s)) [
          | inl dead ↦ ground (
            arith,
            now_t,
            v.accounted i s at,
            get-clean-expired timeout p.now s.src i p.table p.sessions {s = s},
            at,
            g,
          )
          | inr active ↦ ground (
            arith,
            now_t,
            v.accounted i s at,
            find-clean-active timeout p.now s.src i p.table p.sessions {s = s},
            at,
            g,
          )
        ]

    cleaned-Waits : (reader : Reader) → Waits p.table p.sessions reader → Waits kept cleaned reader
    cleaned-Waits (dialing src) w = find-clean-none timeout p.now src p.table p.sessions w
    cleaned-Waits (created src id) (n, s, at, a, b, c) = (
      find-clean-none timeout p.now src p.table p.sessions n,
      s,
      get-clean-unlisted timeout p.now id p.table p.sessions v.distinct
            (λ k f. ground (arith, v.serves k id f))
          ∙ at,
      a,
      b,
      c,
    )
    cleaned-Waits (starting id) (s, at, u) =
        elim (get-clean timeout p.now id p.table p.sessions at) [
          | inl same ↦ (s, same, u)
          | inr closed ↦ (close_session_chan s, closed, u)
        ]
    cleaned-Waits idle w = tt
    cleaned-Waits stopped w = tt
    cleaned-Waits (marking id) w = tt
    cleaned-Waits (writing id) w = tt

    pub tick-Valid : Valid (tick timeout p)
    unfolding tick
    tick-Valid = record {
      distinct = clean-Distinct timeout p.now p.table p.sessions v.distinct;
      serves = cleaned-Serves;
      accounted = cleaned-Accounted;
      connected = λ i t g.
          let (s, at, now_t) = cleaned-cases i t g in ground (arith, v.connected i s at, now_t);
      pending = λ i t g u.
          let (s, at, now_t) = cleaned-cases i t g in ground (arith, v.pending i s at, now_t);
      waits = cleaned-Waits p.reader v.waits;
    }
