-- ===== src/UdpProxy/Expiry.antt =====
-- Which sessions the cleaner drops.
use wireproxy.Base.{ℕ, ◌+◌, ◌*◌, ◌<◌, ◌≤◌, ◌≡◌, ◌↔◌, true, some, pos, arith}
use wireproxy.Text.{Text}
use wireproxy.UdpProxy.Clean.{find-clean-some, find-clean-active}
use wireproxy.UdpProxy.Valid.{Valid}
use wireproxy.UdpProxy.{Session, Proxy, find, get, tick, expired}

-- Below 2^63 nanoseconds, a timeout is what it says.
expired_iff :
    (n now : ℕ) (s : Session)
    → n < 9_223_372_037
    → (expired (pos n) now s ≡ true) ↔ (s.last_active + n * 1_000_000_000 ≤ now)
unfolding expired
expired_iff n now s small = ground arith

-- Where the timeout is below 9223372037 seconds and the table is valid, a tick of the cleaner leaves
-- in the table exactly those sessions that it held and that were active within the timeout.
pub tick_iff :
    (n : ℕ) (p : Proxy) (src : Text) (i : ℕ) (s : Session)
    → n < 9_223_372_037
    → Valid p
    → get i p.sessions ≡ some s
    → (find src (tick (pos n) p).table ≡ some i)
      ↔ ((find src p.table ≡ some i) × (p.now < s.last_active + n * 1_000_000_000))
unfolding tick
tick_iff n p src i s small v at =
    let kept = find-clean-some (pos n) p.now src i p.table p.sessions {s = s} v.distinct in
    (
      (λ f. ((kept f).0, ground (arith, (kept f).1 at, expired_iff n p.now s small))),
      (λ h.
          find-clean-active (pos n) p.now src i p.table p.sessions {s = s} h.0
            (ground (arith, expired_iff n p.now s small)) at),
    )
