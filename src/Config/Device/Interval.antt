-- ===== src/Config/Device/Interval.antt =====
-- The interval between CheckAlive probes of an inline device.
use wireproxy.Base.{
  ◌≤◌, ◌≡◌, refl, false, ◌||◌, List, [], ok, >>=-eq-ok, ◌≢◌, inl, inr, Option-cases, ℤ, pos, negsuc,
  ltb_ℤ, arith, ◌⊎◌,
}
use wireproxy.Config.Device.{parse_check_interval}
use wireproxy.Host.{Section, Addr}
use wireproxy.Text.{codes}

-- A whole number of seconds between one and a day.
abbrev pub IsInterval : ℤ → Type 0
IsInterval (pos n) = (1 ≤ n) × (n ≤ 86400)
IsInterval (negsuc n) = ⊥

checked-IsInterval : (v : ℤ) → (ltb_ℤ v (pos 1) || ltb_ℤ (pos 86400) v) ≡ false → IsInterval v
checked-IsInterval (pos n) h = ground arith
checked-IsInterval (negsuc n) h = ground arith

-- What an inline section yields is an interval of 1 to 86400 seconds, and is the default of 5
-- unless there are addresses to probe.
pub parse_check_interval-IsInterval :
    (section : Section) (check_alive : List Addr) {interval : ℤ}
    → parse_check_interval section check_alive ≡ ok interval
    → IsInterval interval × ((check_alive ≢ []) ⊎ (interval ≡ pos 5))
unfolding parse_check_interval
parse_check_interval-IsInterval section check_alive {interval} h =
    elim (Option-cases (section.get_key (codes "CheckAliveInterval"))) [
      | inl absent ↦
          let same : pos 5 ≡ interval = ground arith in rw (← same) (omega arith, inr refl)
      | inr (key, found) ↦
          let (value, read, later) = >>=-eq-ok key.int _ (rw (found, parse_check_interval) at h) in
          let same : value ≡ interval = ground arith in
          (
            rw (← same) (checked-IsInterval value (ground arith)),
            inl (λ none. absurd (ground arith)),
          )
    ]
