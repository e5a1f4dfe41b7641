-- ===== src/Tunnel/Ping.antt =====
-- `StartPingIPs` and `pingIPs`: the records that the health endpoint reads. A probe ends at a time of
-- its own, so the ends of probes come as a list of events, in the order of the lock.
pub mod Stored
pub mod History
use wireproxy.Base.{
  ℕ, Bool, true, false, not, ◌&&◌, ◌||◌, Option, none, some, List, [], ◌∷◌, ◌==◌, is_empty, ltb_ℤ,
  ℤ, pos, if◌then◌else◌,
}
use wireproxy.Host.{Addr}
use wireproxy.Text.{Text, text_eq}

-- `PingRecord`: the second of the last pong, by address
abbrev pub Records : Type 0
Records = List (Text × ℕ)

-- `d.PingRecord[addr] = now`
unfoldable pub put_record : Text → ℕ → Records → Records
put_record addr now [] = (addr, now) ∷ []
put_record addr now ((a, t) ∷ records) =
    if text_eq a addr then (a, now) ∷ records else (a, t) ∷ put_record addr now records

-- The seeds of `StartPingIPs`.
unfoldable pub seed : List Addr → ℕ → Records → Records
unfolding put_record
seed [] now records = records
seed (addr ∷ addrs) now records = seed addrs now (put_record addr.string now records)

unfoldable pub start_ping_ips : Bool → List Addr → ℕ → Records → Records
unfolding seed
start_ping_ips has_tnet check_alive now records =
    if not has_tnet || is_empty check_alive then records else seed check_alive now records

-- The sleep between two rounds, in seconds, before it is made a duration.
unfoldable pub round_interval : ℤ → ℤ
round_interval interval = if ltb_ℤ interval (pos 1) then pos 1 else interval

pub record Echo : Type 0 where
  pub seq : ℕ
  pub payload : List ℕ

-- What is read from the socket: nothing in time, or bytes that are no ICMP message, another message,
-- or an echo.
pub data Reply : Type 0 where
  nothing unparsed other_type : Reply
  echo : Echo → Reply

-- One probe: the request that was sent, whether the socket could be opened, whether the request
-- could be written to it, and what was read.
pub record Probe : Type 0 where
  pub addr : Addr
  pub request : Echo
  pub is_dialed : Bool
  pub writes : Bool
  pub reply : Reply

abbrev pub answers : Echo → Reply → Bool
answers request nothing = false
answers request unparsed = false
answers request other_type = false
answers request (echo r) = text_eq r.payload request.payload && r.seq == request.seq

-- Whether the probe comes to the update of the record.
unfoldable pub is_pong : Probe → Bool
is_pong p =
    if p.is_dialed
    then (p.addr.is_4 || p.addr.is_6) && (p.writes && answers p.request p.reply)
    else false

unfoldable pub end_probe : ℕ → Probe → Records → Records
unfolding is_pong put_record
end_probe now p records = if is_pong p then put_record p.addr.string now records else records

-- The ends of probes, each with its second.
unfoldable pub end_probes : List (ℕ × Probe) → Records → Records
unfolding end_probe
end_probes [] records = records
end_probes ((now, p) ∷ ends) records = end_probes ends (end_probe now p records)
