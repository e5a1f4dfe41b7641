-- ===== src/Health.antt =====
-- health.go: the registry of started connections, its two endpoints, and the redaction of secrets.
pub mod Redact
pub mod Readiness
pub mod Endpoints
use wireproxy.Base.{
  ℕ, ◌+◌, ◌*◌, ◌-◌, ◌%◌, ◌^◌, Bool, true, false, not, ◌&&◌, ◌||◌, Option, none, some, List, [], ◌∷◌,
  ◌++◌, map, ℤ, pos_part, neg_part, is_empty, any, is_some, ltb, ◌==◌, Outcome, ok, err,
  if◌then◌else◌,
}
use wireproxy.Host.{Addr}
use wireproxy.Text.Strings.{cut, split}
use wireproxy.Text.{Text, codes, text_eq}

-- What the endpoints read of a `VirtualTun`. `dev` is what `Dev.IpcGet` answers, none where the
-- connection has no WireGuard device.
pub record Tunnel : Type 0 where
  pub name : Text
  pub check_alive : List Addr
  pub check_alive_interval : ℤ
  pub ping_record : List (Text × ℕ)
  pub dev : Option (Outcome Text Text)

-- `HealthRegistry`: the connections in the order of their start.
abbrev pub Registry : Type 0
Registry = List Tunnel

unfoldable pub add : Registry → Tunnel → Registry
add conns vt = conns ++ vt ∷ []

pub record PingSnapshot : Type 0 where
  pub name : Text
  pub check_alive : Bool
  pub interval : ℤ
  pub records : List (Text × ℕ)

abbrev pub second : ℕ
second = 1_000_000_000

-- The 64 bits of `time.Duration(interval+2) * time.Second`, which wraps.
abbrev pub leeway_bits : ℤ → ℕ
leeway_bits interval =
    ((pos_part interval + 2) * second + (2 ^ 64 - neg_part interval * second % 2 ^ 64)) % 2 ^ 64

-- `time.Since(lastPong) > time.Duration(s.interval+2)*time.Second`, at `now` nanoseconds after the
-- epoch; bits from 2^63 on are a negative duration. That `time.Since` stops at the ends of 64 bits
-- changes no answer, as the bits are a multiple of 512.
abbrev pub is_overdue : ℕ → ℤ → ℕ → Bool
is_overdue now interval record' =
    let bits = leeway_bits interval in
    if ltb bits (2 ^ 63)
    then ltb (record' * second + bits) now
    else ltb (record' * second + bits) (now + 2 ^ 64)

unfoldable pub stale : ℕ → PingSnapshot → Bool
stale now s =
    if not s.check_alive then false else any (λ entry. is_overdue now s.interval entry.1) s.records

unfoldable pub snapshot_of : Tunnel → PingSnapshot
snapshot_of vt = record {
  name = vt.name;
  check_alive = not (is_empty vt.check_alive) && is_some vt.dev;
  interval = vt.check_alive_interval;
  records = vt.ping_record;
}

-- Go's order on strings, over code points
unfoldable pub text_lt : Text → Text → Bool
text_lt s [] = false
text_lt [] (d ∷ t) = true
text_lt (c ∷ s) (d ∷ t) = ltb c d || (c == d && text_lt s t)

-- `sort.Slice` by name, as an insertion sort.
module _ {A : Type 0} (name_of : A → Text) where
  unfoldable pub insert : A → List A → List A
  unfolding text_lt
  insert a [] = a ∷ []
  insert a (b ∷ bs) = if text_lt (name_of b) (name_of a) then b ∷ insert a bs else a ∷ b ∷ bs

  unfoldable pub sort_by_name : List A → List A
  unfolding insert
  sort_by_name [] = []
  sort_by_name (a ∷ as') = insert a (sort_by_name as')

unfoldable pub snapshot : Registry → List PingSnapshot
unfolding snapshot_of sort_by_name
snapshot conns = sort_by_name (λ s. s.name) (map snapshot_of conns)

-- `report[name] = records`, on a map as an association list
unfoldable pub put_report :
    Text → List (Text × ℕ) → List (Text × List (Text × ℕ)) → List (Text × List (Text × ℕ))
put_report name records [] = (name, records) ∷ []
put_report name records ((n, r) ∷ m) =
    if text_eq n name then (n, records) ∷ m else (n, r) ∷ put_report name records m

-- The loop of `/readyz`: the status and the report.
unfoldable pub readyz_loop :
    ℕ → List PingSnapshot → ℕ → List (Text × List (Text × ℕ)) → ℕ × List (Text × List (Text × ℕ))
unfolding stale put_report
readyz_loop now [] status report = (status, report)
readyz_loop now (s ∷ snaps) status report =
    readyz_loop now snaps (if stale now s then 503 else status) (put_report s.name s.records report)

unfoldable pub readyz : ℕ → Registry → ℕ × List (Text × List (Text × ℕ))
unfolding readyz_loop snapshot
readyz now conns = readyz_loop now (snapshot conns) 200 []

abbrev pub is_secret : Text → Bool
is_secret key = text_eq key (codes "private_key") || text_eq key (codes "preshared_key")

-- What one line of a dump becomes.
unfoldable pub redact_line : Text → Text
redact_line peer = elim (cut peer b'=') [
  | none ↦ peer
  | some (key, value) ↦
      key ++ b'=' ∷ ((if is_secret key then codes "REDACTED" else value) ++ b'\n' ∷ [])
]

unfoldable pub write_lines : Text → List Text → Text
unfolding redact_line
write_lines buf [] = buf
write_lines buf (peer ∷ peers) = write_lines (buf ++ redact_line peer) peers

unfoldable pub write_redacted_ipc : Text → Text → Text
unfolding write_lines
write_redacted_ipc buf ipc = write_lines buf (split ipc b'\n')

abbrev pub write_device : Text → Option (Outcome Text Text) → Text
write_device buf none = buf ++ codes "# metrics unavailable for this connection type\n"
write_device buf (some (err e)) = buf
write_device buf (some (ok get)) = write_redacted_ipc buf get

-- One connection of the loop of `/metrics`.
unfoldable pub write_metrics : Text → Tunnel → Text
unfolding write_redacted_ipc
write_metrics buf vt = write_device (buf ++ codes "# connection: " ++ vt.name ++ codes "\n") vt.dev

unfoldable pub metrics_loop : Text → List Tunnel → Text
unfolding write_metrics
metrics_loop buf [] = buf
metrics_loop buf (vt ∷ conns) = metrics_loop (write_metrics buf vt) conns

unfoldable pub metrics : Registry → Text
unfolding metrics_loop sort_by_name
metrics conns = metrics_loop [] (sort_by_name (λ vt. vt.name) conns)
