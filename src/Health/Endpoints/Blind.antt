-- ===== src/Health/Endpoints/Blind.antt =====
-- The answers of the health endpoint beside the secrets of the devices.
use wireproxy.Base.{
  ℕ, ◌≡◌, refl, ap, ◌∙◌, true, false, Option, none, some, List, [], ◌∷◌, ◌++◌, map, Outcome, ok,
  err, inl, inr, Bool-cases, All, arith, ℤ,
}
use wireproxy.Health.Endpoints.{serve_http}
use wireproxy.Health.Redact.{IsEntry, AllAlike, write_redacted_ipc_noninterference}
use wireproxy.Health.{
  Tunnel, Registry, snapshot_of, snapshot, text_lt, insert, sort_by_name, write_metrics,
  metrics_loop, metrics, readyz, readyz_loop, write_redacted_ipc, write_device,
}
use wireproxy.Host.{Addr}
use wireproxy.Text.Strings.Cut.{unlines}
use wireproxy.Text.{Text, codes}

-- Two dumps of entries that agree but for the values of private and pre-shared keys.
pub record AlikeDumps (dump dump' : Text) : Type 0 where
  pub lines : List Text
  pub lines' : List Text
  pub whole : dump ≡ unlines lines
  pub whole' : dump' ≡ unlines lines'
  pub entries : All IsEntry lines
  pub entries' : All IsEntry lines'
  pub alike : AllAlike lines lines'

-- Both connections have no device, or devices that both fail to answer, or answer alike.
abbrev pub AlikeDevices : Option (Outcome Text Text) → Option (Outcome Text Text) → Type 0
AlikeDevices none none = Unit
AlikeDevices (some (err e)) (some (err e')) = Unit
AlikeDevices (some (ok dump)) (some (ok dump')) = AlikeDumps dump dump'
AlikeDevices _ _ = ⊥

pub record AlikeTunnels (vt vt' : Tunnel) : Type 0 where
  pub name : vt.name ≡ vt'.name
  pub check_alive : vt.check_alive ≡ vt'.check_alive
  pub interval : vt.check_alive_interval ≡ vt'.check_alive_interval
  pub records : vt.ping_record ≡ vt'.ping_record
  pub devices : AlikeDevices vt.dev vt'.dev

abbrev pub AllTunnelsAlike : Registry → Registry → Type 0
AllTunnelsAlike [] [] = Unit
AllTunnelsAlike (vt ∷ conns) (vt' ∷ conns') = AlikeTunnels vt vt' × AllTunnelsAlike conns conns'
AllTunnelsAlike _ _ = ⊥

has_device :
    (d d' : Option (Outcome Text Text))
    → AlikeDevices d d'
    → (name : Text) (addrs : List Addr) (interval : ℤ) (records : List (Text × ℕ))
    → snapshot_of (record {
      name = name;
      check_alive = addrs;
      check_alive_interval = interval;
      ping_record = records;
      dev = d;
    })
      ≡ snapshot_of (record {
        name = name;
        check_alive = addrs;
        check_alive_interval = interval;
        ping_record = records;
        dev = d';
      })
unfolding snapshot_of
has_device none none a name addrs interval records = refl
has_device (some (err e)) (some (err e')) a name addrs interval records = refl
has_device (some (ok d)) (some (ok d')) a name addrs interval records = refl
has_device none (some x) a name addrs interval records = absurd a
has_device (some (err e)) none a name addrs interval records = absurd a
has_device (some (ok d)) none a name addrs interval records = absurd a
has_device (some (err e)) (some (ok d')) a name addrs interval records = absurd a
has_device (some (ok d)) (some (err e')) a name addrs interval records = absurd a

snapshot_of-Alike : (vt vt' : Tunnel) → AlikeTunnels vt vt' → snapshot_of vt ≡ snapshot_of vt'
unfolding snapshot_of
snapshot_of-Alike vt vt' a = ground (
  arith,
  a.name,
  a.check_alive,
  a.interval,
  a.records,
  has_device vt.dev vt'.dev a.devices vt.name vt.check_alive vt.check_alive_interval vt.ping_record,
)

map-snapshot_of-Alike :
    (conns conns' : Registry)
    → AllTunnelsAlike conns conns'
    → map snapshot_of conns ≡ map snapshot_of conns'
map-snapshot_of-Alike [] [] h = refl
map-snapshot_of-Alike (vt ∷ conns) (vt' ∷ conns') (a, h) =
    cc (snapshot_of-Alike vt vt' a, map-snapshot_of-Alike conns conns' h)
map-snapshot_of-Alike [] (vt' ∷ conns') h = absurd h
map-snapshot_of-Alike (vt ∷ conns) [] h = absurd h

insert-Alike :
    (vt vt' : Tunnel) (conns conns' : Registry)
    → AlikeTunnels vt vt'
    → AllTunnelsAlike conns conns'
    → AllTunnelsAlike (insert (λ t. t.name) vt conns) (insert (λ t. t.name) vt' conns')
unfolding insert
insert-Alike vt vt' [] [] a h = (a, tt)
insert-Alike vt vt' (b ∷ conns) (b' ∷ conns') a (k, h) =
    elim (Bool-cases (text_lt b.name vt.name)) [
      | inl before ↦
          let before' : text_lt b'.name vt'.name ≡ true = ground (arith, a.name, k.name) in
          rw before (rw before' (k, insert-Alike vt vt' conns conns' a h))
      | inr after ↦
          let after' : text_lt b'.name vt'.name ≡ false = ground (arith, a.name, k.name) in
          rw after (rw after' (a, (k, h)))
    ]
insert-Alike vt vt' [] (b' ∷ conns') a h = absurd h
insert-Alike vt vt' (b ∷ conns) [] a h = absurd h

sort_by_name-Alike :
    (conns conns' : Registry)
    → AllTunnelsAlike conns conns'
    → AllTunnelsAlike (sort_by_name (λ t. t.name) conns) (sort_by_name (λ t. t.name) conns')
unfolding sort_by_name
sort_by_name-Alike [] [] h = tt
sort_by_name-Alike (vt ∷ conns) (vt' ∷ conns') (a, h) =
    insert-Alike vt vt' _ _ a (sort_by_name-Alike conns conns' h)
sort_by_name-Alike [] (vt' ∷ conns') h = absurd h
sort_by_name-Alike (vt ∷ conns) [] h = absurd h

write_redacted_ipc-Alike :
    (buf dump dump' : Text)
    → AlikeDumps dump dump'
    → write_redacted_ipc buf dump ≡ write_redacted_ipc buf dump'
write_redacted_ipc-Alike buf dump dump' a = cc (
  a.whole,
  a.whole',
  write_redacted_ipc_noninterference buf a.lines a.lines' a.entries a.entries' a.alike,
)

write_device-Alike :
    (buf : Text) (d d' : Option (Outcome Text Text))
    → AlikeDevices d d'
    → write_device buf d ≡ write_device buf d'
write_device-Alike buf none none a = refl
write_device-Alike buf (some (err e)) (some (err e')) a = refl
write_device-Alike buf (some (ok d)) (some (ok d')) a = write_redacted_ipc-Alike buf d d' a
write_device-Alike buf none (some x) a = absurd a
write_device-Alike buf (some (err e)) none a = absurd a
write_device-Alike buf (some (ok d)) none a = absurd a
write_device-Alike buf (some (err e)) (some (ok d')) a = absurd a
write_device-Alike buf (some (ok d)) (some (err e')) a = absurd a

write_metrics-Alike :
    (buf : Text) (vt vt' : Tunnel)
    → AlikeTunnels vt vt'
    → write_metrics buf vt ≡ write_metrics buf vt'
unfolding write_metrics
write_metrics-Alike buf vt vt' a =
    write_device-Alike (buf ++ codes "# connection: " ++ vt.name ++ codes "\n") vt.dev vt'.dev
      a.devices
    ∙ ap (λ n. write_device (buf ++ codes "# connection: " ++ n ++ codes "\n") vt'.dev) a.name

metrics_loop-Alike :
    (buf : Text) (conns conns' : Registry)
    → AllTunnelsAlike conns conns'
    → metrics_loop buf conns ≡ metrics_loop buf conns'
unfolding metrics_loop
metrics_loop-Alike buf [] [] h = refl
metrics_loop-Alike buf (vt ∷ conns) (vt' ∷ conns') (a, h) =
    ap (λ b. metrics_loop b conns) (write_metrics-Alike buf vt vt' a)
    ∙ metrics_loop-Alike (write_metrics buf vt') conns conns' h
metrics_loop-Alike buf [] (vt' ∷ conns') h = absurd h
metrics_loop-Alike buf (vt ∷ conns) [] h = absurd h

readyz-Alike :
    (now : ℕ) (conns conns' : Registry)
    → AllTunnelsAlike conns conns'
    → readyz now conns ≡ readyz now conns'
unfolding readyz snapshot
readyz-Alike now conns conns' h =
    ap (λ s. readyz_loop now (sort_by_name (λ t. t.name) s) 200 [])
      (map-snapshot_of-Alike conns conns' h)

-- Two registries whose connections agree in order, but for the values of private and pre-shared keys
-- in the dumps of their devices and for the errors of devices that fail to answer, are answered
-- alike at every path and time.
pub serve_http-Alike :
    (now : ℕ) (path : Text) (conns conns' : Registry)
    → AllTunnelsAlike conns conns'
    → serve_http now conns path ≡ serve_http now conns' path
unfolding serve_http metrics
serve_http-Alike now path conns conns' h = cc (
  readyz-Alike now conns conns' h,
  metrics_loop-Alike [] (sort_by_name (λ t. t.name) conns) (sort_by_name (λ t. t.name) conns')
      (sort_by_name-Alike conns conns' h),
)
