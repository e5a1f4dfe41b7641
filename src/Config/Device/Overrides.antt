-- ===== src/Config/Device/Overrides.antt =====
-- What a wrapper's section makes of an imported device.
use wireproxy.Base.{
  ◌≡◌, ◌↔◌, refl, sym, ap, subst, ◌>>=◌, Option, none, some, List, ok, Outcome, >>=-eq-ok, inl, inr,
  Option-cases, ℤ, arith,
}
use wireproxy.Config.Device.{apply_interface_overrides, override_addrs}
use wireproxy.Config.Keys.{int_key_or, int_key_pointer, parse_net_ip}
use wireproxy.Config.Types.{DeviceConfig}
use wireproxy.Host.{Host, Section, Addr}
use wireproxy.Text.{Text, codes}

-- A field after an override, whose key is absent or has been read.
abbrev pub Replaced : {A : Type 0} → Option (Outcome Text A) → A → A → Type 0
Replaced none old new = new ≡ old
Replaced (some read) old new = read ≡ ok new

abbrev pub int_read : Section → Text → Option (Outcome Text ℤ)
int_read section name = elim (section.get_key name) [ none ↦ none | some key ↦ some key.int ]

abbrev pub pointer_read : Section → Text → Option (Outcome Text (Option ℤ))
pointer_read section name = elim (section.get_key name) [
  | none ↦ none
  | some key ↦ some (do value ← key.int; ok (some value))
]

abbrev pub addrs_read : Host → Section → Text → Option (Outcome Text (List Addr))
addrs_read host section name = elim (section.get_key name) [
  | none ↦ none
  | some key ↦ some (parse_net_ip host section name)
]

-- The five fields each by its own key, and no other field changed.
pub record Overridden (host : Host) (section : Section) (device device' : DeviceConfig)
    : Type 0 where
  pub mtu : Replaced (int_read section (codes "MTU")) device.mtu device'.mtu
  pub dns : Replaced (addrs_read host section (codes "DNS")) device.dns device'.dns
  pub listen_port :
      Replaced (pointer_read section (codes "ListenPort")) device.listen_port device'.listen_port
  pub check_alive :
      Replaced (addrs_read host section (codes "CheckAlive")) device.check_alive device'.check_alive
  pub interval :
      Replaced
        (int_read section (codes "CheckAliveInterval"))
        device.check_alive_interval
        device'.check_alive_interval
  pub kept : device' ≡ record device {
    mtu = device'.mtu;
    dns = device'.dns;
    listen_port = device'.listen_port;
    check_alive = device'.check_alive;
    check_alive_interval = device'.check_alive_interval;
  }

module _ (section : Section) (name : Text) where
  int_key_or_iff :
      (old new : ℤ)
      → (int_key_or section name old ≡ ok new) ↔ Replaced (int_read section name) old new
  unfolding int_key_or
  int_key_or_iff old new = elim (Option-cases (section.get_key name)) [
    | inl absent ↦ rw (absent, int_key_or, int_read) (ground arith)
    | inr (key, found) ↦ rw (found, int_key_or, int_read) (λ e. e, λ e. e)
  ]

  int_key_pointer_iff :
      (old new : Option ℤ)
      → (int_key_pointer section name old ≡ ok new) ↔ Replaced (pointer_read section name) old new
  unfolding int_key_pointer
  int_key_pointer_iff old new = elim (Option-cases (section.get_key name)) [
    | inl absent ↦ rw (absent, int_key_pointer, pointer_read) (ground arith)
    | inr (key, found) ↦ rw (found, int_key_pointer, pointer_read) (λ e. e, λ e. e)
  ]

  override_addrs_iff :
      (host : Host) (old new : List Addr)
      → (override_addrs host section name old ≡ ok new)
        ↔ Replaced (addrs_read host section name) old new
  override_addrs_iff host old new = elim (Option-cases (section.get_key name)) [
    | inl absent ↦ rw (absent, override_addrs, addrs_read) (ground arith)
    | inr (key, found) ↦ rw (found, override_addrs, addrs_read) (λ e. e, λ e. e)
  ]

overrides-Overridden :
    (host : Host) (section : Section) (device device' : DeviceConfig)
    → apply_interface_overrides host section device ≡ ok device'
    → Overridden host section device device'
unfolding apply_interface_overrides
overrides-Overridden host section device device' h =
    let (m, p0, h0) = >>=-eq-ok (int_key_or section (codes "MTU") device.mtu) _ h in
    let (dns, p1, h1) = >>=-eq-ok (override_addrs host section (codes "DNS") device.dns) _ h0 in
    let (port, p2, h2) =
      >>=-eq-ok (int_key_pointer section (codes "ListenPort") device.listen_port) _ h1 in
    let (alive, p3, h3) =
      >>=-eq-ok (override_addrs host section (codes "CheckAlive") device.check_alive) _ h2 in
    let (i, p4, h4) =
      >>=-eq-ok (int_key_or section (codes "CheckAliveInterval") device.check_alive_interval) _
        h3 in
    let made : DeviceConfig = record device {
      mtu = m;
      dns = dns;
      listen_port = port;
      check_alive = alive;
      check_alive_interval = i;
    } in
    let same : made ≡ device' = ground arith in
    subst (Overridden host section device) same (record {
      mtu = (int_key_or_iff section (codes "MTU") device.mtu m).0 p0;
      dns = (override_addrs_iff section (codes "DNS") host device.dns dns).0 p1;
      listen_port = (int_key_pointer_iff section (codes "ListenPort") device.listen_port port).0 p2;
      check_alive =
          (override_addrs_iff section (codes "CheckAlive") host device.check_alive alive).0 p3;
      interval =
          (int_key_or_iff section (codes "CheckAliveInterval") device.check_alive_interval i).0 p4;
      kept = refl;
    })

Overridden-overrides :
    (host : Host) (section : Section) (device device' : DeviceConfig)
    → Overridden host section device device'
    → apply_interface_overrides host section device ≡ ok device'
unfolding apply_interface_overrides
Overridden-overrides host section device device' o =
    rw ((int_key_or_iff section (codes "MTU") device.mtu device'.mtu).1 o.mtu) (
      rw ((override_addrs_iff section (codes "DNS") host device.dns device'.dns).1 o.dns) (
        rw
          ((int_key_pointer_iff section (codes "ListenPort") device.listen_port
              device'.listen_port).1
            o.listen_port)
          (rw
            ((override_addrs_iff section (codes "CheckAlive") host device.check_alive
                device'.check_alive).1
              o.check_alive)
            (rw
              ((int_key_or_iff section (codes "CheckAliveInterval") device.check_alive_interval
                  device'.check_alive_interval).1
                o.interval)
              (ap ok (sym o.kept))))))

-- An override of an imported device succeeds with a result exactly where each of its five fields is
-- the imported one, if the wrapper's section lacks the field's key, and what the key's value reads
-- as, if it has the key, and no other field differs: whatever integers are read are taken, an
-- interval between probes of any size and sign among them.
pub apply_interface_overrides_iff :
    (host : Host) (section : Section) (device device' : DeviceConfig)
    → (apply_interface_overrides host section device ≡ ok device')
      ↔ Overridden host section device device'
apply_interface_overrides_iff host section device device' = (
  overrides-Overridden host section device device',
  Overridden-overrides host section device device',
)
