-- ===== src/Config/Connection/Devices.antt =====
-- The device of a WireGuard connection, from inline sections or from an imported file.
use wireproxy.Base.{
  ◌<◌, ◌≡◌, false, not, List, [], ◌∷◌, ok, ensure, >>=-eq-ok, ◌⊎◌, inl, inr, Bool-cases, All,
  is_empty, length, arith, if◌then◌else◌, ◌≢◌, length-pos, ensure-eq-ok,
}
use wireproxy.Config.Connection.{external_device, inline_device, overridden, empty_device}
use wireproxy.Config.Device.Files.{
  parse_interface_lem, parse_peers_lem, apply_interface_overrides_keep,
}
use wireproxy.Config.Device.Interval.{IsInterval, parse_check_interval-IsInterval}
use wireproxy.Config.Device.Keys.{
  IsKey, HasKeys, parse_peer_sections-HasKeys, parse_interface_section_lem,
}
use wireproxy.Config.Device.{
  parse_interface, parse_peers, parse_interface_section, parse_peer_sections,
}
use wireproxy.Config.Groups.{ConnGroup}
use wireproxy.Config.Types.{DeviceConfig}
use wireproxy.Host.{Host, Section}
use wireproxy.Text.{Text, codes}

-- A device that WireGuard can be set up with: every key is 32 bytes, and there is a peer.
pub record IsDevice (device : DeviceConfig) : Type 0 where
  pub secret : IsKey device.secret_key
  pub keys : All HasKeys device.peers
  pub some_peer : 0 < length device.peers

module _ (host : Host) where
  inline_device-IsDevice :
      (iface peers : List Section) (device : DeviceConfig)
      → inline_device host iface peers ≡ ok device
      → IsDevice device × IsInterval device.check_alive_interval
  unfolding inline_device
  inline_device-IsDevice [] peers device h = cc
  inline_device-IsDevice (section ∷ iface) peers device h =
      let (parsed, p, h0) = >>=-eq-ok (parse_interface_section host section empty_device) _ h in
      let (u, q, h1) =
        >>=-eq-ok (ensure (not (is_empty peers)) (codes "at least one [Peer] is expected")) _ h0 in
      let (made, r, h2) = >>=-eq-ok (parse_peer_sections host peers parsed.peers) _ h1 in
      let (key, checked, untouched) =
        parse_interface_section_lem host section empty_device parsed p in
      let (keys, size) =
        parse_peer_sections-HasKeys host peers parsed.peers made r (rw untouched tt) in
      let (within_bounds, default) =
        parse_check_interval-IsInterval section parsed.check_alive checked in
      let filled : is_empty peers ≡ false = ground (arith, ensure-eq-ok _ _ q) in
      let same : record parsed { peers = made } ≡ device = ground arith in
      rw (← same) (
        record {
          secret = key;
          keys = keys;
          some_peer = omega (arith, size, length-pos peers filled);
        },
        within_bounds,
      )

  overridden_keep :
      (iface : List Section) (device device' : DeviceConfig)
      → overridden host iface device ≡ ok device'
      → (device'.secret_key ≡ device.secret_key) × (device'.peers ≡ device.peers)
  overridden_keep [] device device' h = ground arith
  overridden_keep (section ∷ []) device device' h =
      ground (arith, apply_interface_overrides_keep host section device device' h)
  overridden_keep (s ∷ t ∷ iface) device device' h = ground arith

  external_device-IsDevice :
      (path : Text) (iface : List Section) (device : DeviceConfig)
      → external_device host path iface ≡ ok device
      → IsDevice device
  unfolding external_device
  external_device-IsDevice path iface device h =
      let (cfg, p0, h0) = >>=-eq-ok (host.load_path path) _ h in
      let (parsed, p1, h1) = >>=-eq-ok (parse_interface host cfg empty_device) _ h0 in
      let (made, p2, h2) = >>=-eq-ok (parse_peers host cfg parsed.peers) _ h1 in
      let (key, untouched) = parse_interface_lem host cfg empty_device parsed p1 in
      let (keys, filled) = parse_peers_lem host cfg parsed.peers made p2 (rw untouched tt) in
      let (same_key, same_peers) =
        overridden_keep iface (record parsed { peers = made }) device h2 in
      record {
        secret = rw same_key key;
        keys = rw same_peers keys;
        some_peer = rw same_peers filled;
      }

  pub wireguard_device :
      (path : Text) (g : ConnGroup) (device : DeviceConfig)
      → (if is_empty path
          then inline_device host g.iface g.peers
          else external_device host path g.iface)
        ≡ ok device
      → IsDevice device × ((path ≢ []) ⊎ IsInterval device.check_alive_interval)
  wireguard_device path g device h = elim (Bool-cases (is_empty path)) [
    | inl inline ↦
        let (made, within_bounds) =
          inline_device-IsDevice g.iface g.peers device (rw inline at h) in
        (made, inr within_bounds)
    | inr external ↦
        (external_device-IsDevice path g.iface device (rw external at h), inl (ground arith))
  ]
