-- ===== src/Config/Device/Files.antt =====
-- The device of an imported file, and the overrides on top of it.
use wireproxy.Base.{◌<◌, ◌≡◌, List, [], ◌∷◌, Outcome, ok, err, >>=-eq-ok, All, length, arith}
use wireproxy.Config.Device.Keys.{
  IsKey, HasKeys, parse_peer_sections-HasKeys, parse_interface_section_lem,
}
use wireproxy.Config.Device.{
  parse_interface, parse_peers, only_interface, some_peers, override_addrs,
  apply_interface_overrides,
}
use wireproxy.Config.Keys.{int_key_or, int_key_pointer}
use wireproxy.Config.Types.{PeerConfig, DeviceConfig}
use wireproxy.Host.{Host, Section, File}
use wireproxy.Text.{Text, codes}

module _ (host : Host) where
  only_interface_lem :
      (found : Outcome Text (List Section)) (device device' : DeviceConfig)
      → only_interface host found device ≡ ok device'
      → IsKey device'.secret_key × (device'.peers ≡ device.peers)
  only_interface_lem (ok (section ∷ [])) device device' h =
      let (key, checked, same) = parse_interface_section_lem host section device device' h in
      (key, same)
  only_interface_lem (ok (s ∷ t ∷ r)) device device' h = cc
  only_interface_lem (ok []) device device' h = cc
  only_interface_lem (err e) device device' h = cc

  pub parse_interface_lem :
      (cfg : File) (device device' : DeviceConfig)
      → parse_interface host cfg device ≡ ok device'
      → IsKey device'.secret_key × (device'.peers ≡ device.peers)
  unfolding parse_interface
  parse_interface_lem cfg = only_interface_lem (cfg.by_name (codes "Interface"))

  some_peers_lem :
      (found : Outcome Text (List Section)) (before after : List PeerConfig)
      → some_peers host found before ≡ ok after
      → All HasKeys before
      → All HasKeys after × (0 < length after)
  some_peers_lem (ok (section ∷ sections)) before after h a =
      let (keys, size) = parse_peer_sections-HasKeys host (section ∷ sections) before after h a in
      (keys, omega (arith, size))
  some_peers_lem (ok []) before after h a = cc
  some_peers_lem (err e) before after h a = cc

  pub parse_peers_lem :
      (cfg : File) (before after : List PeerConfig)
      → parse_peers host cfg before ≡ ok after
      → All HasKeys before
      → All HasKeys after × (0 < length after)
  unfolding parse_peers
  parse_peers_lem cfg = some_peers_lem (cfg.by_name (codes "Peer"))

  -- The overrides leave the key, the addresses and the peers of the imported device alone.
  pub apply_interface_overrides_keep :
      (section : Section) (device device' : DeviceConfig)
      → apply_interface_overrides host section device ≡ ok device'
      → (device'.secret_key ≡ device.secret_key)
        × (device'.endpoint ≡ device.endpoint)
        × (device'.peers ≡ device.peers)
  unfolding apply_interface_overrides
  apply_interface_overrides_keep section device device' h =
      let (mtu, p0, h0) = >>=-eq-ok (int_key_or section (codes "MTU") device.mtu) _ h in
      let (dns, p1, h1) = >>=-eq-ok (override_addrs host section (codes "DNS") device.dns) _ h0 in
      let (port, p2, h2) =
        >>=-eq-ok (int_key_pointer section (codes "ListenPort") device.listen_port) _ h1 in
      let (alive, p3, h3) =
        >>=-eq-ok (override_addrs host section (codes "CheckAlive") device.check_alive) _ h2 in
      let (interval, p4, h4) =
        >>=-eq-ok (int_key_or section (codes "CheckAliveInterval") device.check_alive_interval) _
          h3 in
      ground arith
