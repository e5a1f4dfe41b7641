-- ===== src/Config/Connection/Backend.antt =====
-- What a group becomes: a WireGuard device or a Tailscale node, never both and never neither.
use wireproxy.Base.{
  ◌≡◌, refl, ◌&&◌, none, some, List, [], ◌∷◌, ok, ensure, >>=-eq-ok, ◌⊎◌, inl, inr, is_empty,
  length, arith, if◌then◌else◌, ◌≢◌, ◌∙◌, ◌+◌, ensure-eq-ok,
}
use wireproxy.Config.Connection.Devices.{IsDevice, wireguard_device}
use wireproxy.Config.Connection.Complete.{append_routines_complete, total}
use wireproxy.Config.Connection.{
  append_routines, parse_group, wireguard_connection, tailscale_connection, connection_of,
  resolve_of, external_path, external_device, inline_device,
}
use wireproxy.Config.Device.Interval.{IsInterval}
use wireproxy.Config.Device.{parse_tailscale_config}
use wireproxy.Config.Groups.Invariant.{DistinctKeys}
use wireproxy.Config.Groups.{ConnGroup}
use wireproxy.Config.Types.{Configuration, DeviceConfig, TailscaleConfig}
use wireproxy.Host.{Host, Section}
use wireproxy.Text.{Text}

-- A WireGuard connection: a device with all its keys, no Tailscale node, and an interval in range
-- unless the device was imported.
pub record IsWireguard (host : Host) (path : Text) (root : Section) (g : ConnGroup)
    (conf : Configuration) : Type 0 where
  device : DeviceConfig
  has_device : conf.device ≡ some device
  no_node : conf.tailscale ≡ none
  no_section : g.tailscale ≡ []
  valid : IsDevice device
  source : Text
  has_source : external_path host g.name root (host.dir path) g.iface ≡ ok source
  interval : (source ≢ []) ⊎ IsInterval device.check_alive_interval

pub record IsTailscale (g : ConnGroup) (conf : Configuration) : Type 0 where
  node : TailscaleConfig
  has_node : conf.tailscale ≡ some node
  no_device : conf.device ≡ none
  no_interface : g.iface ≡ []
  no_peers : g.peers ≡ []
  one_section : length g.tailscale ≡ 1

module _ (host : Host) (path : Text) (root : Section) (g : ConnGroup)
    (distinct : DistinctKeys g.routines) where
  -- The fields that `appendRoutines` leaves alone, and the routines that it adds.
  append_routines_fields :
      (conf conf' : Configuration)
      → append_routines host g conf ≡ ok conf'
      → (conf'.name ≡ conf.name)
        × (conf'.device ≡ conf.device)
        × (conf'.tailscale ≡ conf.tailscale)
        × (length conf'.routines ≡ length conf.routines + total g.routines)
  append_routines_fields conf conf' h =
      let (known, size, same) = append_routines_complete host g conf conf' distinct h in
      ground (arith, size, same)

  wireguard_connection-IsWireguard :
      (conf conf' : Configuration)
      → wireguard_connection host path root g conf ≡ ok conf'
      → conf.tailscale ≡ none
      → g.tailscale ≡ []
      → IsWireguard host path root g conf'
        × (conf'.name ≡ conf.name)
        × (length conf'.routines ≡ length conf.routines + total g.routines)
  unfolding wireguard_connection
  wireguard_connection-IsWireguard conf conf' h no_node no_section =
      let (source, p0, h0) =
        >>=-eq-ok (external_path host g.name root (host.dir path) g.iface) _ h in
      let (device, p1, h1) =
        >>=-eq-ok
          (if is_empty source
            then inline_device host g.iface g.peers
            else external_device host source g.iface)
          _ h0 in
      let (name, has_device, node, size) =
        append_routines_fields (record conf { device = some device }) conf' h1 in
      let (valid, bounded) = wireguard_device host source g device p1 in
      (
        record {
          device = device;
          has_device = has_device;
          no_node = node ∙ no_node;
          no_section = no_section;
          valid = valid;
          source = source;
          has_source = p0;
          interval = bounded;
        },
        name,
        size,
      )

  tailscale_connection-IsTailscale :
      (section : Section) (more : List Section) (conf conf' : Configuration)
      → tailscale_connection host section more g conf ≡ ok conf'
      → conf.device ≡ none
      → g.tailscale ≡ section ∷ more
      → IsTailscale g conf'
        × (conf'.name ≡ conf.name)
        × (length conf'.routines ≡ length conf.routines + total g.routines)
  unfolding tailscale_connection
  tailscale_connection-IsTailscale section more conf conf' h no_device sections =
      let (u, p0, h0) = >>=-eq-ok (ensure (is_empty g.iface && is_empty g.peers) _) _ h in
      let (v, p1, h1) = >>=-eq-ok (ensure (is_empty more) _) _ h0 in
      let (node, p2, h2) = >>=-eq-ok (parse_tailscale_config host section) _ h1 in
      let (name, device, has_node, size) =
        append_routines_fields (record conf { tailscale = some node }) conf' h2 in
      let alone = ensure-eq-ok (is_empty g.iface && is_empty g.peers) _ p0 in
      let single = ensure-eq-ok (is_empty more) _ p1 in
      (
        record {
          node = node;
          has_node = has_node;
          no_device = device ∙ no_device;
          no_interface = ground arith;
          no_peers = ground arith;
          one_section = rw sections (ground arith);
        },
        name,
        size,
      )

  connection_of-Backend :
      (sections : List Section) (conf conf' : Configuration)
      → connection_of host path root g sections conf ≡ ok conf'
      → conf.device ≡ none
      → conf.tailscale ≡ none
      → g.tailscale ≡ sections
      → (IsWireguard host path root g conf' ⊎ IsTailscale g conf')
        × (conf'.name ≡ conf.name)
        × (length conf'.routines ≡ length conf.routines + total g.routines)
  connection_of-Backend [] conf conf' h device node e =
      let (made, name, size) = wireguard_connection-IsWireguard conf conf' h node e in
      (inl made, name, size)
  connection_of-Backend (section ∷ more) conf conf' h device node e =
      let (made, name, size) =
        tailscale_connection-IsTailscale section more conf conf' h device e in
      (inr made, name, size)

-- A group with distinct routine types that parses is either a WireGuard connection, with keys of
-- 32 bytes, at least one peer, no node and, unless the device is imported from a file, an interval
-- of 1 to 86400 seconds, or a Tailscale connection, from a single section and with no device, no
-- `[Interface]` and no `[Peer]`. It keeps the group's name and has a routine for each routine section.
pub parse_group-Backend :
    (host : Host) (path : Text) (root : Section) (g : ConnGroup) (conf : Configuration)
    → DistinctKeys g.routines
    → parse_group host path root g ≡ ok conf
    → (IsWireguard host path root g conf ⊎ IsTailscale g conf)
      × (conf.name ≡ g.name)
      × (length conf.routines ≡ total g.routines)
unfolding parse_group
parse_group-Backend host path root g conf distinct h =
    let (resolve, p, later) = >>=-eq-ok (resolve_of host g.resolve) _ h in
    let (backend, name, size) =
      connection_of-Backend host path root g distinct g.tailscale _ conf later refl refl refl in
    (backend, name, omega (arith, size))
