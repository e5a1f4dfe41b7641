-- ===== src/Config/Connection.antt =====
-- `(*connGroup).parse` and `appendRoutines`: one group of sections becomes a connection.
pub mod Complete
pub mod Devices
pub mod Backend
use wireproxy.Base.{
  Bool, true, false, not, ◌&&◌, Option, none, some, List, [], ◌∷◌, ◌++◌, Outcome, ok, err, ◌>>=◌,
  ◌>>◌, ensure, pos, is_empty, any, if◌then◌else◌,
}
use wireproxy.Config.Device.{
  parse_interface_section, parse_peer_sections, parse_interface, parse_peers,
  apply_interface_overrides, parse_resolve_config, parse_tailscale_config,
}
use wireproxy.Config.Groups.{ConnGroup, Buckets, sections_of}
use wireproxy.Config.Routines.{Parser, routine_parsers}
use wireproxy.Config.Types.{DeviceConfig, Configuration, ResolveConfig, Routine}
use wireproxy.Host.{Host, Section}
use wireproxy.Text.{Text, codes, text_eq}

-- The inner loop: the sections of one type, in file order.
unfoldable pub parse_sections :
    (Section → Outcome Text Routine) → List Section → List Routine → Outcome Text (List Routine)
parse_sections parse [] routines = ok routines
parse_sections parse (section ∷ sections) routines = do
  routine ← parse section
  parse_sections parse sections (routines ++ routine ∷ [])

-- The outer loop, over the table.
unfoldable pub parse_table :
    List (Text × (Section → Outcome Text Routine))
    → Buckets
    → List Routine
    → Outcome Text (List Routine)
unfolding parse_sections sections_of
parse_table [] m routines = ok routines
parse_table ((kind, parse) ∷ rows) m routines = do
  more ← parse_sections parse (sections_of kind m) routines
  parse_table rows m more

-- `parsed[kind]`
abbrev pub is_parsed : List (Text × (Section → Outcome Text Routine)) → Text → Bool
is_parsed rows kind = any (λ row. text_eq row.0 kind) rows

abbrev shown_name : Text → Text
shown_name name = if is_empty name then codes "<default>" else name

-- The last loop. Go visits the map in any order, so with several unknown types the message may
-- name any of them; here it is the first of the file.
unfoldable pub refuse_unknown :
    List (Text × (Section → Outcome Text Routine)) → Text → Buckets → Outcome Text (Unit {0})
refuse_unknown rows name [] = ok tt
refuse_unknown rows name ((kind, sections) ∷ m) = do
  ensure (is_parsed rows kind)
      (codes "unknown section type [" ++ kind ++ codes "] in connection " ++ shown_name name)
  refuse_unknown rows name m

unfoldable pub append_routines : Host → ConnGroup → Configuration → Outcome Text Configuration
unfolding parse_table refuse_unknown
append_routines host g conf = do
  routines ← parse_table (routine_parsers host) g.routines conf.routines
  refuse_unknown (routine_parsers host) conf.name g.routines
  ok (record conf { routines = routines })

unfoldable pub resolve_wg_config_path : Host → Text → Text → Text
resolve_wg_config_path host wg_path parent_dir =
    if not (host.is_abs wg_path) then host.join (parent_dir ∷ wg_path ∷ []) else wg_path

unfoldable pub forbid : Section → List Text → Outcome Text (Unit {0})
forbid section [] = ok tt
forbid section (key_name ∷ key_names) = elim (section.get_key key_name) [
  | some _ ↦ err (codes "[Interface] must not combine WGConfig with inline " ++ key_name)
  | none ↦ forbid section key_names
]

abbrev one_interface : Text
one_interface = codes "one and only one [Interface] is expected"

-- The switch that sets `externalPath`; the empty text stands for inline sections.
unfoldable pub external_path : Host → Text → Section → Text → List Section → Outcome Text Text
unfolding resolve_wg_config_path forbid
external_path host name root parent_dir [] =
    if not (is_empty name) then err one_interface else elim (root.get_key (codes "WGConfig")) [
      | some key ↦ ok (resolve_wg_config_path host key.string parent_dir)
      | none ↦ err one_interface
    ]
external_path host name root parent_dir (section ∷ []) = elim (section.get_key (codes "WGConfig")) [
  | none ↦ ok []
  | some key ↦ do
    forbid section (codes "PrivateKey" ∷ codes "Address" ∷ [])
    ok (resolve_wg_config_path host key.string parent_dir)
]
external_path host name root parent_dir (s ∷ t ∷ sections) = err one_interface

abbrev pub empty_device : DeviceConfig
empty_device = record {
  secret_key = [];
  endpoint = [];
  peers = [];
  dns = [];
  mtu = pos 1420;
  listen_port = none;
  check_alive = [];
  check_alive_interval = pos 0;
}

module _ (host : Host) where
  abbrev overridden : List Section → DeviceConfig → Outcome Text DeviceConfig
  overridden (section ∷ []) device = apply_interface_overrides host section device
  overridden _ device = ok device

  -- The device of an imported file, with the overrides of the group's own section.
  unfoldable pub external_device : Text → List Section → Outcome Text DeviceConfig
  external_device path iface = do
    cfg ← host.load_path path
    device ← parse_interface host cfg empty_device
    peers ← parse_peers host cfg device.peers
    overridden iface (record device { peers = peers })

  -- The device of inline sections. With no `[Interface]` the source would panic at `g.iface[0]`,
  -- which an empty path alone could bring about; the model refuses.
  unfoldable pub inline_device : List Section → List Section → Outcome Text DeviceConfig
  inline_device [] peers = err (codes "index out of range")
  inline_device (section ∷ iface) peers = do
    device ← parse_interface_section host section empty_device
    ensure (not (is_empty peers)) (codes "at least one [Peer] is expected")
    parsed ← parse_peer_sections host peers device.peers
    ok (record device { peers = parsed })

  unfoldable pub wireguard_connection :
      Text → Section → ConnGroup → Configuration → Outcome Text Configuration
  unfolding external_path external_device inline_device append_routines
  wireguard_connection source_path root g conf = do
    path ← external_path host g.name root (host.dir source_path) g.iface
    device ← if is_empty path then inline_device g.iface g.peers else external_device path g.iface
    append_routines host g (record conf { device = some device })

  unfoldable pub tailscale_connection :
      Section → List Section → ConnGroup → Configuration → Outcome Text Configuration
  unfolding append_routines
  tailscale_connection section more g conf = do
    ensure (is_empty g.iface && is_empty g.peers) (
        codes
          "[Tailscale] cannot be combined with [Interface] or [Peer] sections in the same connection")
    ensure (is_empty more) (codes "at most one [Tailscale] section is expected per connection")
    ts_conf ← parse_tailscale_config host section
    append_routines host g (record conf { tailscale = some ts_conf })

  abbrev resolve_of : List Section → Outcome Text ResolveConfig
  resolve_of [] = ok (record { resolve_strategy = codes "auto" })
  resolve_of (section ∷ sections) = parse_resolve_config host section

  abbrev connection_of :
      Text → Section → ConnGroup → List Section → Configuration → Outcome Text Configuration
  connection_of source_path root g [] conf = wireguard_connection source_path root g conf
  connection_of source_path root g (section ∷ more) conf = tailscale_connection section more g conf

  unfoldable pub parse_group : Text → Section → ConnGroup → Outcome Text Configuration
  unfolding wireguard_connection tailscale_connection
  parse_group source_path root g = do
    resolve ← resolve_of g.resolve
    connection_of source_path root g g.tailscale (record {
      name = g.name;
      device = none;
      tailscale = none;
      routines = [];
      resolve = resolve;
    })
