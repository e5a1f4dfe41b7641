-- ===== src/Config/Device.antt =====
-- `[Interface]`, `[Peer]`, `[Tailscale]` and `[Resolve]` sections.
pub mod Keys
pub mod Files
pub mod Interval
pub mod Overrides
use wireproxy.Base.{
  ℕ, ◌≡◌, Bool, true, false, not, ◌||◌, Option, none, some, List, [], ◌∷◌, ◌++◌, map, Outcome, ok,
  err, ◌>>=◌, ◌>>◌, ensure, ℤ, pos, ltb_ℤ, length, is_empty, ◌==◌, leb, if◌then◌else◌,
}
use wireproxy.Config.Keys.{
  to_lower, parse_string, encode_base64_to_hex, parse_base64_key_to_hex, parse_net_ip,
  parse_cidr_net_ip, parse_allowed_ips, resolve_ip_and_port, parse_bool_key, int_key_or,
  int_key_pointer,
}
use wireproxy.Config.Types.{DeviceConfig, PeerConfig, TailscaleConfig, ResolveConfig}
use wireproxy.Host.{Host, File, Section, Addr}
use wireproxy.Text.Strings.{split, trim_space}
use wireproxy.Text.{Text, codes, text_eq}

abbrev pub no_pre_shared_key : Text
no_pre_shared_key = codes "0000000000000000000000000000000000000000000000000000000000000000"

-- The interval of an inline `[Interface]` section.
unfoldable pub parse_check_interval : Section → List Addr → Outcome Text ℤ
parse_check_interval section check_alive = elim (section.get_key (codes "CheckAliveInterval")) [
  | none ↦ ok (pos 5)
  | some key ↦ do
    value ← key.int
    ensure (not (is_empty check_alive))
        (codes "CheckAliveInterval is only valid when CheckAlive is set")
    ensure (not (ltb_ℤ value (pos 1) || ltb_ℤ (pos 86400) value))
        (codes "CheckAliveInterval must be between 1 and 86400 seconds")
    ok value
]

module _ (host : Host) where
  unfoldable pub parse_interface_section : Section → DeviceConfig → Outcome Text DeviceConfig
  unfolding parse_check_interval
  parse_interface_section section device = do
    address ← parse_cidr_net_ip host section (codes "Address")
    priv_key ← parse_base64_key_to_hex host section (codes "PrivateKey")
    dns ← parse_net_ip host section (codes "DNS")
    mtu ← int_key_or section (codes "MTU") device.mtu
    listen_port ← int_key_pointer section (codes "ListenPort") device.listen_port
    check_alive ← parse_net_ip host section (codes "CheckAlive")
    interval ← parse_check_interval section check_alive
    ok (record device {
      endpoint = address;
      secret_key = priv_key;
      dns = dns;
      mtu = mtu;
      listen_port = listen_port;
      check_alive = check_alive;
      check_alive_interval = interval;
    })

  abbrev optional_pre_shared_key : Section → Outcome Text Text
  optional_pre_shared_key section = elim (section.get_key (codes "PreSharedKey")) [
    | none ↦ ok no_pre_shared_key
    | some key ↦ encode_base64_to_hex key.string
  ]

  abbrev optional_endpoint : Section → Outcome Text (Option Text)
  optional_endpoint section = elim (section.get_key (codes "Endpoint")) [
    | none ↦ ok none
    | some key ↦ do decoded ← resolve_ip_and_port host (to_lower host key.string); ok (some decoded)
  ]

  -- One round of `parsePeerSections`.
  unfoldable pub parse_peer_section : Section → Outcome Text PeerConfig
  parse_peer_section section = do
    public_key ← parse_base64_key_to_hex host section (codes "PublicKey")
    pre_shared_key ← optional_pre_shared_key section
    endpoint ← optional_endpoint section
    keep_alive ← int_key_or section (codes "PersistentKeepalive") (pos 0)
    allowed_ips ← parse_allowed_ips host section
    ok (record {
      public_key = public_key;
      pre_shared_key = pre_shared_key;
      endpoint = endpoint;
      keep_alive = keep_alive;
      allowed_ips = allowed_ips;
    })

  unfoldable pub parse_peer_sections :
      List Section → List PeerConfig → Outcome Text (List PeerConfig)
  unfolding parse_peer_section
  parse_peer_sections [] peers = ok peers
  parse_peer_sections (section ∷ sections) peers = do
    peer ← parse_peer_section section
    parse_peer_sections sections (peers ++ peer ∷ [])

  abbrev only_interface : Outcome Text (List Section) → DeviceConfig → Outcome Text DeviceConfig
  only_interface (ok (section ∷ [])) device = parse_interface_section section device
  only_interface _ device = err (codes "one and only one [Interface] is expected")

  unfoldable pub parse_interface : File → DeviceConfig → Outcome Text DeviceConfig
  parse_interface cfg device = only_interface (cfg.by_name (codes "Interface")) device

  abbrev some_peers : Outcome Text (List Section) → List PeerConfig → Outcome Text (List PeerConfig)
  some_peers (ok (section ∷ sections)) peers = parse_peer_sections (section ∷ sections) peers
  some_peers _ peers = err (codes "at least one [Peer] is expected")

  unfoldable pub parse_peers : File → List PeerConfig → Outcome Text (List PeerConfig)
  parse_peers cfg peers = some_peers (cfg.by_name (codes "Peer")) peers

  abbrev override_addrs : Section → Text → List Addr → Outcome Text (List Addr)
  override_addrs section key_name old = elim (section.get_key key_name) [
    | none ↦ ok old
    | some _ ↦ parse_net_ip host section key_name
  ]

  unfoldable pub apply_interface_overrides : Section → DeviceConfig → Outcome Text DeviceConfig
  apply_interface_overrides section device = do
    mtu ← int_key_or section (codes "MTU") device.mtu
    dns ← override_addrs section (codes "DNS") device.dns
    listen_port ← int_key_pointer section (codes "ListenPort") device.listen_port
    check_alive ← override_addrs section (codes "CheckAlive") device.check_alive
    interval ← int_key_or section (codes "CheckAliveInterval") device.check_alive_interval
    ok (record device {
      mtu = mtu;
      dns = dns;
      listen_port = listen_port;
      check_alive = check_alive;
      check_alive_interval = interval;
    })

  -- The error of `parseString` is dropped, with the empty string as its value.
  abbrev string_or_empty : Outcome Text Text → Text
  string_or_empty (ok s) = s
  string_or_empty (err e) = []

  unfoldable pub parse_resolve_config : Section → Outcome Text ResolveConfig
  parse_resolve_config section =
      let strategy = string_or_empty (parse_string host section (codes "ResolveStrategy")) in
      let chosen = to_lower host (trim_space strategy) in
      if text_eq chosen (codes "ipv4") || text_eq chosen (codes "ipv6")
      then ok (record { resolve_strategy = to_lower host strategy })
      else if text_eq chosen []
      then ok (record { resolve_strategy = codes "auto" })
      else err (codes "ResolveStrategy must be one of: auto, ipv4, ipv6")

  -- The loop over `strings.Split(…, ",")` in `parseTailscaleConfig`.
  append_tags : List Text → List Text → List Text
  append_tags tags [] = tags
  append_tags tags (tag ∷ rest) =
      append_tags (if is_empty (trim_space tag) then tags else tags ++ trim_space tag ∷ []) rest

  abbrev advertise_tags : Section → List Text
  advertise_tags section = elim (section.get_key (codes "AdvertiseTags")) [
    | none ↦ []
    | some key ↦ append_tags [] (split key.string b',')
  ]

  unfoldable pub parse_tailscale_config : Section → Outcome Text TailscaleConfig
  unfolding append_tags
  parse_tailscale_config section = do
    hostname ← parse_string host section (codes "Hostname")
    ensure (not (is_empty (trim_space hostname))) (codes "hostname must not be empty")
    auth_key ← parse_string host section (codes "AuthKey")
    control_url ← parse_string host section (codes "ControlURL")
    state_dir ← parse_string host section (codes "StateDir")
    ephemeral ← parse_bool_key section (codes "Ephemeral")
    ok (record {
      hostname = hostname;
      auth_key = auth_key;
      control_url = control_url;
      ephemeral = ephemeral;
      state_dir = state_dir;
      advertise_tags = advertise_tags section;
    })
