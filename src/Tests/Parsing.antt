-- ===== src/Tests/Parsing.antt =====
-- From sections to connections.
use wireproxy.Base.{
  ◌↔◌, ◌+◌, ◌≡◌, refl, false, none, some, List, [], ◌∷◌, ok, err, ℤ, pos, ◌≢◌, ◌⊎◌, All, length,
  filter,
}
use wireproxy.Config.Connection.Backend.{IsWireguard, IsTailscale, parse_group-Backend}
use wireproxy.Config.Connection.Complete.{AllParsed, append_routines_complete, total}
use wireproxy.Config.Connection.{parse_group, append_routines}
use wireproxy.Config.Groups.Contents.{belongs, bucket, split_into_groups-bucket}
use wireproxy.Config.Groups.Invariant.{IsGroup, DistinctNames, split_into_groups-invariant}
use wireproxy.Config.Groups.{ConnGroup, split_into_groups}
use wireproxy.Config.Routines.{routine_parsers, parse_socks5_config}
use wireproxy.Config.Device.{
  no_pre_shared_key, parse_interface_section, parse_peer_sections, parse_check_interval,
  apply_interface_overrides,
}
use wireproxy.Config.Device.Interval.{IsInterval, parse_check_interval-IsInterval}
use wireproxy.Config.Device.Overrides.{Overridden, apply_interface_overrides_iff}
use wireproxy.Config.Keys.{
  parse_string, parse_base64_key_to_hex, parse_cidr_net_ip, parse_net_ip, parse_allowed_ips,
  encode_base64_to_hex, resolve_ip_and_port, int_key_or, int_key_pointer, parse_bool_key,
  parse_regex_list,
}
use wireproxy.Config.Types.{Configuration, DeviceConfig, Routine, socks5}
use wireproxy.Host.{ascii_lower, Section, Addr}
use wireproxy.Tests.Samples.{
  v4, key_text, section_of, host, file, default_section, interface, peer, socks, vpn_http, sections,
}
use wireproxy.Text.Encoding.{base64_decode, hex_encode}
use wireproxy.Text.HostPort.{split_host_port, join_host_port}
use wireproxy.Text.Numbers.{atoi}
use wireproxy.Text.Strings.{cut, has_prefix, contains, replace_first, split, trim_space}
use wireproxy.Text.{Text, codes, text_eq}

abbrev first_group : ConnGroup
first_group = record {
  name = [];
  iface = interface ∷ [];
  peers = peer ∷ [];
  tailscale = [];
  resolve = [];
  routines = (codes "socks5", socks ∷ []) ∷ [];
}

abbrev second_group : ConnGroup
second_group = record {
  name = codes "vpn-two";
  iface = [];
  peers = [];
  tailscale = [];
  resolve = [];
  routines = (codes "http", vpn_http ∷ []) ∷ [];
}

abbrev groups : List ConnGroup
groups = first_group ∷ second_group ∷ []

file_splits : split_into_groups ascii_lower file ≡ ok (default_section, groups)
unfolding split_into_groups text_eq cut
file_splits = refl

split_into_groups-bucket_example :
    (default_section ≡ default_section)
    × (bucket (codes "vpn-two") (codes "http") groups
        ≡ filter (belongs ascii_lower (codes "vpn-two") (codes "http")) sections)
split_into_groups-bucket_example =
    split_into_groups-bucket ascii_lower file default_section groups (codes "vpn-two")
      (codes "http") file_splits

split_into_groups-invariant_example : All IsGroup groups × DistinctNames groups
split_into_groups-invariant_example =
    split_into_groups-invariant ascii_lower file default_section groups file_splits

abbrev device : DeviceConfig
device = record {
  secret_key = no_pre_shared_key;
  endpoint = v4 (codes "10.0.0.2") ∷ [];
  peers =
      record {
        public_key = no_pre_shared_key;
        pre_shared_key = no_pre_shared_key;
        endpoint = some (codes "192.0.2.1:51820");
        keep_alive = pos 0;
        allowed_ips = [];
      }
      ∷ [];
  dns = [];
  mtu = pos 1420;
  listen_port = none;
  check_alive = v4 (codes "10.0.0.1") ∷ [];
  check_alive_interval = pos 30;
}

abbrev bare_conf : Configuration
bare_conf = record {
  name = [];
  device = some device;
  tailscale = none;
  routines = [];
  resolve = record { resolve_strategy = codes "auto" };
}

abbrev proxy : Routine
proxy = socks5 (record {
  bind_address = codes "127.0.0.1:1080";
  username = [];
  password = [];
  tunnel_domains = [];
  log_domains = false;
})

abbrev pub full_conf : Configuration
full_conf = record bare_conf { routines = proxy ∷ [] }

group_parses : parse_group host (codes "/etc/wg.conf") default_section first_group ≡ ok full_conf
unfolding parse_group parse_interface_section parse_peer_sections parse_string
    parse_base64_key_to_hex parse_cidr_net_ip parse_net_ip parse_allowed_ips encode_base64_to_hex
    resolve_ip_and_port int_key_or int_key_pointer parse_bool_key parse_regex_list
    parse_socks5_config base64_decode hex_encode split_host_port join_host_port atoi text_eq
    has_prefix contains replace_first split trim_space
group_parses = refl

parse_group-Backend_example :
    (IsWireguard host (codes "/etc/wg.conf") default_section first_group full_conf
      ⊎ IsTailscale first_group full_conf)
    × (◌≡◌ {A = Text} [] [])
    × (length full_conf.routines ≡ total first_group.routines)
parse_group-Backend_example =
    parse_group-Backend host (codes "/etc/wg.conf") default_section first_group full_conf (tt, tt)
      group_parses

routines_parse : append_routines host first_group bare_conf ≡ ok full_conf
unfolding append_routines parse_string parse_bool_key parse_regex_list parse_socks5_config text_eq
    has_prefix
routines_parse = refl

append_routines_complete_example :
    AllParsed (routine_parsers host) first_group.routines
    × (length full_conf.routines ≡ length bare_conf.routines + total first_group.routines)
    × (record bare_conf { routines = full_conf.routines } ≡ full_conf)
append_routines_complete_example =
    append_routines_complete host first_group bare_conf full_conf (tt, tt) routines_parse

-- A misspelt section type is refused.
abbrev misspelt_group : ConnGroup
misspelt_group = record first_group { routines = (codes "sokcs5", socks ∷ []) ∷ [] }

misspelt_refused :
    append_routines host misspelt_group bare_conf
    ≡ err (codes "unknown section type [sokcs5] in connection <default>")
unfolding append_routines text_eq
misspelt_refused = refl

key_encodes : encode_base64_to_hex key_text ≡ ok no_pre_shared_key
unfolding encode_base64_to_hex base64_decode hex_encode
key_encodes = refl

interval_parses : parse_check_interval interface (v4 (codes "10.0.0.1") ∷ []) ≡ ok (pos 30)
unfolding parse_check_interval text_eq atoi
interval_parses = refl

parse_check_interval-IsInterval_example :
    IsInterval (pos 30)
    × ((◌≢◌ {A = List Addr} (v4 (codes "10.0.0.1") ∷ []) []) ⊎ (◌≡◌ {A = ℤ} (pos 30) (pos 5)))
parse_check_interval-IsInterval_example =
    parse_check_interval-IsInterval interface (v4 (codes "10.0.0.1") ∷ []) interval_parses

abbrev wrapper : Section
wrapper = section_of (codes "interface") ((codes "checkaliveinterval", codes "0") ∷ [])

abbrev stopped_device : DeviceConfig
stopped_device = record device { check_alive_interval = pos 0 }

override_applies : apply_interface_overrides host wrapper device ≡ ok stopped_device
unfolding apply_interface_overrides int_key_or int_key_pointer text_eq atoi
override_applies = refl

apply_interface_overrides_iff_example :
    (apply_interface_overrides host wrapper device ≡ ok stopped_device)
    ↔ Overridden host wrapper device stopped_device
apply_interface_overrides_iff_example =
    apply_interface_overrides_iff host wrapper device stopped_device

-- The override of a CheckAliveInterval by 0 is taken.
stopped_Overridden : Overridden host wrapper device stopped_device
stopped_Overridden =
    (apply_interface_overrides_iff host wrapper device stopped_device).0 override_applies
