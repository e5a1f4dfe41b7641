-- ===== src/Tests/Loading.antt =====
-- A directory with one file of connections, a text and a pipe.
use wireproxy.Base.{◌≡◌, refl, Bool, true, false, List, [], ◌∷◌, is_empty, ok, arith}
use wireproxy.Config.Types.{ConnectionSpec}
use wireproxy.Connections.Load.Sources.{AreSources, AreParsed, load_config_sources-AreParsed}
use wireproxy.Connections.Load.{DirEntry, Disk, load_config_sources, expand_paths, parse_files}
use wireproxy.Connections.Validate.{validate_connections}
use wireproxy.Host.{Host, File}
use wireproxy.Tests.Parsing.{full_conf}
use wireproxy.Tests.Samples.{host, default_section, interface, peer, socks}
use wireproxy.Config.Connection.{parse_group}
use wireproxy.Config.Routines.{parse_socks5_config}
use wireproxy.Config.Device.{parse_interface_section, parse_peer_sections}
use wireproxy.Config.Keys.{
  parse_string, parse_base64_key_to_hex, parse_cidr_net_ip, parse_net_ip, parse_allowed_ips,
  encode_base64_to_hex, resolve_ip_and_port, int_key_or, int_key_pointer, parse_bool_key,
  parse_regex_list,
}
use wireproxy.Text.Encoding.{base64_decode, hex_encode}
use wireproxy.Text.HostPort.{split_host_port, join_host_port}
use wireproxy.Text.Numbers.{atoi}
use wireproxy.Text.Strings.{cut, has_prefix, contains, replace_first, split, trim_space}
use wireproxy.Text.{text_eq}
use wireproxy.Text.Strings.{trim_suffix, has_suffix}
use wireproxy.Text.Numbers.{itoa}
use wireproxy.Config.File.{parse_config_file}
use wireproxy.Connections.Name.{
  sanitize_connection_name, default_name_from_file, matches_name_pattern,
}
use wireproxy.Text.{Text, codes}

abbrev small_file : File
small_file = record {
  default = default_section;
  sections = default_section ∷ interface ∷ peer ∷ socks ∷ [];
  by_name = λ name. ok [];
}

abbrev home_path : Text
home_path = codes "/etc/wireproxy/home.CONF"

abbrev pub home_host : Host
home_host = record host {
  load_source = λ source. ok small_file;
  base = λ path. codes "home.CONF";
  ext = λ path. codes ".CONF";
  join = λ parts. home_path;
}

abbrev entry : Text → Bool → DirEntry
entry name is_regular = record { name = name; is_regular = is_regular }

abbrev pub disk : Disk
disk = record {
  is_dir = λ path. ok true;
  read_dir = λ path. ok (
      entry (codes "home.CONF") true
      ∷ entry (codes "notes.txt") true
      ∷ entry (codes "pipe.conf") false
      ∷ []);
}

abbrev pub paths : List Text
paths = codes "/etc/wireproxy" ∷ []

abbrev pub home_specs : List ConnectionSpec
home_specs = record { name = codes "home"; conf = record full_conf { name = codes "home" } } ∷ []

home_parses : parse_config_file home_host home_path ≡ ok home_specs
unfolding parse_config_file parse_group parse_interface_section parse_peer_sections parse_string
    parse_base64_key_to_hex parse_cidr_net_ip parse_net_ip parse_allowed_ips encode_base64_to_hex
    resolve_ip_and_port int_key_or int_key_pointer parse_bool_key parse_regex_list
    parse_socks5_config base64_decode hex_encode split_host_port join_host_port atoi text_eq
    has_prefix contains replace_first split trim_space cut sanitize_connection_name
    default_name_from_file trim_suffix
home_parses = refl

home_passes : validate_connections home_host home_specs (codes "localhost:9080") ≡ ok tt
unfolding validate_connections text_eq split_host_port matches_name_pattern atoi itoa
home_passes = refl

home_expands : expand_paths home_host disk paths [] ≡ ok (home_path ∷ [])
unfolding expand_paths has_suffix
home_expands = refl

pub sources_load : load_config_sources home_host disk paths (codes "localhost:9080") ≡ ok home_specs
unfolding load_config_sources expand_paths parse_files
sources_load = ground (arith, home_expands, home_parses, home_passes)

load_config_sources-AreParsed_example :
    (files : List Text) × AreSources home_host disk paths files
    × (is_empty files ≡ false)
    × AreParsed home_host disk files home_specs
    × (validate_connections home_host home_specs (codes "localhost:9080") ≡ ok tt)
load_config_sources-AreParsed_example =
    load_config_sources-AreParsed home_host disk paths (codes "localhost:9080") sources_load
