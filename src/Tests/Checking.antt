-- ===== src/Tests/Checking.antt =====
-- Names, validation and the sandbox.
use wireproxy.Base.{
  ◌↔◌, ◌≡◌, refl, true, false, none, some, List, [], ◌∷◌, ◌++◌, is_ok, ok, ◌⊎◌, All, Pairwise, pos,
}
use wireproxy.Config.Types.{ConnectionSpec, Routine, socks5, tcp_server}
use wireproxy.Connections.Name.{
  sanitize_connection_name, matches_name_pattern, is_dash, sanitize_connection_name-matches,
  sanitize_connection_name_idempotent,
}
use wireproxy.Connections.StateDir.{needs_open_egress}
use wireproxy.Connections.Validate.Identity.{ToldApart, validate_connections-ToldApart}
use wireproxy.Connections.Validate.Complete.{Acceptable}
use wireproxy.Connections.Validate.Exact.{validate_connections_iff}
use wireproxy.Connections.Validate.Listeners.{
  HasAddress, Coexist, info_listener, specs_binds, validate_connections-Coexist,
}
use wireproxy.Connections.Validate.Supported.{IsSupported, validate_connections-IsSupported}
use wireproxy.Connections.Validate.{validate_connections, conflicts}
use wireproxy.Host.{ascii_lower, LowersAscii}
use wireproxy.Sandbox.Granted.{InfoRules, RulesOf, all_routines, lock_network-RulesOf}
use wireproxy.Sandbox.{Rule, bind_tcp, connect_tcp, lock_network}
use wireproxy.Tests.Samples.{host}
use wireproxy.Text.HostPort.{split_host_port, join_host_port}
use wireproxy.Text.Numbers.{atoi, itoa}
use wireproxy.Text.Strings.{Ends}
use wireproxy.Text.{Text, codes, text_eq}

work_vpn : sanitize_connection_name ascii_lower (codes " -Work VPN_ ") ≡ codes "work-vpn"
unfolding sanitize_connection_name
work_vpn = refl

sanitize_connection_name-matches_example :
    ((sanitize_connection_name ascii_lower (codes "Work VPN") ≡ [])
      ⊎ (matches_name_pattern (sanitize_connection_name ascii_lower (codes "Work VPN")) ≡ true))
    × Ends is_dash (sanitize_connection_name ascii_lower (codes "Work VPN"))
sanitize_connection_name-matches_example =
    sanitize_connection_name-matches ascii_lower (codes "Work VPN")

ascii_lower_lowers : LowersAscii ascii_lower
ascii_lower_lowers c h = refl

sanitize_connection_name_idempotent_example :
    sanitize_connection_name ascii_lower (sanitize_connection_name ascii_lower (codes "Work VPN"))
    ≡ sanitize_connection_name ascii_lower (codes "Work VPN")
sanitize_connection_name_idempotent_example =
    sanitize_connection_name_idempotent ascii_lower (codes "Work VPN") ascii_lower_lowers

abbrev proxy_at : Text → Routine
proxy_at addr = socks5 (record {
  bind_address = addr;
  username = [];
  password = [];
  tunnel_domains = [];
  log_domains = false;
})

abbrev server : Routine
server = tcp_server (record { listen_port = pos 22; target = codes "localhost:2022" })

abbrev spec_of : Text → List Routine → ConnectionSpec
spec_of name routines = record {
  name = name;
  conf = record {
    name = name;
    device = none;
    tailscale = none;
    routines = routines;
    resolve = record { resolve_strategy = codes "auto" };
  };
}

abbrev pub specs : List ConnectionSpec
specs =
    spec_of (codes "home") (proxy_at (codes "127.0.0.1:1080") ∷ server ∷ [])
    ∷ spec_of (codes "work") (proxy_at (codes "127.0.0.2:1080") ∷ [])
    ∷ []

specs_validate : validate_connections host specs (codes "localhost:9080") ≡ ok tt
unfolding validate_connections text_eq conflicts matches_name_pattern split_host_port atoi itoa
specs_validate = refl

validate_connections-ToldApart_example : ToldApart host specs
validate_connections-ToldApart_example =
    validate_connections-ToldApart host specs (codes "localhost:9080") specs_validate

validate_connections-Coexist_example :
    All (λ spec. All HasAddress spec.conf.routines) specs
    × Pairwise Coexist (info_listener (codes "localhost:9080") ++ specs_binds specs)
validate_connections-Coexist_example =
    validate_connections-Coexist host specs (codes "localhost:9080") specs_validate

-- A wildcard host takes the port from all others, however the port is written.
wildcard_refused :
    is_ok (
      validate_connections host
        (spec_of (codes "home") (proxy_at (codes "127.0.0.1:1080") ∷ proxy_at (codes ":01080") ∷ [])
          ∷ [])
        [])
    ≡ false
unfolding validate_connections text_eq conflicts matches_name_pattern split_host_port atoi itoa
wildcard_refused = refl

abbrev pub granted : List Rule
granted = bind_tcp 9080 ∷ bind_tcp 1080 ∷ connect_tcp 2022 ∷ bind_tcp 1080 ∷ []

pub specs_locked : lock_network specs (codes "localhost:9080") ≡ ok (some granted)
unfolding lock_network split_host_port join_host_port atoi
specs_locked = refl

lock_network-RulesOf_example :
    (needs_open_egress specs ≡ false)
    × ((info needed : List Rule) × InfoRules (codes "localhost:9080") info
        × RulesOf (all_routines specs) needed
        × (granted ≡ info ++ needed))
lock_network-RulesOf_example =
    lock_network-RulesOf specs (codes "localhost:9080") granted specs_locked

validate_connections-IsSupported_example : All IsSupported specs
validate_connections-IsSupported_example =
    validate_connections-IsSupported host specs (codes "localhost:9080") specs_validate

validate_connections_iff_example :
    (validate_connections host specs (codes "localhost:9080") ≡ ok tt)
    ↔ Acceptable host specs (codes "localhost:9080")
validate_connections_iff_example = validate_connections_iff host specs (codes "localhost:9080")
