-- ===== src/Tests/Serving.antt =====
-- Redaction, authentication, routing and the IPC request.
use wireproxy.Base.{
  ℕ, any, ok, if◌then◌else◌, ◌≡◌, ◌↔◌, refl, true, false, Option, none, some, List, [], ◌∷◌, ◌++◌,
  map, pos,
}
use wireproxy.Config.Types.{DeviceConfig}
use wireproxy.Health.Redact.{
  IsEntry, equal, secret, shown, write_redacted_ipc-unlines, write_redacted_ipc_noninterference,
}
use wireproxy.Health.Endpoints.Blind.{AlikeDumps, AllTunnelsAlike, serve_http-Alike}
use wireproxy.Health.Endpoints.{serve_http}
use wireproxy.Text.Paths.{clean_path}
use wireproxy.Health.Readiness.{readyz-any}
use wireproxy.Health.{write_redacted_ipc, is_secret, Tunnel, stale, snapshot_of, readyz}
use wireproxy.Host.{ascii_lower}
use wireproxy.Http.Authentic.{Carries, authenticate_iff}
use wireproxy.Http.{HttpServer, allowed, refused, authenticate}
use wireproxy.Router.Agree.{routed_dial-routed_socks5_dial}
use wireproxy.Router.{DomainRouter, should_tunnel, via, routed_dial, routed_socks5_dial}
use wireproxy.Text.HostPort.RoundTrip.{IsClean}
use wireproxy.Text.HostPort.{join_host_port}
use wireproxy.Text.Strings.Cut.{unlines}
use wireproxy.Text.Strings.{contains_byte, cut, split, has_prefix}
use wireproxy.Text.{Text, codes, text_eq}
use wireproxy.Wireguard.Request.{device_pairs, render, create_ipc_request-render}
use wireproxy.Wireguard.{create_ipc_request}

abbrev dump : Text → List Text
dump key = (codes "private_key=" ++ key) ∷ codes "listen_port=51820" ∷ []

key-IsEntry : IsEntry (codes "private_key=aa")
unfolding cut contains_byte
key-IsEntry = record {
  one_line = refl;
  key = codes "private_key";
  value = codes "aa";
  parts = refl;
}

other-IsEntry : IsEntry (codes "private_key=bb=")
unfolding cut contains_byte
other-IsEntry = record {
  one_line = refl;
  key = codes "private_key";
  value = codes "bb=";
  parts = refl;
}

port-IsEntry : IsEntry (codes "listen_port=51820")
unfolding cut contains_byte
port-IsEntry = record {
  one_line = refl;
  key = codes "listen_port";
  value = codes "51820";
  parts = refl;
}

dump_redacted :
    write_redacted_ipc [] (unlines (dump (codes "aa")))
    ≡ codes "private_key=REDACTED\nlisten_port=51820\n"
unfolding write_redacted_ipc split cut text_eq
dump_redacted = refl

write_redacted_ipc-unlines_example :
    write_redacted_ipc (codes "# ") (unlines (dump (codes "aa")))
    ≡ codes "# " ++ unlines (map shown (dump (codes "aa")))
write_redacted_ipc-unlines_example =
    write_redacted_ipc-unlines (codes "# ") (dump (codes "aa")) (key-IsEntry, (port-IsEntry, tt))

key_is_secret : is_secret (codes "private_key") ≡ true
unfolding text_eq
key_is_secret = refl

write_redacted_ipc_noninterference_example :
    write_redacted_ipc [] (unlines (dump (codes "aa")))
    ≡ write_redacted_ipc [] (unlines (dump (codes "bb=")))
write_redacted_ipc_noninterference_example =
    write_redacted_ipc_noninterference [] (dump (codes "aa")) (dump (codes "bb="))
      (key-IsEntry, (port-IsEntry, tt)) (other-IsEntry, (port-IsEntry, tt))
      (
        secret (codes "private_key") (codes "aa") (codes "bb=") key_is_secret refl refl,
        (equal refl, tt),
      )

-- The header of the user `me` with the password `pw`.
abbrev pub locked_server : HttpServer
locked_server = record {
  auth = record { username = codes "me"; password = codes "pw" };
  auth_required = true;
  tls_required = false;
}

header_allowed : authenticate locked_server (codes "Basic bWU6cHc=") ≡ allowed
unfolding authenticate text_eq has_prefix
header_allowed = refl

authenticate_iff_example :
    (authenticate locked_server (codes "Basic bWU6cHc=") ≡ allowed)
    ↔ Carries (codes "Basic bWU6cHc=") locked_server.auth
authenticate_iff_example = authenticate_iff locked_server (codes "Basic bWU6cHc=") refl

abbrev router : Option DomainRouter
router = some (record {
  patterns = record { matches = λ t. text_eq t (codes "example.com") } ∷ [];
  log_names = false;
})

parts-IsClean : IsClean (codes "example.com") (codes "443")
unfolding contains_byte
parts-IsClean = record { host_plain = refl; port_plain = refl; port_colon = refl }

routed_dial-routed_socks5_dial_example :
    (routed_dial ascii_lower router (join_host_port (codes "example.com") (codes "443"))
      ≡ via (should_tunnel ascii_lower router (codes "example.com")))
    × (routed_socks5_dial ascii_lower router (codes "example.com") (codes "10.0.0.1:443")
        ≡ via (should_tunnel ascii_lower router (codes "example.com")))
routed_dial-routed_socks5_dial_example =
    routed_dial-routed_socks5_dial ascii_lower router (codes "example.com") (codes "443")
      (codes "10.0.0.1:443") parts-IsClean (λ empty. cc empty)

abbrev device : DeviceConfig
device = record {
  secret_key = codes "aa";
  endpoint = [];
  peers =
      record {
        public_key = codes "bb";
        pre_shared_key = codes "cc";
        endpoint = none;
        keep_alive = pos 25;
        allowed_ips = [];
      }
      ∷ [];
  dns = [];
  mtu = pos 1420;
  listen_port = some (pos 51820);
  check_alive = [];
  check_alive_interval = pos 5;
}

create_ipc_request-render_example :
    ((create_ipc_request device).ipc_request ≡ render (device_pairs device))
    × ((create_ipc_request device).dns ≡ device.dns)
    × ((create_ipc_request device).device_addr ≡ device.endpoint)
    × ((create_ipc_request device).mtu ≡ device.mtu)
create_ipc_request-render_example = create_ipc_request-render device

device_request :
    (create_ipc_request device).ipc_request
    ≡ codes
        "private_key=aa\nlisten_port=51820\npublic_key=bb\npersistent_keepalive_interval=25\npreshared_key=cc\nallowed_ip=0.0.0.0/0\nallowed_ip=::0/0\n"
unfolding create_ipc_request
device_request = refl

abbrev pinged : ℕ → Tunnel
pinged last = record {
  name = codes "home";
  check_alive = record { is_4 = true; is_6 = false; string = codes "10.0.0.1" } ∷ [];
  check_alive_interval = pos 5;
  ping_record = (codes "10.0.0.1", last) ∷ [];
  dev = some (ok []);
}

-- Ten seconds without an answer are more than the interval of five and the two for the ping.
readyz-any_example : (readyz 20_000_000_000 (pinged 10 ∷ pinged 19 ∷ [])).0 ≡ (
    if any (λ vt. stale 20_000_000_000 (snapshot_of vt)) (pinged 10 ∷ pinged 19 ∷ [])
    then 503
    else 200)
readyz-any_example = readyz-any 20_000_000_000 (pinged 10 ∷ pinged 19 ∷ [])

stale_reported : (readyz 20_000_000_000 (pinged 10 ∷ pinged 19 ∷ [])).0 ≡ 503
unfolding readyz stale
stale_reported = refl

abbrev keyed : Text → List Tunnel
keyed key = record (pinged 10) { dev = some (ok (unlines (dump key))) } ∷ []

keyed-AlikeDumps : AlikeDumps (unlines (dump (codes "aa"))) (unlines (dump (codes "bb=")))
keyed-AlikeDumps = record {
  lines = dump (codes "aa");
  lines' = dump (codes "bb=");
  whole = refl;
  whole' = refl;
  entries = (key-IsEntry, (port-IsEntry, tt));
  entries' = (other-IsEntry, (port-IsEntry, tt));
  alike = (
    secret (codes "private_key") (codes "aa") (codes "bb=") key_is_secret refl refl,
    (equal refl, tt),
  );
}

keyed-AlikeTunnels : AllTunnelsAlike (keyed (codes "aa")) (keyed (codes "bb="))
keyed-AlikeTunnels = (
  record {
    name = refl;
    check_alive = refl;
    interval = refl;
    records = refl;
    devices = keyed-AlikeDumps;
  },
  tt,
)

serve_http-Alike_example :
    serve_http 20_000_000_000 (keyed (codes "aa")) (codes "/x/..//metrics/")
    ≡ serve_http 20_000_000_000 (keyed (codes "bb=")) (codes "/x/..//metrics/")
serve_http-Alike_example =
    serve_http-Alike 20_000_000_000 (codes "/x/..//metrics/") (keyed (codes "aa"))
      (keyed (codes "bb=")) keyed-AlikeTunnels

path_cleaned : clean_path (codes "/x/..//metrics/") ≡ codes "/metrics"
unfolding clean_path has_prefix text_eq
path_cleaned = refl

relative_path_cleaned : clean_path (codes "../a/./../../b") ≡ codes "../../b"
unfolding clean_path has_prefix text_eq
relative_path_cleaned = refl

-- A user name beyond ASCII
abbrev accented_server : HttpServer
accented_server = record locked_server {
  auth = record { username = codes "é"; password = codes "pw" };
}

-- Its credentials in UTF-8
accent_allowed : authenticate accented_server (codes "Basic w6k6cHc=") ≡ allowed
unfolding authenticate text_eq has_prefix
accent_allowed = refl

-- The same in Latin-1
latin_refused : authenticate accented_server (codes "Basic 6Tpwdw==") ≡ refused 401
unfolding authenticate text_eq has_prefix
latin_refused = refl
