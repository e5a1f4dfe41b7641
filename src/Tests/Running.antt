-- ===== src/Tests/Running.antt =====
-- Runs of the program in the background, and the start of a connection.
use wireproxy.Backend
use wireproxy.Backend.Released.{Keeps, start_connection-Keeps}
use wireproxy.Backend.{in_state, gate, enough_polls, start_connection}
use wireproxy.Config.Types.{ConnectionSpec}
use wireproxy.Base.{◌==◌, if◌then◌else◌, none, ◌≡◌, refl, true, false, some, List, [], ◌∷◌}
use wireproxy.Main.Daemon.{children, main-child}
use wireproxy.Main.Watch.Safe.{main-is_safe}
use wireproxy.Main.Watch.{is_safe, watching, open_egress_of}
use wireproxy.Main.{World, Flags, main, executable_path, is_daemon_process, args_of, run_loaded}
use wireproxy.Tests.Loading.{home_host, disk, paths, sources_load}
use wireproxy.Text.HostPort.{split_host_port}
use wireproxy.Text.Numbers.{atoi}
use wireproxy.Text.{Text, codes, text_eq}

abbrev flags : Flags
flags = record {
  config = paths;
  silent = false;
  daemon = true;
  info = codes "localhost:9080";
  version = false;
  config_test = false;
}

abbrev world : World
world = record {
  host = home_host;
  disk = disk;
  executable = some (codes "/usr/bin/wireproxy");
  home = codes "/root";
  exists = λ path. true;
  parse = λ args. some flags;
  mkdir_all = λ dir. true;
  listens = λ addr. true;
  starts = λ spec. true;
  order = λ specs. specs;
}

abbrev argv : List Text
argv = codes "wireproxy" ∷ codes "-d" ∷ []

abbrev child : List Text
child = codes "/usr/bin/wireproxy" ∷ codes "daemon-process" ∷ codes "-d" ∷ []

abbrev no_more : List (List Text)
no_more = []

main-is_safe_example : is_safe (watching (open_egress_of world argv)) (main world argv) ≡ true
main-is_safe_example = main-is_safe world argv

child_starts : children (main world argv) ≡ child ∷ []
unfolding main run_loaded split_host_port atoi text_eq
child_starts = rw sources_load refl

main-child_example :
    (is_daemon_process argv ≡ false)
    × (no_more ≡ [])
    × (is_daemon_process child ≡ true)
    × (args_of child ≡ executable_path world argv ∷ codes "-d" ∷ [])
    × ((w' : World) → children (main w' child) ≡ [])
main-child_example =
    main-child world (codes "wireproxy") (codes "-d" ∷ []) child no_more child_starts

-- A node that logs in at the second poll.
abbrev backends : Backend.World
backends = record {
  creates_tun = λ addrs dns mtu. true;
  sets = λ request. false;
  ups = true;
  has_tsnet = true;
  makes_dir = λ dir. true;
  starts_node = λ conf dir. true;
  has_client = true;
  polls =
      λ k. if k == 0 then (in_state (codes "Starting"), 10) else (in_state (codes "Running"), 10);
}

abbrev node_spec : ConnectionSpec
node_spec = record {
  name = codes "tail";
  conf = record {
    name = codes "tail";
    device = none;
    tailscale = some (record {
      hostname = codes "box";
      auth_key = [];
      control_url = [];
      ephemeral = false;
      state_dir = codes "/state";
      advertise_tags = [];
    });
    routines = [];
    resolve = record { resolve_strategy = codes "auto" };
  };
}

start_connection-Keeps_example : Keeps true (start_connection home_host backends node_spec)
start_connection-Keeps_example = start_connection-Keeps home_host backends node_spec

node_polled : gate backends.polls enough_polls 0 0 ≡ some 270
unfolding gate text_eq
node_polled = refl
