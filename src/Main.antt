-- ===== src/Main.antt =====
-- cmd/wireproxy/main.go: a run of the program, as the list of what it does. The argument parser, the
-- sandboxes and the operating system are third-party code: their answers are the record `World`.
-- The goroutines that start the connections come up in an order of their own, which is a parameter;
-- what one of them does is listed in one piece.
pub mod Watch
pub mod Daemon
use wireproxy.Base.{
  ℕ, Bool, true, false, not, ◌&&◌, Option, none, some, List, [], ◌∷◌, ◌++◌, map, Outcome, ok, err,
  is_empty, if◌then◌else◌,
}
use wireproxy.Config.Types.{ConnectionSpec, Routine}
use wireproxy.Connections.Load.{LoadError, Disk, load_config_sources}
use wireproxy.Connections.StateDir.{tailscale_state_dirs}
use wireproxy.Host.{Host}
use wireproxy.Sandbox.{Rule, LockError, lock_network, tls_file_paths}
use wireproxy.Text.{Text, codes, text_eq}
use wireproxy.Sandbox.Stages.{
  PathRule, LockOptions, Stage, Fatal, Act, ro_file, rw_file, rw_dir, boot, boot_daemon,
  read_config, ready, unveiled, pledged, restricted_paths, restricted_net, printed_usage,
  printed_version, path_required, loading, config_ok, output_closed, child_started, made_dir,
  bound_health, started, failed, spawned, serving_health, waiting, died, cannot_load, cannot_lock,
  no_state_dir, no_health, none_started, boot_promises, read_promises, ready_promises, static_ro,
  static_rw, path_rules, lock, no_options,
}

pub record Flags : Type 0 where
  pub config : List Text
  pub silent : Bool
  pub daemon : Bool
  pub info : Text
  pub version : Bool
  pub config_test : Bool

-- `executable` is `os.Executable`; `parse` is none for a usage error; the last two are the outcomes
-- of `StartConnection` and the order in which the connections come up.
pub record World : Type 0 where
  pub host : Host
  pub disk : Disk
  pub executable : Option Text
  -- `os.Getenv("HOME")`
  pub home : Text
  pub exists : Text → Bool
  pub parse : List Text → Option Flags
  pub mkdir_all : Text → Bool
  pub listens : Text → Bool
  pub starts : ConnectionSpec → Bool
  pub order : List ConnectionSpec → List ConnectionSpec

abbrev pub first_arg : List Text → Text
first_arg [] = []
first_arg (arg ∷ args) = arg

unfoldable pub executable_path : World → List Text → Text
executable_path w argv = elim w.executable [ none ↦ first_arg argv | some path ↦ path ]

abbrev pub default_config_paths : Text → List Text
default_config_paths home =
    codes "/etc/wireproxy/wireproxy.conf" ∷ (home ++ codes "/.config/wireproxy.conf") ∷ []

-- `configFilePath`
unfoldable pub config_file_path : (Text → Bool) → List Text → Option Text
config_file_path exists [] = none
config_file_path exists (path ∷ paths) =
    let rest = config_file_path exists paths in if exists path then some path else rest

abbrev pub daemon_process : Text
daemon_process = codes "daemon-process"

unfoldable pub is_daemon_process : List Text → Bool
is_daemon_process (exe ∷ arg ∷ args) = text_eq arg daemon_process
is_daemon_process _ = false

-- The arguments that are parsed.
unfoldable pub args_of : List Text → List Text
unfolding is_daemon_process
args_of (exe ∷ arg ∷ args) = if text_eq arg daemon_process then exe ∷ args else exe ∷ arg ∷ args
args_of argv = argv

-- The command line of the child: the program, then the arguments with the first one replaced.
unfoldable pub child_argv : Text → List Text → List Text
child_argv exe [] = exe ∷ []
child_argv exe (arg ∷ args) = exe ∷ daemon_process ∷ args

abbrev pub spawn_all : Text → List Routine → List Act
spawn_all name [] = []
spawn_all name (r ∷ rs) = spawned name r ∷ spawn_all name rs

-- The goroutine of one connection.
unfoldable pub start_one : World → ConnectionSpec → List Act
start_one w spec =
    if w.starts spec
    then started spec.name ∷ spawn_all spec.name spec.conf.routines
    else failed spec.name ∷ []

unfoldable pub start_all : World → List ConnectionSpec → List Act
unfolding start_one
start_all w [] = []
start_all w (spec ∷ specs) = start_one w spec ++ start_all w specs

-- The atomic counter.
unfoldable pub some_started : World → List ConnectionSpec → Bool
some_started w [] = false
some_started w (spec ∷ specs) = if w.starts spec then true else some_started w specs

unfoldable pub run_connections : World → Text → List ConnectionSpec → List Act
unfolding start_all some_started
run_connections w info specs =
    start_all w (w.order specs)
    ++ (if some_started w (w.order specs)
        then (if is_empty info then waiting ∷ [] else serving_health ∷ waiting ∷ [])
        else died none_started ∷ [])

unfoldable pub run_bound : World → Text → List ConnectionSpec → List Act
unfolding run_connections
run_bound w info specs =
    if is_empty info
    then run_connections w info specs
    else if w.listens info
    then bound_health info ∷ run_connections w info specs
    else died (no_health info) ∷ []

-- The loop that creates the state directories, then what follows it.
unfoldable pub make_dirs : World → List Text → List Act → List Act
make_dirs w [] next = next
make_dirs w (dir ∷ dirs) next =
    let rest = make_dirs w dirs next in
    if w.mkdir_all dir then made_dir dir ∷ rest else died (no_state_dir dir) ∷ []

abbrev pub ready_options : World → List ConnectionSpec → LockOptions
ready_options w specs = record {
  ro_files = tls_file_paths specs [];
  rw_dirs = tailscale_state_dirs w.host specs;
  needs_write_access = not (is_empty (tailscale_state_dirs w.host specs));
}

unfoldable pub run_ready : World → Text → Text → List ConnectionSpec → List Act
unfolding make_dirs lock run_bound tailscale_state_dirs tls_file_paths
run_ready w exe info specs =
    make_dirs w (tailscale_state_dirs w.host specs)
      (lock exe ready (ready_options w specs) ++ run_bound w info specs)

abbrev pub names_of : List ConnectionSpec → List Text
names_of [] = []
names_of (spec ∷ specs) = spec.name ∷ names_of specs

unfoldable pub run_loaded : World → Text → Bool → List Text → Flags → List ConnectionSpec → List Act
unfolding run_ready lock_network child_argv
run_loaded w exe is_child args flags specs =
    if flags.config_test
    then config_ok (names_of specs) ∷ []
    else elim (lock_network specs flags.info) [
      | err e ↦ died (cannot_lock e) ∷ []
      | ok rules ↦
          restricted_net rules
          ∷ (if is_child
              then output_closed ∷ run_ready w exe flags.info specs
              else if flags.daemon
              then child_started (child_argv exe args) ∷ []
              else run_ready w exe flags.info specs)
    ]

abbrev pub config_paths : World → Flags → Option (List Text)
config_paths w flags =
    if is_empty flags.config
    then elim (config_file_path w.exists (default_config_paths w.home)) [
      | none ↦ none
      | some path ↦ some (path ∷ [])
    ]
    else some flags.config

abbrev pub run_paths : World → Text → Bool → List Text → Flags → Option (List Text) → List Act
run_paths w exe is_child args flags none = path_required ∷ []
run_paths w exe is_child args flags (some paths) =
    (if flags.daemon then [] else lock exe read_config no_options)
    ++ loading paths ∷ (elim (load_config_sources w.host w.disk paths flags.info) [
      | err e ↦ died (cannot_load e) ∷ []
      | ok specs ↦ run_loaded w exe is_child args flags specs
    ])

unfoldable pub run_flags : World → Text → Bool → List Text → Option Flags → List Act
unfolding run_loaded lock config_file_path load_config_sources
run_flags w exe is_child args none = printed_usage ∷ []
run_flags w exe is_child args (some flags) =
    if flags.version
    then printed_version ∷ []
    else run_paths w exe is_child args flags (config_paths w flags)

unfoldable pub main : World → List Text → List Act
unfolding run_flags lock executable_path is_daemon_process args_of
main w argv =
    let exe = executable_path w argv in
    let is_child = is_daemon_process argv in
    lock exe boot no_options
    ++ ((if is_child then lock exe boot_daemon no_options else [])
        ++ run_flags w exe is_child (args_of argv) (w.parse (args_of argv)))
