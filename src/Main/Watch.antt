-- ===== src/Main/Watch.antt =====
-- What holds of every run, as a check over its acts in order.
pub mod Locked
pub mod Made
pub mod Readied
pub mod Safe
use wireproxy.Base.{
  is_some, ℕ, ◌≡◌, refl, ◌∙◌, Bool, true, false, not, ◌&&◌, Option, none, some, List, [], ◌∷◌, ◌++◌,
  map, Outcome, ok, err, inl, inr, Bool-cases, Option-cases, Outcome-cases, any, all, is_empty,
  append_assoc, arith, if◌then◌else◌,
}
use wireproxy.Config.Types.{ConnectionSpec, Routine}
use wireproxy.Connections.Load.{LoadError, load_config_sources}
use wireproxy.Main.{
  World, Flags, executable_path, is_daemon_process, args_of, child_argv, spawn_all, start_one,
  start_all, some_started, run_connections, run_bound, make_dirs, ready_options, run_ready,
  run_loaded, config_paths, run_paths, run_flags, main,
}
use wireproxy.Sandbox.Stages.{
  PathRule, ro_file, rw_file, rw_dir, LockOptions, Stage, boot, boot_daemon, read_config, ready,
  Act, unveiled, pledged, restricted_paths, restricted_net, printed_usage, printed_version,
  path_required, loading, config_ok, output_closed, child_started, made_dir, bound_health, started,
  failed, spawned, serving_health, waiting, died, cannot_load, boot_promises, read_promises,
  ready_promises, path_rules, lock, no_options, none_started, static_ro, static_rw,
}
use wireproxy.Sandbox.{Rule, lock_network}
use wireproxy.Connections.StateDir.{needs_open_egress}
use wireproxy.Text.{Text, codes, text_eq, text_eq_refl}

-- What has been given up so far: the promises still held, none before the first pledge, whether the
-- network has been decided on and the paths' rules are applied, and the directories that exist.
-- `open_egress` tells whether the configurations that the run loads need open egress.
pub record Watch : Type 0 where
  pub open_egress : Bool
  pub promises : Option (List Text)
  pub net : Bool
  pub paths : Bool
  pub made : List Text

abbrev pub is_among : List Text → Text → Bool
is_among texts text = any (λ t. text_eq t text) texts

abbrev pub narrows : Option (List Text) → List Text → Bool
narrows none promises = true
narrows (some held) promises = all (is_among held) promises

abbrev pub exists_in : List Text → PathRule → Bool
exists_in made (rw_dir dir) = is_among made dir
exists_in made (ro_file file) = true
exists_in made (rw_file file) = true

-- No promise is held before the first pledge, which gives all others up.
abbrev pub holds : Watch → Text → Bool
holds w promise = elim w.promises [ none ↦ false | some held ↦ is_among held promise ]

-- The network is left unrestricted where the configurations need that, and there only.
abbrev pub is_decided : Bool → Option (List Rule) → Bool
is_decided open_egress none = open_egress
is_decided open_egress (some rules) = not open_egress

-- The network is decided on, the paths are restricted, and after a pledge no file is read any more and
-- no process started.
unfoldable pub is_confined : Watch → Bool
is_confined w =
    w.net
    && w.paths
    && is_some w.promises
    && not (holds w (codes "rpath"))
    && not (holds w (codes "proc"))
    && not (holds w (codes "exec"))

-- The acts in order, each under what has been given up before it.
unfoldable pub is_safe : Watch → List Act → Bool
unfolding is_confined
is_safe w [] = true
is_safe w (unveiled path perms ∷ acts) = not (is_some w.promises) && is_safe w acts
is_safe w (pledged promises ∷ acts) =
    narrows w.promises promises && is_safe (record w { promises = some promises }) acts
is_safe w (restricted_net rules ∷ acts) =
    is_decided w.open_egress rules && not w.paths && is_safe (record w { net = true }) acts
is_safe w (restricted_paths rules ∷ acts) =
    w.net && all (exists_in w.made) rules && is_safe (record w { paths = true }) acts
is_safe w (made_dir dir ∷ acts) = not w.paths && is_safe (record w { made = dir ∷ w.made }) acts
is_safe w (loading paths ∷ acts) =
    holds w (codes "rpath") && not w.net && not w.paths && is_safe w acts
is_safe w (child_started argv ∷ acts) =
    holds w (codes "proc") && holds w (codes "exec") && w.net && is_safe w acts
is_safe w (bound_health info ∷ acts) = is_confined w && is_safe w acts
is_safe w (started name ∷ acts) = is_confined w && is_safe w acts
is_safe w (failed name ∷ acts) = is_confined w && is_safe w acts
is_safe w (spawned name routine ∷ acts) = is_confined w && is_safe w acts
is_safe w (serving_health ∷ acts) = is_confined w && is_safe w acts
is_safe w (act ∷ acts) = is_safe w acts

-- At the start of a run.
abbrev pub watching : Bool → Watch
watching open_egress = record {
  open_egress = open_egress;
  promises = none;
  net = false;
  paths = false;
  made = [];
}

-- Whether what is loaded needs open egress; a run that loads nothing restricts nothing.
abbrev pub egress_of_loaded : Outcome LoadError (List ConnectionSpec) → Bool
egress_of_loaded (err e) = false
egress_of_loaded (ok specs) = needs_open_egress specs

abbrev pub egress_of_paths : World → Flags → Option (List Text) → Bool
egress_of_paths world flags none = false
egress_of_paths world flags (some paths) =
    egress_of_loaded (load_config_sources world.host world.disk paths flags.info)

abbrev pub egress_of_flags : World → Option Flags → Bool
egress_of_flags world none = false
egress_of_flags world (some flags) = egress_of_paths world flags (config_paths world flags)

-- Of a run with these arguments.
abbrev pub open_egress_of : World → List Text → Bool
open_egress_of world argv = egress_of_flags world (world.parse (args_of argv))
