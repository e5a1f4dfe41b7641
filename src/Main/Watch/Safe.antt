-- ===== src/Main/Watch/Safe.antt =====
-- The parts of `main` in the order in which they run, under the check.
use wireproxy.Base.{
  ◌&&◌, ◌≡◌, refl, Bool, true, false, Option, none, some, List, [], ◌∷◌, ok, err, inl, inr,
  Bool-cases, Outcome-cases, all, arith, if◌then◌else◌,
}
use wireproxy.Config.Types.{ConnectionSpec}
use wireproxy.Connections.Load.{load_config_sources}
use wireproxy.Main.{
  World, Flags, executable_path, is_daemon_process, args_of, child_argv, run_ready, run_loaded,
  config_paths, run_paths, run_flags, main,
}
use wireproxy.Sandbox.Stages.{
  loading, output_closed, child_started, died, cannot_load, boot_promises, read_promises,
  ready_promises, lock,
}
use wireproxy.Sandbox.{lock_network}
use wireproxy.Connections.StateDir.{needs_open_egress}
use wireproxy.Text.{Text, codes, text_eq}
use wireproxy.Main.Watch.{
  is_among, is_safe, watching, egress_of_paths, egress_of_flags, open_egress_of,
}
use wireproxy.Main.Watch.Readied.{going, lock_network-is_decided, run_ready-is_safe}

-- While configurations are read and the process may still be asked to start a child.
module _ (held : List Text)
    (enough : (write : Bool) → all (is_among held) (ready_promises write) ≡ true) (world : World)
    (exe : Text) (is_child : Bool) (args : List Text) (flags : Flags)
    (may_start : flags.daemon ≡ true
      → (is_among held (codes "proc") && is_among held (codes "exec")) ≡ true) where
  run_decided-is_safe :
      (egress : Bool) (specs : List ConnectionSpec)
      → is_safe (going egress held true []) (
          if is_child
          then output_closed ∷ run_ready world exe flags.info specs
          else if flags.daemon
          then child_started (child_argv exe args) ∷ []
          else run_ready world exe flags.info specs)
        ≡ true
  unfolding is_safe
  run_decided-is_safe egress specs =
      ground (arith, run_ready-is_safe egress held enough world exe flags.info specs)

  run_loaded-is_safe :
      (specs : List ConnectionSpec)
      → is_safe
          (going (needs_open_egress specs) held false [])
          (run_loaded world exe is_child args flags specs)
        ≡ true
  unfolding is_safe run_loaded
  run_loaded-is_safe specs = elim (Bool-cases flags.config_test) [
    | inl test ↦ rw test
    | inr real ↦ elim (Outcome-cases (lock_network specs flags.info)) [
      | inr (e, bad) ↦ rw real (rw bad)
      | inl (rules, good) ↦ rw real (
          rw good (
            rw (lock_network-is_decided specs flags.info rules good)
              (run_decided-is_safe (needs_open_egress specs) specs)))
    ]
  ]

  loading-is_safe :
      (paths : List Text)
      → is_among held (codes "rpath") ≡ true
      → is_safe (going (egress_of_paths world flags (some paths)) held false []) (
          loading paths ∷ (elim (load_config_sources world.host world.disk paths flags.info) [
            | err e ↦ died (cannot_load e) ∷ []
            | ok specs ↦ run_loaded world exe is_child args flags specs
          ]))
        ≡ true
  unfolding is_safe
  loading-is_safe paths reads =
      elim (Outcome-cases (load_config_sources world.host world.disk paths flags.info)) [
        | inr (e, bad) ↦ rw reads (rw bad refl)
        | inl (specs, good) ↦ rw reads (rw good (run_loaded-is_safe specs))
      ]

boot_enough : (write : Bool) → all (is_among boot_promises) (ready_promises write) ≡ true
unfolding text_eq
boot_enough true = refl
boot_enough false = refl

read_enough : (write : Bool) → all (is_among read_promises) (ready_promises write) ≡ true
unfolding text_eq
read_enough true = refl
read_enough false = refl

read_narrows : all (is_among boot_promises) read_promises ≡ true
unfolding text_eq
read_narrows = refl

boot_may_start :
    (is_among boot_promises (codes "proc") && is_among boot_promises (codes "exec")) ≡ true
unfolding text_eq
boot_may_start = refl

boot_reads : is_among boot_promises (codes "rpath") ≡ true
unfolding text_eq
boot_reads = refl

read_reads : is_among read_promises (codes "rpath") ≡ true
unfolding text_eq
read_reads = refl

run_paths-is_safe :
    (world : World) (exe : Text) (is_child : Bool) (args : List Text) (flags : Flags)
    (paths : Option (List Text))
    → is_safe
        (going (egress_of_paths world flags paths) boot_promises false [])
        (run_paths world exe is_child args flags paths)
      ≡ true
unfolding is_safe lock
run_paths-is_safe world exe is_child args flags none = refl
run_paths-is_safe world exe is_child args flags (some paths) = elim (Bool-cases flags.daemon) [
  | inl daemon ↦ rw daemon (
      loading-is_safe boot_promises boot_enough world exe is_child args flags (λ e. boot_may_start)
        paths boot_reads)
  | inr front ↦ rw front (
      rw read_narrows (
        loading-is_safe read_promises read_enough world exe is_child args flags
          (λ e. absurd (ground arith)) paths read_reads))
]

run_flags-is_safe :
    (world : World) (exe : Text) (is_child : Bool) (args : List Text) (flags : Option Flags)
    → is_safe
        (going (egress_of_flags world flags) boot_promises false [])
        (run_flags world exe is_child args flags)
      ≡ true
unfolding is_safe run_flags
run_flags-is_safe world exe is_child args none = refl
run_flags-is_safe world exe is_child args (some flags) = elim (Bool-cases flags.version) [
  | inl version ↦ rw version
  | inr run ↦ rw run (run_paths-is_safe world exe is_child args flags (config_paths world flags))
]

-- In every run, whatever the arguments, the configurations and the system's answers: paths are
-- unveiled before the first pledge, and a pledge asks for no promise that an earlier one gave up;
-- configurations are read while the promise to read files is held and before the network is decided
-- on; the network is left unrestricted where the loaded connections need open egress, and
-- restricted by rules where they do not; a child is started only after that and while the promises
-- to start one are held; the paths are restricted after it too, to state directories that exist by
-- then; and connections come up, routines are spawned and the health endpoint is bound and served
-- only once the paths are restricted and the promises to read files and to start processes are
-- given up.
pub main-is_safe :
    (world : World) (argv : List Text)
    → is_safe (watching (open_egress_of world argv)) (main world argv) ≡ true
unfolding is_safe main lock
main-is_safe world argv = elim (Bool-cases (is_daemon_process argv)) [
  | inl child ↦ rw child (
      run_flags-is_safe world (executable_path world argv) true (args_of argv)
        (world.parse (args_of argv)))
  | inr first ↦ rw first (
      run_flags-is_safe world (executable_path world argv) false (args_of argv)
        (world.parse (args_of argv)))
]
