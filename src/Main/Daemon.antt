-- ===== src/Main/Daemon.antt =====
-- The process that `-d` leaves in the background.
use wireproxy.Base.{
  ◌≡◌, refl, ◌∙◌, ◌⊎◌, Bool, true, false, Option, none, some, List, [], ◌∷◌, ◌++◌, inl, inr,
  Bool-cases, Outcome-cases, ap, append_assoc, subst, arith,
}
use wireproxy.Config.Types.{ConnectionSpec, Routine}
use wireproxy.Connections.Load.{load_config_sources}
use wireproxy.Connections.StateDir.{tailscale_state_dirs}
use wireproxy.Main.{
  World, Flags, executable_path, is_daemon_process, args_of, child_argv, spawn_all, start_one,
  start_all, run_connections, run_bound, make_dirs, ready_options, run_ready, run_loaded,
  config_paths, run_paths, run_flags, main,
}
use wireproxy.Sandbox.Stages.{
  ready, Act, child_started, waiting, serving_health, died, none_started, lock,
}
use wireproxy.Text.{Text, text_eq}

-- The command lines of the children that a run starts.
abbrev pub children : List Act → List (List Text)
children [] = []
children (child_started argv ∷ acts) = argv ∷ children acts
children (act ∷ acts) = children acts

spawn_all-children :
    (name : Text) (rs : List Routine) (acts : List Act)
    → children (spawn_all name rs ++ acts) ≡ children acts
spawn_all-children name [] acts = refl
spawn_all-children name (r ∷ rs) acts = spawn_all-children name rs acts

start_all-children :
    (w : World) (specs : List ConnectionSpec) (acts : List Act)
    → children (start_all w specs ++ acts) ≡ children acts
unfolding start_all start_one
start_all-children w [] acts = refl
start_all-children w (spec ∷ specs) acts = elim (Bool-cases (w.starts spec)) [
  | inl starts ↦ rw starts (
      ap children (append_assoc (spawn_all spec.name spec.conf.routines) (start_all w specs) acts)
      ∙ spawn_all-children spec.name spec.conf.routines (start_all w specs ++ acts)
      ∙ start_all-children w specs acts)
  | inr fails ↦ rw fails (start_all-children w specs acts)
]

run_bound-children :
    (w : World) (info : Text) (specs : List ConnectionSpec) → children (run_bound w info specs) ≡ []
unfolding run_bound run_connections
run_bound-children w info specs = ground (
  arith,
  start_all-children w (w.order specs) (waiting ∷ []),
  start_all-children w (w.order specs) (serving_health ∷ waiting ∷ []),
  start_all-children w (w.order specs) (died none_started ∷ []),
)

make_dirs-children :
    (w : World) (dirs : List Text) (next : List Act)
    → children next ≡ []
    → children (make_dirs w dirs next) ≡ []
unfolding make_dirs
make_dirs-children w [] next h = h
make_dirs-children w (dir ∷ dirs) next h = ground (arith, make_dirs-children w dirs next h)

run_ready-children :
    (w : World) (exe info : Text) (specs : List ConnectionSpec)
    → children (run_ready w exe info specs) ≡ []
unfolding run_ready lock
run_ready-children w exe info specs =
    make_dirs-children w (tailscale_state_dirs w.host specs)
      (lock exe ready (ready_options w specs) ++ run_bound w info specs)
      (run_bound-children w info specs)

-- No child, or one with the arguments of this run.
abbrev OneChild : Bool → List Text → List (List Text) → Type 0
OneChild true argv found = found ≡ []
OneChild false argv found = (found ≡ []) ⊎ (found ≡ argv ∷ [])

none-OneChild : (is_child : Bool) (argv : List Text) → OneChild is_child argv []
none-OneChild true argv = refl
none-OneChild false argv = inl refl

module _ (w : World) (exe : Text) (args : List Text) (flags : Flags) where
  run_loaded-children :
      (is_child : Bool) (specs : List ConnectionSpec)
      → OneChild is_child
          (child_argv exe args)
          (children (run_loaded w exe is_child args flags specs))
  unfolding run_loaded
  run_loaded-children true specs = ground (arith, run_ready-children w exe flags.info specs)
  run_loaded-children false specs = ground (arith, run_ready-children w exe flags.info specs)

  run_paths-children :
      (is_child : Bool) (paths : Option (List Text))
      → OneChild is_child
          (child_argv exe args)
          (children (run_paths w exe is_child args flags paths))
  unfolding lock
  run_paths-children is_child none = none-OneChild is_child (child_argv exe args)
  run_paths-children is_child (some paths) =
      elim (Outcome-cases (load_config_sources w.host w.disk paths flags.info)) [
        | inr (e, bad) ↦ elim (Bool-cases flags.daemon) [
          | inl daemon ↦ rw (daemon) (rw bad (none-OneChild is_child (child_argv exe args)))
          | inr front ↦ rw (front) (rw bad (none-OneChild is_child (child_argv exe args)))
        ]
        | inl (specs, good) ↦ elim (Bool-cases flags.daemon) [
          | inl daemon ↦ rw (daemon) (rw good (run_loaded-children is_child specs))
          | inr front ↦ rw (front) (rw good (run_loaded-children is_child specs))
        ]
      ]

run_flags-children :
    (w : World) (exe : Text) (args : List Text) (is_child : Bool) (flags : Option Flags)
    → OneChild is_child (child_argv exe args) (children (run_flags w exe is_child args flags))
unfolding run_flags
run_flags-children w exe args is_child none = none-OneChild is_child (child_argv exe args)
run_flags-children w exe args is_child (some flags) = elim (Bool-cases flags.version) [
  | inl version ↦ rw version (none-OneChild is_child (child_argv exe args))
  | inr run ↦ rw run (run_paths-children w exe args flags is_child (config_paths w flags))
]

main-children :
    (w : World) (argv : List Text)
    → OneChild
        (is_daemon_process argv)
        (child_argv (executable_path w argv) (args_of argv))
        (children (main w argv))
unfolding main lock
main-children w argv = elim (Bool-cases (is_daemon_process argv)) [
  | inl child ↦
      rw child
        (run_flags-children w (executable_path w argv) (args_of argv) true (w.parse (args_of argv)))
  | inr first ↦
      rw first (
        run_flags-children w (executable_path w argv) (args_of argv) false (w.parse (args_of argv)))
]

unchanged :
    (prog : Text) (args : List Text)
    → is_daemon_process (prog ∷ args) ≡ false
    → args_of (prog ∷ args) ≡ prog ∷ args
unfolding is_daemon_process args_of
unchanged prog [] h = refl
unchanged prog (arg ∷ args) h = ground arith

marked :
    (exe prog : Text) (args : List Text)
    → (is_daemon_process (child_argv exe (prog ∷ args)) ≡ true)
      × (args_of (child_argv exe (prog ∷ args)) ≡ exe ∷ args)
unfolding is_daemon_process args_of child_argv text_eq
marked exe prog args = (refl, refl)

-- A run starts at most one child, and only where it is not such a child itself. The child parses the
-- arguments that this run parsed, behind the program's path, and starts no child of its own,
-- whatever the system answers it.
pub main-child :
    (w : World) (prog : Text) (args child : List Text) (more : List (List Text))
    → children (main w (prog ∷ args)) ≡ child ∷ more
    → (is_daemon_process (prog ∷ args) ≡ false)
      × (more ≡ [])
      × (is_daemon_process child ≡ true)
      × (args_of child ≡ executable_path w (prog ∷ args) ∷ args)
      × ((w' : World) → children (main w' child) ≡ [])
main-child w prog args child more found = elim (Bool-cases (is_daemon_process (prog ∷ args))) [
  | inl is_child ↦ absurd (
      ground (
        arith,
        subst (λ b. OneChild b own_child (children (main w (prog ∷ args)))) {y = true} is_child one,
      ))
  | inr first ↦
      let whole : args_of (prog ∷ args) ≡ prog ∷ args = unchanged prog args first in
      let same : child ∷ more ≡ child_argv exe (prog ∷ args) ∷ [] = only_one first whole in
      (
        first,
        ground (arith, same),
        ground (arith, same, marked exe prog args),
        ground (arith, same, marked exe prog args),
        λ w'.
            subst
              (λ b.
                OneChild b (child_argv (executable_path w' child) (args_of child))
                  (children (main w' child)))
              {y = true} (ground (arith, same, marked exe prog args)) (main-children w' child),
      )
]
  where
    exe : Text
    exe = executable_path w (prog ∷ args)

    own_child : List Text
    own_child = child_argv exe (args_of (prog ∷ args))

    one : OneChild (is_daemon_process (prog ∷ args)) own_child (children (main w (prog ∷ args)))
    one = main-children w (prog ∷ args)

    only_one :
        is_daemon_process (prog ∷ args) ≡ false
        → args_of (prog ∷ args) ≡ prog ∷ args
        → child ∷ more ≡ child_argv exe (prog ∷ args) ∷ []
    only_one first whole = ground (
      arith,
      found,
      whole,
      subst (λ b. OneChild b own_child (children (main w (prog ∷ args)))) {y = false} first one,
    )
