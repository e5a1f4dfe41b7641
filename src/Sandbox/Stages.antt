-- ===== src/Sandbox/Stages.antt =====
-- cmd/wireproxy/main.go: the acts of a run, and the four stages of the sandbox.
use wireproxy.Base.{Bool, true, false, Option, List, [], ◌∷◌, ◌++◌, map}
use wireproxy.Config.Types.{Routine}
use wireproxy.Connections.Load.{LoadError}
use wireproxy.Sandbox.{Rule, LockError}
use wireproxy.Text.{Text, codes}

-- Landlock's rules on paths
pub data PathRule : Type 0 where
  ro_file rw_file rw_dir : Text → PathRule

pub record LockOptions : Type 0 where
  pub ro_files : List Text
  pub rw_dirs : List Text
  pub needs_write_access : Bool

-- The four stages; another name, at which the source panics, is passed by no caller.
pub data Stage : Type 0 where
  boot boot_daemon read_config ready : Stage

pub data Fatal : Type 0 where
  cannot_load : LoadError → Fatal
  cannot_lock : LockError → Fatal
  no_state_dir no_health : Text → Fatal
  none_started : Fatal

pub data Act : Type 0 where
  unveiled : Text → Text → Act
  pledged : List Text → Act
  restricted_paths : List PathRule → Act
  -- `none` where the restriction is skipped
  restricted_net : Option (List Rule) → Act
  printed_usage printed_version path_required : Act
  loading : List Text → Act
  config_ok : List Text → Act
  output_closed : Act
  child_started : List Text → Act
  made_dir : Text → Act
  bound_health : Text → Act
  started failed : Text → Act
  spawned : Text → Routine → Act
  serving_health waiting : Act
  died : Fatal → Act

abbrev pub boot_promises : List Text
boot_promises =
    codes "stdio"
    ∷ codes "rpath"
    ∷ codes "inet"
    ∷ codes "dns"
    ∷ codes "proc"
    ∷ codes "exec"
    ∷ codes "wpath"
    ∷ codes "cpath"
    ∷ []

abbrev pub read_promises : List Text
read_promises =
    codes "stdio" ∷ codes "rpath" ∷ codes "inet" ∷ codes "dns" ∷ codes "wpath" ∷ codes "cpath" ∷ []

abbrev pub ready_promises : Bool → List Text
ready_promises true =
    codes "stdio" ∷ codes "inet" ∷ codes "dns" ∷ codes "wpath" ∷ codes "cpath" ∷ []
ready_promises false = codes "stdio" ∷ codes "inet" ∷ codes "dns" ∷ []

abbrev pub static_ro : List Text
static_ro =
    codes "/etc/resolv.conf"
    ∷ codes "/dev/fd"
    ∷ codes "/dev/zero"
    ∷ codes "/dev/urandom"
    ∷ codes "/etc/localtime"
    ∷ codes "/proc/self/stat"
    ∷ codes "/proc/self/status"
    ∷ codes "/usr/share/locale"
    ∷ codes "/proc/self/cmdline"
    ∷ codes "/usr/share/zoneinfo"
    ∷ codes "/proc/sys/kernel/version"
    ∷ codes "/proc/sys/kernel/ngroups_max"
    ∷ codes "/proc/sys/kernel/cap_last_cap"
    ∷ codes "/proc/sys/vm/overcommit_memory"
    ∷ []

abbrev pub static_rw : List Text
static_rw = codes "/dev/log" ∷ codes "/dev/null" ∷ codes "/dev/full" ∷ codes "/proc/self/fd" ∷ []

unfoldable pub path_rules : LockOptions → List PathRule
path_rules opts =
    map ro_file static_ro
    ++ (map rw_file static_rw ++ (map ro_file opts.ro_files ++ map rw_dir opts.rw_dirs))

unfoldable pub lock : Text → Stage → LockOptions → List Act
unfolding path_rules
lock exe boot opts =
    unveiled (codes "/") (codes "r") ∷ unveiled exe (codes "x") ∷ pledged boot_promises ∷ []
lock exe boot_daemon opts = []
lock exe read_config opts = pledged read_promises ∷ []
lock exe ready opts =
    pledged (ready_promises opts.needs_write_access) ∷ restricted_paths (path_rules opts) ∷ []

abbrev pub no_options : LockOptions
no_options = record { ro_files = []; rw_dirs = []; needs_write_access = false }
