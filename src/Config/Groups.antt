-- ===== src/Config/Groups.antt =====
-- `splitIntoGroups`. The map `byName` and the slice `groups` hold the same pointers, so one list
-- of groups in order of first appearance, searched by name, stands for both.

pub mod Contents
pub mod Invariant
use wireproxy.Base.{
  ℕ, Bool, ◌||◌, Option, none, some, List, [], ◌∷◌, ◌++◌, map, Outcome, ok, err, ◌>>=◌, is_empty,
  any, length, if◌then◌else◌,
}
use wireproxy.Connections.Name.{sanitize_connection_name}
use wireproxy.Host.{Section, File, ascii_lower}
use wireproxy.Text.Strings.{cut}
use wireproxy.Text.{Text, codes, text_eq}

-- `map[string][]*ini.Section`, its keys in order of first appearance
abbrev pub Buckets : Type 0
Buckets = List (Text × List Section)

-- `g.routines[kind]`, nil where the key is missing
unfoldable pub sections_of : Text → Buckets → List Section
sections_of kind [] = []
sections_of kind ((k, sections) ∷ m) = if text_eq k kind then sections else sections_of kind m

pub record ConnGroup : Type 0 where
  pub name : Text
  pub iface : List Section
  pub peers : List Section
  pub tailscale : List Section
  pub resolve : List Section
  pub routines : Buckets

abbrev pub new_conn_group : Text → ConnGroup
new_conn_group name = record {
  name = name;
  iface = [];
  peers = [];
  tailscale = [];
  resolve = [];
  routines = [];
}

-- `m[kind] = append(m[kind], section)`
unfoldable pub append_at : Text → Section → Buckets → Buckets
append_at kind section [] = (kind, section ∷ []) ∷ []
append_at kind section ((k, sections) ∷ m) =
    if text_eq k kind
    then (k, sections ++ section ∷ []) ∷ m
    else (k, sections) ∷ append_at kind section m

-- The switch over the section type.
unfoldable pub place : Text → Section → ConnGroup → ConnGroup
unfolding append_at
place kind section g =
    if text_eq kind (codes "interface")
    then record g { iface = g.iface ++ section ∷ [] }
    else if text_eq kind (codes "peer")
    then record g { peers = g.peers ++ section ∷ [] }
    else if text_eq kind (codes "tailscale")
    then record g { tailscale = g.tailscale ++ section ∷ [] }
    else if text_eq kind (codes "resolve")
    then record g { resolve = g.resolve ++ section ∷ [] }
    else record g { routines = append_at kind section g.routines }

-- `byName[groupName]`, created at the end where it is missing, and the switch on it.
unfoldable pub add_to_group : Text → Text → Section → List ConnGroup → List ConnGroup
unfolding place
add_to_group name kind section [] = place kind section (new_conn_group name) ∷ []
add_to_group name kind section (g ∷ groups) =
    if text_eq g.name name
    then place kind section g ∷ groups
    else g ∷ add_to_group name kind section groups

-- `name == "" || strings.EqualFold(name, ini.DefaultSection)`: no letter of DEFAULT has a case
-- variant beyond ASCII.
abbrev pub is_default : Text → Bool
is_default name = is_empty name || text_eq (map ascii_lower name) (codes "default")

-- The group name and the type of a section name; `none` for a prefix that leaves no name.
unfoldable pub classify : (ℕ → ℕ) → Text → Option (Text × Text)
unfolding sanitize_connection_name
classify lower name = elim (cut name b'.') [
  | none ↦ some ([], name)
  | some (prefix, kind) ↦
      let group = sanitize_connection_name lower prefix in
      if is_empty group then none else some (group, kind)
]

unfoldable pub split_sections :
    (ℕ → ℕ) → List Section → List ConnGroup → Outcome Text (List ConnGroup)
unfolding classify add_to_group
split_sections lower [] groups = ok groups
split_sections lower (section ∷ sections) groups =
    let skipped = split_sections lower sections groups in
    if is_default section.name then skipped else elim (classify lower section.name) [
      | none ↦ err (codes "invalid connection group name in section " ++ section.name)
      | some (name, kind) ↦ split_sections lower sections (add_to_group name kind section groups)
    ]

unfoldable pub split_into_groups : (ℕ → ℕ) → File → Outcome Text (Section × List ConnGroup)
unfolding split_sections
split_into_groups lower cfg = do
  groups ← split_sections lower cfg.sections []
  ok (cfg.default, groups)
