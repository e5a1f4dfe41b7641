-- ===== src/Config/File.antt =====
-- `parseConfigSource`, `ParseConfigFile` and `ParseConfig`: a file becomes a list of connections.
use wireproxy.Base.{
  not, none, some, List, [], ◌∷◌, ◌++◌, Outcome, ok, err, ◌>>=◌, ◌>>◌, ensure, is_empty,
  if◌then◌else◌,
}
use wireproxy.Config.Connection.{parse_group}
use wireproxy.Config.Groups.{ConnGroup, split_into_groups}
use wireproxy.Config.Types.{Configuration, ConnectionSpec}
use wireproxy.Connections.Name.{sanitize_connection_name, default_name_from_file}
use wireproxy.Host.{Host, Section}
use wireproxy.Text.{Text, codes}

module _ (host : Host) where
  -- The root key `Name`; the empty text where it is absent.
  unfoldable pub explicit_name : Section → Outcome Text Text
  explicit_name root = elim (root.get_key (codes "Name")) [
    | none ↦ ok []
    | some key ↦ do
      let name = sanitize_connection_name host.lower key.string
      ensure (not (is_empty name)) (codes "Name should not be empty")
      ok name
  ]

  unfoldable pub connection_name : Text → Text → Text → Text
  connection_name source_path explicit name =
      if is_empty name
      then if not (is_empty explicit) then explicit else default_name_from_file host source_path
      else name

  -- The loop over the groups.
  unfoldable pub parse_groups :
      Text
      → Section
      → Text
      → List ConnGroup
      → List ConnectionSpec
      → Outcome Text (List ConnectionSpec)
  unfolding connection_name
  parse_groups source_path root explicit [] specs = ok specs
  parse_groups source_path root explicit (g ∷ groups) specs = do
    conf ← parse_group host source_path root g
    let name = connection_name source_path explicit g.name
    let spec : ConnectionSpec = record { name = name; conf = record conf { name = name } }
    parse_groups source_path root explicit groups (specs ++ spec ∷ [])

  unfoldable pub parse_config_source : Text → Text → Outcome Text (List ConnectionSpec)
  unfolding parse_groups explicit_name split_into_groups
  parse_config_source source source_path = do
    cfg ← host.load_source source
    split ← split_into_groups host.lower cfg
    explicit ← explicit_name split.0
    specs ← parse_groups source_path split.0 explicit split.1 []
    ensure (not (is_empty specs)) (codes "no connections defined")
    ok specs

  unfoldable pub parse_config_file : Text → Outcome Text (List ConnectionSpec)
  unfolding parse_config_source
  parse_config_file path = do source ← host.read_file path; parse_config_source source path

  -- `specs[0].Conf`; the list is not empty, or the model refuses where the source would panic.
  abbrev first_conf : List ConnectionSpec → Outcome Text Configuration
  first_conf [] = err (codes "index out of range")
  first_conf (spec ∷ specs) = ok spec.conf

  unfoldable pub parse_config : Text → Outcome Text Configuration
  unfolding parse_config_file
  parse_config path = do specs ← parse_config_file path; first_conf specs
