-- ===== src/Connections/Load.antt =====
-- `LoadConfigSources`: paths become files, and the files connections, which are checked together.
pub mod Sources
use wireproxy.Base.{
  ◌≡◌, ◌⊎◌, refl, Bool, true, false, not, ◌&&◌, List, [], ◌∷◌, ◌++◌, map, filter, Outcome, ok, err,
  ◌>>=◌, ◌>>◌, ensure, is_empty, inl, inr, >>=-eq-ok, ensure-eq-ok, Outcome-cases, Bool-cases,
  append_assoc, arith, subst, sym, if◌then◌else◌,
}
use wireproxy.Config.File.{parse_config_file}
use wireproxy.Config.Types.{ConnectionSpec}
use wireproxy.Connections.Validate.{Refusal, validate_connections}
use wireproxy.Host.{Host}
use wireproxy.Text.Strings.{has_suffix}
use wireproxy.Text.{Text, codes}

-- `os.DirEntry`: its name, and whether its type is regular
pub record DirEntry : Type 0 where
  pub name : Text
  pub is_regular : Bool

-- `os.Stat(path).IsDir()` and `os.ReadDir`
pub record Disk : Type 0 where
  pub is_dir : Text → Outcome Text Bool
  pub read_dir : Text → Outcome Text (List DirEntry)

pub data LoadError : Type 0 where
  unreadable : Text → LoadError
  no_files : LoadError
  in_file : Text → Text → LoadError
  refused : Refusal → LoadError

-- An error of the operating system is returned as it is, an error of a file with the file's path.
abbrev pub or_unreadable {ℓ} : {A : Type ℓ} → Outcome Text A → Outcome LoadError A
or_unreadable (ok a) = ok a
or_unreadable (err e) = err (unreadable e)

abbrev pub or_in_file {ℓ} : {A : Type ℓ} → Text → Outcome Text A → Outcome LoadError A
or_in_file file (ok a) = ok a
or_in_file file (err e) = err (in_file file e)

abbrev pub or_refused {ℓ} : {A : Type ℓ} → Outcome Refusal A → Outcome LoadError A
or_refused (ok a) = ok a
or_refused (err e) = err (refused e)

module _ (host : Host) (disk : Disk) where
  abbrev pub is_conf : DirEntry → Bool
  is_conf e = has_suffix (map host.lower e.name) (codes ".conf")

  -- The loop over a directory's entries.
  unfoldable pub add_entries : Text → List DirEntry → List Text → List Text
  add_entries dir [] files = files
  add_entries dir (e ∷ es) files =
      let next =
        if not (is_conf e)
        then files
        else if not e.is_regular
        then files
        else files ++ host.join (dir ∷ e.name ∷ []) ∷ [] in
      add_entries dir es next

  abbrev pub add_path : Text → Bool → List Text → Outcome LoadError (List Text)
  add_path path true files = do
    entries ← or_unreadable (disk.read_dir path)
    ok (add_entries path entries files)
  add_path path false files = ok (files ++ path ∷ [])

  unfoldable pub expand_paths : List Text → List Text → Outcome LoadError (List Text)
  unfolding add_entries
  expand_paths [] files = ok files
  expand_paths (path ∷ paths) files = do
    dir ← or_unreadable (disk.is_dir path)
    more ← add_path path dir files
    expand_paths paths more

  unfoldable pub parse_files :
      List Text → List ConnectionSpec → Outcome LoadError (List ConnectionSpec)
  unfolding parse_config_file
  parse_files [] specs = ok specs
  parse_files (f ∷ fs) specs = do
    file_specs ← or_in_file f (parse_config_file host f)
    parse_files fs (specs ++ file_specs)

  unfoldable pub load_config_sources : List Text → Text → Outcome LoadError (List ConnectionSpec)
  unfolding expand_paths parse_files validate_connections
  load_config_sources paths info_addr = do
    files ← expand_paths paths []
    ensure (not (is_empty files)) no_files
    specs ← parse_files files []
    or_refused (validate_connections host specs info_addr)
    ok specs
