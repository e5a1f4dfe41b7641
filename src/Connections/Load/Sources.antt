-- ===== src/Connections/Load/Sources.antt =====
-- What `LoadConfigSources` reads, and in which order.
use wireproxy.Base.{
  append-nil, ◌≡◌, ◌⊎◌, refl, Bool, true, false, ◌&&◌, List, [], ◌∷◌, ◌++◌, map, filter, ok,
  is_empty, inl, inr, >>=-eq-ok, Outcome-cases, append_assoc, arith, subst, sym,
}
use wireproxy.Config.File.{parse_config_file}
use wireproxy.Config.Types.{ConnectionSpec}
use wireproxy.Connections.Validate.{validate_connections}
use wireproxy.Host.{Host}
use wireproxy.Text.{Text}
use wireproxy.Connections.Load.{
  DirEntry, Disk, is_conf, add_entries, add_path, expand_paths, parse_files, load_config_sources,
}

module _ (host : Host) (disk : Disk) where
  -- What the files of the paths are: a directory stands for its regular entries named *.conf, in the
  -- order of the listing, any other path for itself.
  abbrev pub IsSource : Text → List Text → Type 0
  IsSource path files =
      ((disk.is_dir path ≡ ok false) × (files ≡ path ∷ []))
      ⊎ ((disk.is_dir path ≡ ok true)
          × (entries : List DirEntry) × (disk.read_dir path ≡ ok entries)
          × (files
              ≡ map (λ e. host.join (path ∷ e.name ∷ []))
                  (filter (λ e. is_conf host disk e && e.is_regular) entries)))

  abbrev pub AreSources : List Text → List Text → Type 0
  AreSources [] files = files ≡ []
  AreSources (path ∷ paths) files =
      (first : List Text) × (rest : List Text) × IsSource path first
      × AreSources paths rest
      × (files ≡ first ++ rest)

  abbrev pub AreParsed : List Text → List ConnectionSpec → Type 0
  AreParsed [] specs = specs ≡ []
  AreParsed (f ∷ fs) specs =
      (first : List ConnectionSpec) × (rest : List ConnectionSpec) × (parse_config_file host f
        ≡ ok first)
      × AreParsed fs rest
      × (specs ≡ first ++ rest)

  abbrev listed : Text → List DirEntry → List Text
  listed dir entries =
      map (λ e. host.join (dir ∷ e.name ∷ []))
        (filter (λ e. is_conf host disk e && e.is_regular) entries)

  add_entries_lem :
      (dir : Text) (es : List DirEntry) (files : List Text)
      → add_entries host disk dir es files ≡ files ++ listed dir es
  unfolding add_entries
  add_entries_lem dir [] files = sym (append-nil files)
  add_entries_lem dir (e ∷ es) files =
      let file : Text = host.join (dir ∷ e.name ∷ []) in
      ground (
        arith,
        add_entries_lem dir es files,
        add_entries_lem dir es (files ++ file ∷ []),
        append_assoc files (file ∷ []) (listed dir es),
      )

  add_path-IsSource :
      (path : Text) (dir : Bool) (files : List Text) {all : List Text}
      → disk.is_dir path ≡ ok dir
      → add_path host disk path dir files ≡ ok all
      → (first : List Text) × IsSource path first × (all ≡ files ++ first)
  add_path-IsSource path false files d e = (path ∷ [], inl (d, refl), ground arith)
  add_path-IsSource path true files d e = elim (Outcome-cases (disk.read_dir path)) [
    | inr (bad, failed) ↦ ground arith
    | inl (entries, read) ↦ (
      listed path entries,
      inr (d, entries, read, refl),
      ground (arith, add_entries_lem path entries files),
    )
  ]

  expand_paths-AreSources :
      (paths files : List Text) {all : List Text}
      → expand_paths host disk paths files ≡ ok all
      → (added : List Text) × AreSources paths added × (all ≡ files ++ added)
  unfolding expand_paths
  expand_paths-AreSources [] files e = ([], refl, ground (arith, append-nil files))
  expand_paths-AreSources (path ∷ paths) files {all} e = elim (Outcome-cases (disk.is_dir path)) [
    | inr (bad, failed) ↦ ground arith
    | inl (dir, d) ↦
        let (more, a, rest) =
          >>=-eq-ok (add_path host disk path dir files) (expand_paths host disk paths) {b = all}
            (ground arith) in
        let (first, is, eq) = add_path-IsSource path dir files d a in
        let (added, are, eq') = expand_paths-AreSources paths more rest in
        (
          first ++ added,
          (first, added, is, are, refl),
          ground (arith, append_assoc files first added),
        )
  ]

  parse_files-AreParsed :
      (files : List Text) (specs : List ConnectionSpec) {all : List ConnectionSpec}
      → parse_files host disk files specs ≡ ok all
      → (added : List ConnectionSpec) × AreParsed files added × (all ≡ specs ++ added)
  unfolding parse_files
  parse_files-AreParsed [] specs e = ([], refl, ground (arith, append-nil specs))
  parse_files-AreParsed (f ∷ fs) specs {all} e = elim (Outcome-cases (parse_config_file host f)) [
    | inr (bad, failed) ↦ ground arith
    | inl (first, parsed) ↦
        let (added, are, eq) =
          parse_files-AreParsed fs (specs ++ first) {all = all} (ground arith) in
        (
          first ++ added,
          (first, added, parsed, are, refl),
          ground (arith, append_assoc specs first added),
        )
  ]

  -- Where loading succeeds, there are files, which are those that the paths stand for in order, a
  -- directory for its regular entries named *.conf; every file parses, the connections are those of
  -- the files in order, and they pass validation together with the health endpoint.
  pub load_config_sources-AreParsed :
      (paths : List Text) (info_addr : Text) {specs : List ConnectionSpec}
      → load_config_sources host disk paths info_addr ≡ ok specs
      → (files : List Text) × AreSources paths files
        × (is_empty files ≡ false)
        × AreParsed files specs
        × (validate_connections host specs info_addr ≡ ok tt)
  unfolding load_config_sources
  load_config_sources-AreParsed paths info_addr e =
      elim (Outcome-cases (expand_paths host disk paths [])) [
        | inr (bad, failed) ↦ ground arith
        | inl (files, expanded) ↦ elim (Outcome-cases (parse_files host disk files [])) [
          | inr (bad, failed) ↦ ground arith
          | inl (specs', parsed) ↦
              let (added, are, eq) = expand_paths-AreSources paths [] expanded in
              let (loaded, were, eq') = parse_files-AreParsed files [] parsed in
              (
                files,
                subst (AreSources paths) (sym eq) are,
                ground arith,
                subst (AreParsed files) (ground arith) were,
                elim (Outcome-cases (validate_connections host specs' info_addr)) [
                  | inl (u, passed) ↦ ground arith
                  | inr (bad, refused) ↦ ground arith
                ],
              )
        ]
      ]
