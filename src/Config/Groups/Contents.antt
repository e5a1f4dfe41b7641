-- ===== src/Config/Groups/Contents.antt =====
-- Where `splitIntoGroups` puts each section: what a group holds under a type is read back by
-- `stored`, and compared with a filter of the file.
use wireproxy.Base.{
  ℕ, ◌≡◌, refl, ◌∙◌, Bool, false, not, ◌&&◌, Option, none, some, List, [], ◌∷◌, ◌++◌, ok, >>=-eq-ok,
  inl, inr, Bool-cases, Option-cases, append-nil, append_assoc, filter, arith, if◌then◌else◌,
}
use wireproxy.Config.Groups.{
  ConnGroup, Buckets, new_conn_group, append_at, sections_of, place, add_to_group, is_default,
  classify, split_sections, split_into_groups,
}
use wireproxy.Host.{Section, File}
use wireproxy.Text.{Text, codes, text_eq, text_eq_iff}

-- The sections of one type in a group.
abbrev pub stored : Text → ConnGroup → List Section
stored kind g =
    if text_eq kind (codes "interface")
    then g.iface
    else if text_eq kind (codes "peer")
    then g.peers
    else if text_eq kind (codes "tailscale")
    then g.tailscale
    else if text_eq kind (codes "resolve")
    then g.resolve
    else sections_of kind g.routines

-- The sections of one type in the group of one name; none where no group has the name.
pub bucket : Text → Text → List ConnGroup → List Section
bucket name kind [] = []
bucket name kind (g ∷ groups) =
    if text_eq g.name name then stored kind g else bucket name kind groups

bucket-nil : (name kind : Text) → bucket name kind [] ≡ []
unfolding bucket
bucket-nil name kind = refl

-- The section is assigned to this group and type by its name.
abbrev lands : Option (Text × Text) → Text → Text → Bool
lands none name kind = false
lands (some (group, type)) name kind = text_eq group name && text_eq type kind

abbrev pub belongs : (ℕ → ℕ) → Text → Text → Section → Bool
belongs lower name kind section =
    not (is_default section.name) && lands (classify lower section.name) name kind

sections_of-append_at :
    (kind k : Text) (section : Section) (m : Buckets)
    → sections_of k (append_at kind section m)
      ≡ (if text_eq kind k then sections_of k m ++ section ∷ [] else sections_of k m)
unfolding sections_of append_at
sections_of-append_at kind k section [] = ground arith
sections_of-append_at kind k section ((j, sections) ∷ m) = ground (
  arith,
  text_eq_iff kind k,
  text_eq_iff j kind,
  text_eq_iff j k,
  sections_of-append_at kind k section m,
)

stored-place :
    (kind k : Text) (section : Section) (g : ConnGroup)
    → stored k (place kind section g)
      ≡ (if text_eq kind k then stored k g ++ section ∷ [] else stored k g)
unfolding place
stored-place kind k section g = ground (
  arith,
  text_eq_iff kind k,
  text_eq_iff kind (codes "interface"),
  text_eq_iff kind (codes "peer"),
  text_eq_iff kind (codes "tailscale"),
  text_eq_iff kind (codes "resolve"),
  text_eq_iff k (codes "interface"),
  text_eq_iff k (codes "peer"),
  text_eq_iff k (codes "tailscale"),
  text_eq_iff k (codes "resolve"),
  sections_of-append_at kind k section g.routines,
)

stored-new_conn_group : (name kind : Text) → stored kind (new_conn_group name) ≡ []
unfolding sections_of
stored-new_conn_group name kind = ground arith

place-name :
    (kind : Text) (section : Section) (g : ConnGroup) → (place kind section g).name ≡ g.name
unfolding place
place-name kind section g = ground arith

bucket-add_to_group :
    (name kind n k : Text) (section : Section) (groups : List ConnGroup)
    → bucket n k (add_to_group name kind section groups) ≡ (
        if text_eq name n && text_eq kind k
        then bucket n k groups ++ section ∷ []
        else bucket n k groups)
unfolding bucket add_to_group
bucket-add_to_group name kind n k section [] = ground (
  arith,
  place-name kind section (new_conn_group name),
  stored-place kind k section (new_conn_group name),
  stored-new_conn_group name k,
)
bucket-add_to_group name kind n k section (g ∷ groups) = ground (
  arith,
  place-name kind section g,
  stored-place kind k section g,
  text_eq_iff g.name name,
  text_eq_iff g.name n,
  text_eq_iff name n,
  bucket-add_to_group name kind n k section groups,
)

bucket-split_sections :
    (lower : ℕ → ℕ) (n k : Text) (sections : List Section) (before groups : List ConnGroup)
    → split_sections lower sections before ≡ ok groups
    → bucket n k groups ≡ bucket n k before ++ filter (belongs lower n k) sections
unfolding split_sections
bucket-split_sections lower n k [] before groups h = ground (arith, append-nil (bucket n k before))
bucket-split_sections lower n k (section ∷ sections) before groups h =
    elim (Bool-cases (is_default section.name)) [
      | inl root ↦ rw root (bucket-split_sections lower n k sections before groups (rw root at h))
      | inr named ↦ elim (Option-cases (classify lower section.name)) [
        | inl bad ↦ ground arith
        | inr ((name, kind), good) ↦
            rw (named, good)
              (bucket-split_sections lower n k sections (add_to_group name kind section before)
                  groups (rw (named, good, split_sections) at h)
                ∙ rw bucket-add_to_group (
                    ground (
                      arith,
                      append_assoc (bucket n k before) (section ∷ [])
                          (filter (belongs lower n k) sections),
                    )))
      ]
    ]

-- Every section of the file is kept, in the group and under the type that its name says, in file
-- order, and nothing else is: for every group name and type, what the groups hold there is the
-- file's sections that belong there. Sections of the default section's name are left out.
pub split_into_groups-bucket :
    (lower : ℕ → ℕ) (cfg : File) (root : Section) (groups : List ConnGroup) (name kind : Text)
    → split_into_groups lower cfg ≡ ok (root, groups)
    → (root ≡ cfg.default)
      × (bucket name kind groups ≡ filter (belongs lower name kind) cfg.sections)
unfolding split_into_groups
split_into_groups-bucket lower cfg root groups name kind h =
    let (split, done, e) = >>=-eq-ok (split_sections lower cfg.sections []) _ h in
    (
      ground arith,
      ground (
        arith,
        bucket-split_sections lower name kind cfg.sections [] split done,
        bucket-nil name kind,
      ),
    )
