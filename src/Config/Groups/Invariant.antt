-- ===== src/Config/Groups/Invariant.antt =====
-- The groups that `splitIntoGroups` makes: distinct names that are valid or empty, and in each
-- group a map of routine sections whose keys are distinct and are no reserved types.
use wireproxy.Base.{
  ℕ, ◌≡◌, ◌∙◌, Bool, true, false, ◌||◌, some, List, [], ◌∷◌, ok, inl, inr, Bool-cases, Option-cases,
  >>=-eq-ok, ◌⊎◌, All, Pairwise, arith, if◌then◌else◌,
}
use wireproxy.Config.Groups.{
  ConnGroup, Buckets, new_conn_group, append_at, place, add_to_group, is_default, classify,
  split_sections, split_into_groups,
}
use wireproxy.Connections.Name.{matches_name_pattern, sanitize_connection_name-matches}
use wireproxy.Host.{Section, File}
use wireproxy.Text.Strings.{cut}
use wireproxy.Text.{Text, codes, text_eq}

abbrev pub is_reserved : Text → Bool
is_reserved kind =
    text_eq kind (codes "interface")
    || text_eq kind (codes "peer")
    || text_eq kind (codes "tailscale")
    || text_eq kind (codes "resolve")

-- The default connection's empty name, or one that the pattern of connection names accepts.
abbrev pub IsGroupName : Text → Type 0
IsGroupName name = (name ≡ []) ⊎ (matches_name_pattern name ≡ true)

abbrev KeyDiffers : Text → Text × List Section → Type 0
KeyDiffers kind entry = text_eq kind entry.0 ≡ false

abbrev pub DistinctKeys : Buckets → Type 0
DistinctKeys = Pairwise (λ a b. text_eq a.0 b.0 ≡ false)

pub record IsGroup (g : ConnGroup) : Type 0 where
  pub named : IsGroupName g.name
  pub distinct : DistinctKeys g.routines
  pub unreserved : All (λ entry. is_reserved entry.0 ≡ false) g.routines

abbrev NameDiffers : Text → ConnGroup → Type 0
NameDiffers name g = text_eq name g.name ≡ false

abbrev pub DistinctNames : List ConnGroup → Type 0
DistinctNames = Pairwise (λ a b. text_eq a.name b.name ≡ false)

append_at-KeyDiffers :
    (k kind : Text) (section : Section) (m : Buckets)
    → text_eq k kind ≡ false
    → All (KeyDiffers k) m
    → All (KeyDiffers k) (append_at kind section m)
unfolding append_at
append_at-KeyDiffers k kind section [] h a = (h, tt)
append_at-KeyDiffers k kind section ((j, sections) ∷ m) h a =
    ground (arith, append_at-KeyDiffers k kind section m h a.1)

append_at-DistinctKeys :
    (kind : Text) (section : Section) (m : Buckets)
    → DistinctKeys m
    → DistinctKeys (append_at kind section m)
unfolding append_at
append_at-DistinctKeys kind section [] h = (tt, tt)
append_at-DistinctKeys kind section ((j, sections) ∷ m) h =
    ground (arith, append_at-KeyDiffers j kind section m, append_at-DistinctKeys kind section m)

append_at-unreserved :
    (kind : Text) (section : Section) (m : Buckets)
    → is_reserved kind ≡ false
    → All (λ entry. is_reserved entry.0 ≡ false) m
    → All (λ entry. is_reserved entry.0 ≡ false) (append_at kind section m)
unfolding append_at
append_at-unreserved kind section [] h a = (h, tt)
append_at-unreserved kind section ((j, sections) ∷ m) h a = elim (Bool-cases (text_eq j kind)) [
  | inl same ↦ rw same a
  | inr other ↦ rw other (a.0, append_at-unreserved kind section m h a.1)
]

place-name :
    (kind : Text) (section : Section) (g : ConnGroup) → (place kind section g).name ≡ g.name
unfolding place
place-name kind section g = ground arith

place-routines :
    (kind : Text) (section : Section) (g : ConnGroup)
    → (place kind section g).routines
      ≡ (if is_reserved kind then g.routines else append_at kind section g.routines)
unfolding place
place-routines kind section g = ground arith

place-IsGroup :
    (kind : Text) (section : Section) (g : ConnGroup) → IsGroup g → IsGroup (place kind section g)
place-IsGroup kind section g v = elim (Bool-cases (is_reserved kind)) [
  | inl reserved ↦
      let same = place-routines kind section g ∙ rw reserved in
      record {
        named = rw place-name v.named;
        distinct = rw same v.distinct;
        unreserved = rw same v.unreserved;
      }
  | inr routine ↦
      let added = place-routines kind section g ∙ rw routine in
      record {
        named = rw place-name v.named;
        distinct = rw added (append_at-DistinctKeys kind section g.routines v.distinct);
        unreserved = rw added (append_at-unreserved kind section g.routines routine v.unreserved);
      }
]

add_to_group-NameDiffers :
    (n name kind : Text) (section : Section) (groups : List ConnGroup)
    → text_eq n name ≡ false
    → All (NameDiffers n) groups
    → All (NameDiffers n) (add_to_group name kind section groups)
unfolding add_to_group
add_to_group-NameDiffers n name kind section [] h a =
    (rw (place-name kind section (new_conn_group name)) h, tt)
add_to_group-NameDiffers n name kind section (g ∷ groups) h a =
    ground
      (arith, place-name kind section g, add_to_group-NameDiffers n name kind section groups h a.1)

add_to_group-DistinctNames :
    (name kind : Text) (section : Section) (groups : List ConnGroup)
    → DistinctNames groups
    → DistinctNames (add_to_group name kind section groups)
unfolding add_to_group
add_to_group-DistinctNames name kind section [] h = (tt, tt)
add_to_group-DistinctNames name kind section (g ∷ groups) h =
    elim (Bool-cases (text_eq g.name name)) [
      | inl same ↦ rw same (rw (place-name kind section g) h.0, h.1)
      | inr other ↦ rw other (
        add_to_group-NameDiffers g.name name kind section groups other h.0,
        add_to_group-DistinctNames name kind section groups h.1,
      )
    ]

new_conn_group-IsGroup : (name : Text) → IsGroupName name → IsGroup (new_conn_group name)
new_conn_group-IsGroup name h = record { named = h; distinct = tt; unreserved = tt }

add_to_group-IsGroup :
    (name kind : Text) (section : Section) (groups : List ConnGroup)
    → IsGroupName name
    → All IsGroup groups
    → All IsGroup (add_to_group name kind section groups)
unfolding add_to_group
add_to_group-IsGroup name kind section [] h a =
    (place-IsGroup kind section _ (new_conn_group-IsGroup name h), tt)
add_to_group-IsGroup name kind section (g ∷ groups) h a = elim (Bool-cases (text_eq g.name name)) [
  | inl same ↦ rw same (place-IsGroup kind section g a.0, a.1)
  | inr other ↦ rw other (a.0, add_to_group-IsGroup name kind section groups h a.1)
]

classify-IsGroupName :
    (lower : ℕ → ℕ) (section_name : Text) {name kind : Text}
    → classify lower section_name ≡ some (name, kind)
    → IsGroupName name
unfolding classify
classify-IsGroupName lower section_name h = elim (Option-cases (cut section_name b'.')) [
  | inl plain ↦ inl (ground arith)
  | inr ((prefix, kind), found) ↦ ground (arith, (sanitize_connection_name-matches lower prefix).0)
]

split_sections-invariant :
    (lower : ℕ → ℕ) (sections : List Section) (before groups : List ConnGroup)
    → split_sections lower sections before ≡ ok groups
    → All IsGroup before
    → DistinctNames before
    → All IsGroup groups × DistinctNames groups
unfolding split_sections
split_sections-invariant lower [] before groups h a d = ground arith
split_sections-invariant lower (section ∷ sections) before groups h a d =
    elim (Bool-cases (is_default section.name)) [
      | inl root ↦ split_sections-invariant lower sections before groups (rw root at h) a d
      | inr named ↦ elim (Option-cases (classify lower section.name)) [
        | inl bad ↦ ground arith
        | inr ((name, kind), good) ↦
            split_sections-invariant lower sections (add_to_group name kind section before) groups
              (rw (named, good, split_sections) at h)
              (add_to_group-IsGroup name kind section before
                (classify-IsGroupName lower section.name good) a)
              (add_to_group-DistinctNames name kind section before d)
      ]
    ]

-- Of every file that splits, the groups have distinct names, each empty or accepted by the
-- pattern of connection names, and each group's routine sections stand under distinct types,
-- none of them one of the four types that have a place of their own.
pub split_into_groups-invariant :
    (lower : ℕ → ℕ) (cfg : File) (root : Section) (groups : List ConnGroup)
    → split_into_groups lower cfg ≡ ok (root, groups)
    → All IsGroup groups × DistinctNames groups
unfolding split_into_groups
split_into_groups-invariant lower cfg root groups h =
    let (split, done, e) = >>=-eq-ok (split_sections lower cfg.sections []) _ h in
    split_sections-invariant lower cfg.sections [] groups (ground arith) tt tt
