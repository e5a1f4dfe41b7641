-- ===== src/Config/Connection/Complete.antt =====
-- `appendRoutines` drops no section: the routines are those of the sections, in the order of the
-- table, and the number of both agrees.
use wireproxy.Base.{
  ℕ, ◌+◌, ◌≡◌, refl, ◌∙◌, true, false, List, [], ◌∷◌, ◌++◌, Outcome, ok, >>=-eq-ok, inl, inr,
  Bool-cases, All, Pairwise, arith, length, length-append, if◌then◌else◌,
}
use wireproxy.Config.Connection.{
  parse_sections, parse_table, is_parsed, refuse_unknown, append_routines,
}
use wireproxy.Config.Groups.Invariant.{DistinctKeys}
use wireproxy.Config.Groups.{ConnGroup, Buckets, sections_of}
use wireproxy.Config.Routines.{routine_parsers}
use wireproxy.Config.Types.{Configuration, Routine}
use wireproxy.Host.{Host, Section}
use wireproxy.Text.{Text, text_eq, text_eq_iff}

abbrev Rows : Type 0
Rows = List (Text × (Section → Outcome Text Routine))

-- The number of sections in the buckets.
abbrev pub total : Buckets → ℕ
total [] = 0
total ((kind, sections) ∷ m) = length sections + total m

-- The same number, by the rows of the table.
abbrev row_total : Rows → Buckets → ℕ
row_total [] m = 0
row_total (row ∷ rows) m = length (sections_of row.0 m) + row_total rows m

abbrev DistinctRows : Rows → Type 0
DistinctRows = Pairwise (λ a b. text_eq a.0 b.0 ≡ false)

abbrev pub AllParsed : Rows → Buckets → Type 0
AllParsed rows = All (λ entry. is_parsed rows entry.0 ≡ true)

length-parse_sections :
    (parse : Section → Outcome Text Routine) (sections : List Section) (before after : List Routine)
    → parse_sections parse sections before ≡ ok after
    → length after ≡ length before + length sections
unfolding parse_sections
length-parse_sections parse [] before after h = ground arith
length-parse_sections parse (section ∷ sections) before after h =
    let (routine, done, later) = >>=-eq-ok (parse section) _ h in
    omega (
      arith,
      length-parse_sections parse sections (before ++ routine ∷ []) after later,
      length-append before (routine ∷ []),
    )

length-parse_table :
    (rows : Rows) (m : Buckets) (before after : List Routine)
    → parse_table rows m before ≡ ok after
    → length after ≡ length before + row_total rows m
unfolding parse_table
length-parse_table [] m before after h = ground arith
length-parse_table ((kind, parse) ∷ rows) m before after h =
    let (more, done, later) = >>=-eq-ok (parse_sections parse (sections_of kind m) before) _ h in
    omega (
      arith,
      length-parse_sections parse (sections_of kind m) before more done,
      length-parse_table rows m more after later,
    )

refuse_unknown-AllParsed :
    (rows : Rows) (name : Text) (m : Buckets) {u : Unit {0}}
    → refuse_unknown rows name m ≡ ok u
    → AllParsed rows m
unfolding refuse_unknown
refuse_unknown-AllParsed rows name [] h = tt
refuse_unknown-AllParsed rows name ((kind, sections) ∷ m) h =
    elim (Bool-cases (is_parsed rows kind)) [
      | inl known ↦ (known, refuse_unknown-AllParsed rows name m (rw known at h))
      | inr unknown ↦ ground arith
    ]

sections_of_missing :
    (kind : Text) (m : Buckets)
    → All (λ entry. text_eq kind entry.0 ≡ false) m
    → sections_of kind m ≡ []
unfolding sections_of
sections_of_missing kind [] h = refl
sections_of_missing kind ((k, sections) ∷ m) h =
    ground (arith, text_eq_iff kind k, text_eq_iff k kind, sections_of_missing kind m h.1)

is_parsed_of_distinct :
    (kind : Text) (rows : Rows)
    → All (λ row. text_eq kind row.0 ≡ false) rows
    → is_parsed rows kind ≡ false
is_parsed_of_distinct kind [] h = refl
is_parsed_of_distinct kind (row ∷ rows) h =
    ground
      (arith, text_eq_iff kind row.0, text_eq_iff row.0 kind, is_parsed_of_distinct kind rows h.1)

-- One bucket counts once among the rows.
row_total-cons :
    (rows : Rows) (kind : Text) (sections : List Section) (m : Buckets)
    → DistinctRows rows
    → sections_of kind m ≡ []
    → row_total rows ((kind, sections) ∷ m)
      ≡ (if is_parsed rows kind then length sections else 0) + row_total rows m
unfolding sections_of
row_total-cons [] kind sections m d e = omega arith
row_total-cons (row ∷ rows) kind sections m d e = ground (
  arith,
  text_eq_iff kind row.0,
  text_eq_iff row.0 kind,
  row_total-cons rows kind sections m d.1,
  is_parsed_of_distinct row.0 rows d.0,
)

row_total-nil : (rows : Rows) → row_total rows [] ≡ 0
unfolding sections_of
row_total-nil [] = refl
row_total-nil (row ∷ rows) = omega (arith, row_total-nil rows)

row_total-total :
    (rows : Rows) (m : Buckets)
    → DistinctRows rows
    → DistinctKeys m
    → AllParsed rows m
    → row_total rows m ≡ total m
row_total-total rows [] d k a = row_total-nil rows
row_total-total rows ((kind, sections) ∷ m) d k a =
    row_total-cons rows kind sections m d (sections_of_missing kind m k.0)
    ∙ rw a.0 (omega (arith, row_total-total rows m d k.1 a.1))

routine_parsers-distinct : (host : Host) → DistinctRows (routine_parsers host)
unfolding text_eq
routine_parsers-distinct host = ground arith

-- Where a group with distinct routine types yields a configuration, every routine section of the
-- group is of a type in the table, and the configuration has one routine more for each of them:
-- no section is dropped. Its other fields are unchanged.
pub append_routines_complete :
    (host : Host) (g : ConnGroup) (conf conf' : Configuration)
    → DistinctKeys g.routines
    → append_routines host g conf ≡ ok conf'
    → AllParsed (routine_parsers host) g.routines
      × (length conf'.routines ≡ length conf.routines + total g.routines)
      × (record conf { routines = conf'.routines } ≡ conf')
unfolding append_routines
append_routines_complete host g conf conf' distinct h =
    let (routines, parsed, later) =
      >>=-eq-ok (parse_table (routine_parsers host) g.routines conf.routines) _ h in
    let (u, known, done) =
      >>=-eq-ok (refuse_unknown (routine_parsers host) conf.name g.routines) _ later in
    let all_parsed = refuse_unknown-AllParsed (routine_parsers host) conf.name g.routines known in
    (
      all_parsed,
      ground (
        arith,
        length-parse_table (routine_parsers host) g.routines conf.routines routines parsed,
        row_total-total (routine_parsers host) g.routines (routine_parsers-distinct host) distinct
            all_parsed,
      ),
      ground arith,
    )
