-- ===== src/Health/Redact.antt =====
-- The dump of a device goes out line by line, with the values of the secret keys replaced.
use wireproxy.Base.{
  ◌≡◌, refl, sym, ap, ◌∙◌, true, false, none, some, List, [], ◌∷◌, ◌++◌, map, inl, inr, Bool-cases,
  All, All-map, append_assoc, arith, if◌then◌else◌,
}
use wireproxy.Health.{is_secret, redact_line, write_lines, write_redacted_ipc}
use wireproxy.Text.Strings.Cut.{cut-append, cut-eq-some, unlines, split-unlines}
use wireproxy.Text.Strings.{contains_byte, cut}
use wireproxy.Text.{Text, codes, text_eq, text_eq_iff}

-- A line of a dump: it has no line end in it, and it has an equals sign.
pub record IsEntry (line : Text) : Type 0 where
  pub one_line : contains_byte line b'\n' ≡ false
  pub key : Text
  pub value : Text
  pub parts : cut line b'=' ≡ some (key, value)

-- The line as it may be shown.
abbrev pub shown : Text → Text
shown line = elim (cut line b'=') [
  | none ↦ line
  | some (key, value) ↦ if is_secret key then key ++ codes "=REDACTED" else line
]

redact_line-shown : (line : Text) → IsEntry line → redact_line line ≡ shown line ++ b'\n' ∷ []
unfolding redact_line
redact_line-shown line e = ground (
  arith,
  e.parts,
  cut-eq-some line b'=' e.key e.value e.parts,
  append_assoc e.key (codes "=REDACTED") (b'\n' ∷ []),
  append_assoc e.key (b'=' ∷ e.value) (b'\n' ∷ []),
)

write_lines-shown :
    (buf : Text) (lines : List Text)
    → All IsEntry lines
    → write_lines buf (lines ++ [] ∷ []) ≡ buf ++ unlines (map shown lines)
unfolding write_lines redact_line cut
write_lines-shown buf [] h = refl
write_lines-shown buf (line ∷ lines) (e, h) =
    write_lines-shown (buf ++ redact_line line) lines h
    ∙ append_assoc buf (redact_line line) (unlines (map shown lines))
    ∙ ap (λ t. buf ++ (t ++ unlines (map shown lines))) (redact_line-shown line e)
    ∙ ap (λ t. buf ++ t) (append_assoc (shown line) (b'\n' ∷ []) (unlines (map shown lines)))

one_lines : (lines : List Text) → All IsEntry lines → All (λ l. contains_byte l b'\n' ≡ false) lines
one_lines = All-map IsEntry _ (λ l e. e.one_line)

-- Of a dump whose lines are all entries, what goes out is the same lines in order, each with its
-- line end, where the value of a private or pre-shared key reads REDACTED and nothing else differs.
pub write_redacted_ipc-unlines :
    (buf : Text) (lines : List Text)
    → All IsEntry lines
    → write_redacted_ipc buf (unlines lines) ≡ buf ++ unlines (map shown lines)
unfolding write_redacted_ipc
write_redacted_ipc-unlines buf lines h =
    rw (split-unlines lines (one_lines lines h)) (write_lines-shown buf lines h)

-- Two lines that are equal, or give two values to one secret key.
pub data Alike (l m : Text) : Type 0 where
  equal : l ≡ m → Alike l m
  secret :
      (key s t : Text)
      → is_secret key ≡ true
      → l ≡ key ++ b'=' ∷ s
      → m ≡ key ++ b'=' ∷ t
      → Alike l m

abbrev pub AllAlike : List Text → List Text → Type 0
AllAlike [] [] = Unit
AllAlike (l ∷ ls) (m ∷ ms) = Alike l m × AllAlike ls ms
AllAlike _ _ = ⊥

secret-contains_byte : (key : Text) → is_secret key ≡ true → contains_byte key b'=' ≡ false
unfolding contains_byte
secret-contains_byte key h = elim (Bool-cases (text_eq key (codes "private_key"))) [
  | inl private ↦ rw ((text_eq_iff key (codes "private_key")).0 private)
  | inr other ↦
      let shared : text_eq key (codes "preshared_key") ≡ true = ground arith in
      rw ((text_eq_iff key (codes "preshared_key")).0 shared)
]

shown_secret :
    (key value : Text)
    → is_secret key ≡ true
    → shown (key ++ b'=' ∷ value) ≡ key ++ codes "=REDACTED"
shown_secret key value h = ground (arith, cut-append key b'=' value (secret-contains_byte key h))

shown-Alike : (l m : Text) → Alike l m → shown l ≡ shown m
shown-Alike l m (equal e) = ap shown e
shown-Alike l m (secret key s t h e f) =
    ap shown e ∙ shown_secret key s h ∙ sym (shown_secret key t h) ∙ ap shown (sym f)

map-shown-Alike : (ls ms : List Text) → AllAlike ls ms → map shown ls ≡ map shown ms
map-shown-Alike [] [] h = refl
map-shown-Alike (l ∷ ls) (m ∷ ms) h = cc (shown-Alike l m h.0, map-shown-Alike ls ms h.1)
map-shown-Alike [] (m ∷ ms) h = absurd h
map-shown-Alike (l ∷ ls) [] h = absurd h

-- Secrets do not reach the output: two dumps of entries that agree but for the values of their
-- private and pre-shared keys, whatever those values are, are written alike.
pub write_redacted_ipc_noninterference :
    (buf : Text) (lines lines' : List Text)
    → All IsEntry lines
    → All IsEntry lines'
    → AllAlike lines lines'
    → write_redacted_ipc buf (unlines lines) ≡ write_redacted_ipc buf (unlines lines')
write_redacted_ipc_noninterference buf lines lines' h h' a =
    write_redacted_ipc-unlines buf lines h
    ∙ ap (λ t. buf ++ unlines t) (map-shown-Alike lines lines' a)
    ∙ sym (write_redacted_ipc-unlines buf lines' h')
