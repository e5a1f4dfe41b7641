-- ===== src/Text/Encoding.antt =====
-- `base64.StdEncoding.DecodeString` and `hex.EncodeToString`.
pub mod Bytes
use wireproxy.Base.{
  ℕ, ◌+◌, ◌-◌, ◌*◌, ◌/◌, ◌%◌, ◌≡◌, refl, Bool, true, false, not, ◌&&◌, ◌||◌, Option, none, some,
  List, [], ◌∷◌, ◌++◌, ◌==◌, ltb, within, if◌then◌else◌, filter,
}
use wireproxy.Text.Defs.{Text, codes}

-- The six bits of a letter of the standard alphabet.
unfoldable pub sextet : ℕ → Option ℕ
sextet c =
    if within b'A' b'Z' c
    then some (c - b'A')
    else if within b'a' b'z' c
    then some (c - b'a' + 26)
    else if within b'0' b'9' c
    then some (c - b'0' + 52)
    else if c == b'+'
    then some 62
    else if c == b'/'
    then some 63
    else none

abbrev three_bytes : ℕ → List ℕ
three_bytes n = (n / 65536) ∷ (n / 256 % 256) ∷ (n % 256) ∷ []

-- A quantum with `=` in it ends the input.
abbrev padded : ℕ → ℕ → ℕ → ℕ → List ℕ → Option (List ℕ)
padded a b c d [] = elim (sextet a) [
  | none ↦ none
  | some x ↦ elim (sextet b) [
    | none ↦ none
    | some y ↦ elim (sextet c) [
      | some z ↦ if d == b'=' then some ((x * 4 + y / 16) ∷ (y % 16 * 16 + z / 4) ∷ []) else none
      | none ↦ if c == b'=' && d == b'=' then some ((x * 4 + y / 16) ∷ []) else none
    ]
  ]
]
padded a b c d (e ∷ s) = none

abbrev full : ℕ → ℕ → ℕ → ℕ → Option ℕ
full a b c d = elim (sextet a) [
  | none ↦ none
  | some x ↦ elim (sextet b) [
    | none ↦ none
    | some y ↦ elim (sextet c) [
      | none ↦ none
      | some z ↦ elim (sextet d) [ none ↦ none | some w ↦ some (((x * 64 + y) * 64 + z) * 64 + w) ]
    ]
  ]
]

abbrev then_more : ℕ → Option (List ℕ) → Option (List ℕ)
then_more n none = none
then_more n (some bytes) = some (three_bytes n ++ bytes)

abbrev first_quantum : Option ℕ → Option (List ℕ) → Option (List ℕ) → Option (List ℕ)
first_quantum (some n) more last = then_more n more
first_quantum none more last = last

unfoldable pub decode_quanta : Text → Option (List ℕ)
unfolding sextet
decode_quanta [] = some []
decode_quanta (a ∷ b ∷ c ∷ d ∷ s) =
    first_quantum (full a b c d) (decode_quanta s) (padded a b c d s)
decode_quanta _ = none

abbrev is_newline : ℕ → Bool
is_newline c = c == 10 || c == 13

-- Line ends are skipped wherever they stand.
unfoldable pub base64_decode : Text → Option (List ℕ)
unfolding decode_quanta
base64_decode s = decode_quanta (filter (λ c. not (is_newline c)) s)

unfoldable pub hex_digit : ℕ → ℕ
hex_digit n = if ltb n 10 then n + b'0' else n - 10 + b'a'

unfoldable pub hex_encode : List ℕ → Text
unfolding hex_digit
hex_encode [] = []
hex_encode (b ∷ bs) = hex_digit (b / 16) ∷ hex_digit (b % 16) ∷ hex_encode bs
