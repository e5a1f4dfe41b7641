-- ===== src/Text/Utf8.antt =====
-- The bytes of a string, `[]byte(s)`: the UTF-8 form of its code points.
use wireproxy.Base.{ℕ, ◌+◌, ◌/◌, ◌%◌, ◌||◌, List, [], ◌∷◌, ◌++◌, ltb, within, if◌then◌else◌}
use wireproxy.Text.Defs.{Text}

-- The byte that continues a code point.
abbrev tail_byte : ℕ → ℕ
tail_byte n = 128 + n % 64

-- Surrogates and numbers beyond the last code point are written as U+FFFD.
unfoldable pub encode_rune : ℕ → List ℕ
encode_rune c =
    if ltb c 128
    then c ∷ []
    else if ltb c 2048
    then (192 + c / 64) ∷ tail_byte c ∷ []
    else if within 55296 57343 c || ltb 1114111 c
    then 239 ∷ 191 ∷ 189 ∷ []
    else if ltb c 65536
    then (224 + c / 4096) ∷ tail_byte (c / 64) ∷ tail_byte c ∷ []
    else (240 + c / 262144) ∷ tail_byte (c / 4096) ∷ tail_byte (c / 64) ∷ tail_byte c ∷ []

unfoldable pub utf8 : Text → List ℕ
unfolding encode_rune
utf8 [] = []
utf8 (c ∷ s) = encode_rune c ++ utf8 s
