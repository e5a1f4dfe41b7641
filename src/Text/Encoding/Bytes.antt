-- ===== src/Text/Encoding/Bytes.antt =====
-- What `DecodeString` returns are bytes, and what `hex.EncodeToString` makes of bytes.
use wireproxy.Base.{
  ℕ, ◌*◌, ◌/◌, ◌%◌, ◌<◌, ◌≡◌, refl, Bool, true, ◌||◌, Option, none, some, List, [], ◌∷◌, All, all,
  within, arith, length, not, filter,
}
use wireproxy.Text.Defs.{Text}
use wireproxy.Text.Encoding.{
  sextet, full, padded, then_more, first_quantum, is_newline, decode_quanta, base64_decode,
  hex_digit, hex_encode,
}

abbrev pub is_hex : ℕ → Bool
is_hex c = within b'0' b'9' c || within b'a' b'f' c

abbrev pub IsHex : Text → Type 0
IsHex = All (λ c. is_hex c ≡ true)

abbrev pub AreBytes : List ℕ → Type 0
AreBytes = All (λ b. b < 256)

-- What holds of a result, if there is one.
abbrev Gives {ℓ κ} : {A : Type ℓ} → (A → Type κ) → Option A → Type κ
Gives P none = Unit
Gives P (some a) = P a

sextet_lt : (c : ℕ) → Gives (λ x. x < 64) (sextet c)
unfolding sextet
sextet_lt c = ground arith

full_lt : (a b c d : ℕ) → Gives (λ n. n < 16777216) (full a b c d)
full_lt a b c d = ground (arith, sextet_lt a, sextet_lt b, sextet_lt c, sextet_lt d)

padded-AreBytes : (a b c d : ℕ) (s : List ℕ) → Gives AreBytes (padded a b c d s)
padded-AreBytes a b c d [] = ground (arith, sextet_lt a, sextet_lt b, sextet_lt c)
padded-AreBytes a b c d (e ∷ s) = tt

then_more-AreBytes :
    (n : ℕ) (more : Option (List ℕ))
    → n < 16777216
    → Gives AreBytes more
    → Gives AreBytes (then_more n more)
then_more-AreBytes n none lt h = tt
then_more-AreBytes n (some rest) lt h = (omega arith, (omega arith, (omega arith, h)))

first_quantum-AreBytes :
    (first : Option ℕ) (more last : Option (List ℕ))
    → Gives (λ n. n < 16777216) first
    → Gives AreBytes more
    → Gives AreBytes last
    → Gives AreBytes (first_quantum first more last)
first_quantum-AreBytes none more last lt h k = k
first_quantum-AreBytes (some n) more last lt h k = then_more-AreBytes n more lt h

decode_quanta-AreBytes : (s : Text) → Gives AreBytes (decode_quanta s)
unfolding decode_quanta
decode_quanta-AreBytes [] = tt
decode_quanta-AreBytes (a ∷ b ∷ c ∷ d ∷ s) =
    first_quantum-AreBytes (full a b c d) (decode_quanta s) (padded a b c d s) (full_lt a b c d)
      (decode_quanta-AreBytes s) (padded-AreBytes a b c d s)
decode_quanta-AreBytes _ = tt

pub base64_decode-AreBytes :
    (s : Text) {bytes : List ℕ} → base64_decode s ≡ some bytes → AreBytes bytes
unfolding base64_decode
base64_decode-AreBytes s h = rw h at (decode_quanta-AreBytes (filter (λ c. not (is_newline c)) s))

pub length-hex_encode : (bytes : List ℕ) → length (hex_encode bytes) ≡ length bytes * 2
unfolding hex_encode
length-hex_encode [] = refl
length-hex_encode (b ∷ bytes) = omega (arith, length-hex_encode bytes)

hex_digit-is_hex : (n : ℕ) → n < 16 → is_hex (hex_digit n) ≡ true
unfolding hex_digit
hex_digit-is_hex n h = ground arith

pub hex_encode-IsHex : (bytes : List ℕ) → AreBytes bytes → IsHex (hex_encode bytes)
unfolding hex_encode
hex_encode-IsHex [] h = tt
hex_encode-IsHex (b ∷ bytes) (lt, h) = (
  hex_digit-is_hex (b / 16) (omega arith),
  (hex_digit-is_hex (b % 16) (omega arith), hex_encode-IsHex bytes h),
)

pub IsHex-all : (s : Text) → all is_hex s ≡ true → IsHex s
IsHex-all [] h = tt
IsHex-all (c ∷ s) h = (ground arith, IsHex-all s (ground arith))
