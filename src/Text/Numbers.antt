-- ===== src/Text/Numbers.antt =====
-- `strconv.Atoi` and `strconv.Itoa`, with the 64-bit range of `int`.
pub mod RoundTrip
use wireproxy.Base.{
  ℕ, zero, suc, ◌+◌, ◌-◌, ◌*◌, ◌/◌, ◌%◌, Bool, true, false, Option, none, some, [], ◌∷◌, ◌==◌, ltb,
  leb, within, if◌then◌else◌, ℤ, pos, negsuc, is_empty,
}
use wireproxy.Text.Defs.{Text}

abbrev pub is_digit : ℕ → Bool
is_digit c = within b'0' b'9' c

-- The digits read from the left onto `acc`; `none` at any other byte.
unfoldable pub digits_onto : ℕ → Text → Option ℕ
digits_onto acc [] = some acc
digits_onto acc (c ∷ s) =
    let rest = digits_onto (acc * 10 + (c - b'0')) s in if is_digit c then rest else none

abbrev pub max_int : ℕ
max_int = 0x7FFFFFFFFFFFFFFF

-- The magnitude behind an optional minus sign, refused where it leaves the range of `int`.
unfoldable pub signed : Bool → ℕ → Option ℤ
signed false n = if leb n max_int then some (pos n) else none
signed true zero = some (pos zero)
signed true (suc n) = if leb n max_int then some (negsuc n) else none

unfoldable pub magnitude : Text → Option ℕ
unfolding digits_onto
magnitude s = if is_empty s then none else digits_onto 0 s

abbrev pub sign_of : Bool → Option ℕ → Option ℤ
sign_of minus none = none
sign_of minus (some n) = signed minus n

unfoldable pub atoi : Text → Option ℤ
unfolding magnitude signed
atoi [] = none
atoi (c ∷ s) =
    if c == b'-'
    then sign_of true (magnitude s)
    else if c == b'+'
    then sign_of false (magnitude s)
    else sign_of false (magnitude (c ∷ s))

-- Decimal digits in front of `out`; the fuel is the number itself, more than its digits.
unfoldable pub digits_of : ℕ → ℕ → Text → Text
digits_of zero n out = (n % 10 + b'0') ∷ out
digits_of (suc fuel) n out =
    let shown = (n % 10 + b'0') ∷ out in
    let more = digits_of fuel (n / 10) shown in if ltb n 10 then shown else more

unfoldable pub itoa : ℤ → Text
unfolding digits_of
itoa (pos n) = digits_of n n []
itoa (negsuc n) = b'-' ∷ digits_of (suc n) (suc n) []
