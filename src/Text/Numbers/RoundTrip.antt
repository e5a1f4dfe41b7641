-- ===== src/Text/Numbers/RoundTrip.antt =====
-- A number that is written out in decimal is read back.
use wireproxy.Base.{
  ℕ, zero, suc, ◌+◌, ◌/◌, ◌%◌, ◌≤◌, ◌≡◌, refl, Bool, true, false, Option, none, some, [], ◌∷◌, ℤ,
  pos, negsuc, pos_part, neg_part, inl, inr, Bool-cases, ltb, ◌==◌, arith,
}
use wireproxy.Text.Defs.{Text}
use wireproxy.Text.Strings.{contains_byte}
use wireproxy.Text.Numbers.{
  is_digit, digits_onto, signed, magnitude, sign_of, atoi, digits_of, itoa, max_int,
}

digits_onto-digits_of :
    (fuel n : ℕ) (out : Text) → n ≤ fuel → digits_onto 0 (digits_of fuel n out) ≡ digits_onto n out
unfolding digits_onto digits_of
digits_onto-digits_of zero n out h = ground arith
digits_onto-digits_of (suc fuel) n out h =
    ground (arith, digits_onto-digits_of fuel (n / 10) ((n % 10 + b'0') ∷ out))

-- The digits start with one.
digits_of_head :
    (fuel n : ℕ) (out : Text)
    → (c : ℕ) × (rest : Text) × (digits_of fuel n out ≡ c ∷ rest) × (is_digit c ≡ true)
unfolding digits_of
digits_of_head zero n out = (n % 10 + b'0', out, refl, ground arith)
digits_of_head (suc fuel) n out = elim (Bool-cases (ltb n 10)) [
  | inl small ↦ (n % 10 + b'0', out, rw small, ground arith)
  | inr large ↦
      let (c, rest, e, d) = digits_of_head fuel (n / 10) ((n % 10 + b'0') ∷ out) in
      (c, rest, rw large e, d)
]

magnitude-digits_of : (n : ℕ) → magnitude (digits_of n n []) ≡ some n
unfolding magnitude
magnitude-digits_of n =
    let (c, rest, e, d) = digits_of_head n n [] in
    ground (arith, digits_onto-digits_of n n [] (omega arith), digits_onto_nil n)
  where
    digits_onto_nil : (m : ℕ) → digits_onto m [] ≡ some m
    digits_onto_nil m = refl

-- The range of a 64-bit `int`.
abbrev pub IsInt : ℤ → Type 0
IsInt n = (pos_part n ≤ max_int) × (neg_part n ≤ max_int + 1)

-- A number in the range of `int` is what its decimal text reads as.
pub atoi-itoa : (n : ℤ) → IsInt n → atoi (itoa n) ≡ some n
unfolding atoi itoa signed
atoi-itoa (pos n) h =
    let (c, rest, e, d) = digits_of_head n n [] in ground (arith, magnitude-digits_of n)
atoi-itoa (negsuc n) h = ground (arith, magnitude-digits_of (suc n))

signed-IsInt : (minus : Bool) (m : ℕ) {n : ℤ} → signed minus m ≡ some n → IsInt n
unfolding signed
signed-IsInt false m h = ground arith
signed-IsInt true zero h = ground arith
signed-IsInt true (suc m) h = ground arith

sign_of-IsInt : (minus : Bool) (o : Option ℕ) {n : ℤ} → sign_of minus o ≡ some n → IsInt n
sign_of-IsInt minus none h = cc
sign_of-IsInt minus (some m) h = signed-IsInt minus m h

-- What is read is in the range.
pub atoi-IsInt : (s : Text) {n : ℤ} → atoi s ≡ some n → IsInt n
unfolding atoi
atoi-IsInt [] h = cc
atoi-IsInt (c ∷ s) h = elim (Bool-cases (c == b'-')) [
  | inl minus ↦ sign_of-IsInt true (magnitude s) (ground arith)
  | inr other ↦ elim (Bool-cases (c == b'+')) [
    | inl plus ↦ sign_of-IsInt false (magnitude s) (ground arith)
    | inr bare ↦ sign_of-IsInt false (magnitude (c ∷ s)) (ground arith)
  ]
]

-- No other byte stands in the digits.
contains_byte-digits_of :
    (b fuel n : ℕ) (out : Text)
    → is_digit b ≡ false
    → contains_byte out b ≡ false
    → contains_byte (digits_of fuel n out) b ≡ false
unfolding digits_of contains_byte
contains_byte-digits_of b zero n out h clean = ground arith
contains_byte-digits_of b (suc fuel) n out h clean =
    ground (arith, contains_byte-digits_of b fuel (n / 10) ((n % 10 + b'0') ∷ out) h)

pub contains_byte-itoa : (b n : ℕ) → is_digit b ≡ false → contains_byte (itoa (pos n)) b ≡ false
unfolding itoa contains_byte
contains_byte-itoa b n h = contains_byte-digits_of b n n [] h refl
