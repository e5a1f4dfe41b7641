-- ===== src/Text/Strings/Trim.antt =====
-- `strings.TrimFunc`, `Trim` and `TrimSpace`.
use wireproxy.Base.{
  ℕ, Bool, false, ◌&&◌, ◌||◌, [], ◌∷◌, ◌==◌, if◌then◌else◌, within, ◌≡◌, refl, arith, is_empty, All,
  Bool-cases, inl, inr,
}
use wireproxy.Text.Defs.{Text}

unfoldable pub trim_left : (ℕ → Bool) → Text → Text
trim_left p [] = []
trim_left p (c ∷ s) = let rest = trim_left p s in if p c then rest else c ∷ s

unfoldable pub trim_right : (ℕ → Bool) → Text → Text
trim_right p [] = []
trim_right p (c ∷ s) = let rest = trim_right p s in if p c && is_empty rest then [] else c ∷ rest

unfoldable pub trim : (ℕ → Bool) → Text → Text
unfolding trim_left trim_right
trim p s = trim_right p (trim_left p s)

-- `unicode.IsSpace`
unfoldable pub is_space : ℕ → Bool
is_space c =
    within 9 13 c
    || c == 32
    || c == 0x85
    || c == 0xA0
    || c == 0x1680
    || within 0x2000 0x200A c
    || within 0x2028 0x2029 c
    || c == 0x202F
    || c == 0x205F
    || c == 0x3000

unfoldable pub trim_space : Text → Text
unfolding trim is_space
trim_space s = trim is_space s

-- The first code point, if there is one, is not in the cutset.
abbrev pub Starts : (ℕ → Bool) → Text → Type 0
Starts p [] = Unit
Starts p (c ∷ s) = p c ≡ false

-- Nor is the last.
abbrev pub Ends : (ℕ → Bool) → Text → Type 0
Ends p [] = Unit
Ends p (c ∷ []) = p c ≡ false
Ends p (c ∷ d ∷ s) = Ends p (d ∷ s)

module _ (p : ℕ → Bool) where
  trim_left-Starts : (s : Text) → Starts p (trim_left p s)
  unfolding trim_left
  trim_left-Starts [] = tt
  trim_left-Starts (c ∷ s) = ground (arith, trim_left-Starts s)

  trim_right-Starts : (s : Text) → Starts p s → Starts p (trim_right p s)
  unfolding trim_right
  trim_right-Starts [] h = tt
  trim_right-Starts (c ∷ s) h = ground arith

  Ends-cons : (c : ℕ) (s : Text) → Ends p s → p c && is_empty s ≡ false → Ends p (c ∷ s)
  Ends-cons c [] h k = ground arith
  Ends-cons c (d ∷ s) h k = h

  trim_right-Ends : (s : Text) → Ends p (trim_right p s)
  unfolding trim_right
  trim_right-Ends [] = tt
  trim_right-Ends (c ∷ s) = elim (Bool-cases (p c && is_empty (trim_right p s))) [
    | inl gone ↦ rw gone tt
    | inr kept ↦ rw kept (Ends-cons c (trim_right p s) (trim_right-Ends s) kept)
  ]

  pub trim-Starts : (s : Text) → Starts p (trim p s)
  unfolding trim
  trim-Starts s = trim_right-Starts (trim_left p s) (trim_left-Starts s)

  pub trim-Ends : (s : Text) → Ends p (trim p s)
  unfolding trim
  trim-Ends s = trim_right-Ends (trim_left p s)

  trim_left_of_Starts : (s : Text) → Starts p s → trim_left p s ≡ s
  unfolding trim_left
  trim_left_of_Starts [] h = refl
  trim_left_of_Starts (c ∷ s) h = rw h

  trim_right_of_Ends : (s : Text) → Ends p s → trim_right p s ≡ s
  unfolding trim_right
  trim_right_of_Ends [] h = refl
  trim_right_of_Ends (c ∷ []) h = rw h
  trim_right_of_Ends (c ∷ d ∷ s) h = rw (trim_right_of_Ends (d ∷ s) h) (ground arith)

  -- A text with clean ends is left as it is.
  pub trim_of_clean : (s : Text) → Starts p s → Ends p s → trim p s ≡ s
  unfolding trim
  trim_of_clean s h k = rw (trim_left_of_Starts s h) (trim_right_of_Ends s k)

  All-Starts : (s : Text) → All (λ c. p c ≡ false) s → Starts p s
  All-Starts [] h = tt
  All-Starts (c ∷ s) h = h.0

  All-Ends : (s : Text) → All (λ c. p c ≡ false) s → Ends p s
  All-Ends [] h = tt
  All-Ends (c ∷ []) h = h.0
  All-Ends (c ∷ d ∷ s) h = All-Ends (d ∷ s) h.1

  -- So is one that has nothing of the cutset in it.
  pub trim_of_All : (s : Text) → All (λ c. p c ≡ false) s → trim p s ≡ s
  trim_of_All s h = trim_of_clean s (All-Starts s h) (All-Ends s h)

module _ {κ} (p : ℕ → Bool) (Q : ℕ → Type κ) where
  trim_left-All : (s : Text) → All Q s → All Q (trim_left p s)
  unfolding trim_left
  trim_left-All [] h = tt
  trim_left-All (c ∷ s) h = elim (Bool-cases (p c)) [
    | inl out ↦ rw out (trim_left-All s h.1)
    | inr kept ↦ rw kept h
  ]

  trim_right-All : (s : Text) → All Q s → All Q (trim_right p s)
  unfolding trim_right
  trim_right-All [] h = tt
  trim_right-All (c ∷ s) h = elim (Bool-cases (p c && is_empty (trim_right p s))) [
    | inl gone ↦ rw gone tt
    | inr kept ↦ rw kept (h.0, trim_right-All s h.1)
  ]

  -- Trimming keeps what holds of every code point.
  pub trim-All : (s : Text) → All Q s → All Q (trim p s)
  unfolding trim
  trim-All s h = trim_right-All (trim_left p s) (trim_left-All s h)
