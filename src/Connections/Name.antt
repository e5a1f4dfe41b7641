-- ===== src/Connections/Name.antt =====
-- `sanitizeConnectionName`, `connectionNamePattern` and `defaultNameFromFile`.
use wireproxy.Base.{
  ℕ, ◌≡◌, refl, Bool, true, false, ◌&&◌, ◌||◌, [], ◌∷◌, map, All, All-map, all, inl, inr, ◌==◌,
  within, if◌then◌else◌, arith, ◌⊎◌,
}
use wireproxy.Host.{Host, LowersAscii}
use wireproxy.Text.Strings.{
  is_space, trim, trim_space, trim_suffix, Starts, Ends, trim-Starts, trim-Ends, trim-All,
  trim_of_clean, trim_of_All, trim_left, trim_right,
}
use wireproxy.Text.{Text}

-- `[a-z0-9]`
abbrev pub is_alphanumeric : ℕ → Bool
is_alphanumeric c = within b'a' b'z' c || within b'0' b'9' c

-- `[a-z0-9_-]`
abbrev pub is_name_char : ℕ → Bool
is_name_char c = is_alphanumeric c || c == b'-' || c == b'_'

-- The cutset of `strings.Trim(…, "-_")`.
abbrev pub is_dash : ℕ → Bool
is_dash c = c == b'-' || c == b'_'

sanitize_rune : ℕ → ℕ
sanitize_rune r = if is_name_char r then r else b'-'

unfoldable pub sanitize_connection_name : (ℕ → ℕ) → Text → Text
unfolding sanitize_rune trim_space
sanitize_connection_name lower name = trim is_dash (map sanitize_rune (map lower (trim_space name)))

-- `connectionNamePattern.MatchString`
unfoldable pub matches_name_pattern : Text → Bool
matches_name_pattern [] = false
matches_name_pattern (c ∷ s) = is_alphanumeric c && all is_name_char s

unfoldable pub default_name_from_file : Host → Text → Text
unfolding sanitize_connection_name trim_suffix
default_name_from_file host path =
    sanitize_connection_name host.lower (trim_suffix (host.base path) (host.ext path))

abbrev IsName : Text → Type 0
IsName s = All (λ c. is_name_char c ≡ true) s

map-sanitize_rune-IsName : (s : Text) → IsName (map sanitize_rune s)
unfolding sanitize_rune
map-sanitize_rune-IsName [] = tt
map-sanitize_rune-IsName (c ∷ s) = (ground arith, map-sanitize_rune-IsName s)

all_of_IsName : (s : Text) → IsName s → all is_name_char s ≡ true
all_of_IsName [] h = refl
all_of_IsName (c ∷ s) (p, h) = rw p (all_of_IsName s h)

IsName-all : (s : Text) → all is_name_char s ≡ true → IsName s
IsName-all [] h = tt
IsName-all (c ∷ s) h = (ground arith, IsName-all s (ground arith))

matches_of_IsName :
    (s : Text) → IsName s → Starts is_dash s → (s ≡ []) ⊎ (matches_name_pattern s ≡ true)
unfolding matches_name_pattern
matches_of_IsName [] h k = inl refl
matches_of_IsName (c ∷ s) (p, h) k = inr (ground (arith, all_of_IsName s h))

-- Whatever the text, its sanitized form is empty, or is accepted by the pattern of connection
-- names and ends in neither a dash nor an underscore.
pub sanitize_connection_name-matches :
    (lower : ℕ → ℕ) (name : Text)
    → ((sanitize_connection_name lower name ≡ [])
        ⊎ (matches_name_pattern (sanitize_connection_name lower name) ≡ true))
      × Ends is_dash (sanitize_connection_name lower name)
unfolding sanitize_connection_name
sanitize_connection_name-matches lower name =
    let spelled = map sanitize_rune (map lower (trim_space name)) in
    (
      matches_of_IsName _ (trim-All is_dash _ spelled (map-sanitize_rune-IsName _))
          (trim-Starts is_dash spelled),
      trim-Ends is_dash spelled,
    )

IsName-matches : (s : Text) → matches_name_pattern s ≡ true → IsName s
unfolding matches_name_pattern
IsName-matches [] h = cc
IsName-matches (c ∷ s) h = (ground arith, IsName-all s (ground arith))

module _ (lower : ℕ → ℕ) (lowers : LowersAscii lower) where
  lower_of_is_name_char : (c : ℕ) → is_name_char c ≡ true → lower c ≡ c
  lower_of_is_name_char c h = ground (arith, lowers c)

  map-lower_of_IsName : (s : Text) → IsName s → map lower s ≡ s
  map-lower_of_IsName [] h = refl
  map-lower_of_IsName (c ∷ s) (p, h) = cc (lower_of_is_name_char c p, map-lower_of_IsName s h)

sanitize_rune_of_IsName : (s : Text) → IsName s → map sanitize_rune s ≡ s
unfolding sanitize_rune
sanitize_rune_of_IsName [] h = refl
sanitize_rune_of_IsName (c ∷ s) (p, h) = rw (p, sanitize_rune_of_IsName s h)

is_space_of_name_char : (c : ℕ) → is_name_char c ≡ true → is_space c ≡ false
unfolding is_space
is_space_of_name_char c h = ground arith

trim_space_of_IsName : (s : Text) → IsName s → trim_space s ≡ s
unfolding trim_space
trim_space_of_IsName s h = trim_of_All is_space s (All-map _ _ is_space_of_name_char s h)

Starts-matches : (s : Text) → matches_name_pattern s ≡ true → Starts is_dash s
unfolding matches_name_pattern
Starts-matches [] h = tt
Starts-matches (c ∷ s) h = ground arith

-- A name that the pattern accepts and that ends in neither a dash nor an underscore is left as
-- it is, where `lower` acts on ASCII as documented.
pub sanitize_connection_name_fixed :
    (lower : ℕ → ℕ) (name : Text)
    → LowersAscii lower
    → matches_name_pattern name ≡ true
    → Ends is_dash name
    → sanitize_connection_name lower name ≡ name
unfolding sanitize_connection_name
sanitize_connection_name_fixed lower name lowers matches ends =
    let plain = IsName-matches name matches in
    rw (trim_space_of_IsName name plain, map-lower_of_IsName lower lowers name plain)
      (rw (sanitize_rune_of_IsName name plain)
        (trim_of_clean is_dash name (Starts-matches name matches) ends))

sanitize-nil : (lower : ℕ → ℕ) → sanitize_connection_name lower [] ≡ []
unfolding sanitize_connection_name trim_space trim trim_left trim_right
sanitize-nil lower = refl

-- Sanitizing twice is sanitizing once, where `lower` acts on ASCII as documented.
pub sanitize_connection_name_idempotent :
    (lower : ℕ → ℕ) (name : Text)
    → LowersAscii lower
    → sanitize_connection_name lower (sanitize_connection_name lower name)
      ≡ sanitize_connection_name lower name
sanitize_connection_name_idempotent lower name lowers =
    elim (sanitize_connection_name-matches lower name).0 [
      | inl gone ↦ rw gone (sanitize-nil lower)
      | inr matches ↦
          sanitize_connection_name_fixed lower _ lowers matches
            (sanitize_connection_name-matches lower name).1
    ]
