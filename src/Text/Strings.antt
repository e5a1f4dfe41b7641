-- ===== src/Text/Strings.antt =====
-- The functions of Go's `strings` package that the program calls, over code points. A separator
-- or cutset is a predicate or a single code point, as at every call in the source.
mod Trim
pub mod Cut
unfoldable pub use Trim.*
use mathlib.Core.Option
use wireproxy.Base.{
  ℕ, Bool, true, false, ◌&&◌, ◌||◌, List, [], ◌∷◌, ◌++◌, Option, none, some, ◌==◌, if◌then◌else◌,
  within, ◌≡◌, refl, ◌≢◌, arith, is_empty, reverse,
}
use wireproxy.Text.Defs.{Text, text_eq}

unfoldable pub has_prefix : Text → Text → Bool
has_prefix s [] = true
has_prefix [] (p ∷ ps) = false
has_prefix (c ∷ s) (p ∷ ps) = c == p && has_prefix s ps

unfoldable pub trim_prefix : Text → Text → Text
trim_prefix s [] = s
trim_prefix [] (p ∷ ps) = []
trim_prefix (c ∷ s) (p ∷ ps) =
    let rest = trim_prefix s ps in if has_prefix (c ∷ s) (p ∷ ps) then rest else c ∷ s

unfoldable pub has_suffix : Text → Text → Bool
unfolding has_prefix
has_suffix s p = has_prefix (reverse s) (reverse p)

unfoldable pub trim_suffix : Text → Text → Text
unfolding trim_prefix has_prefix
trim_suffix s p = reverse (trim_prefix (reverse s) (reverse p))

unfoldable pub contains : Text → Text → Bool
unfolding has_prefix
contains [] sub = is_empty sub
contains (c ∷ s) sub = has_prefix (c ∷ s) sub || contains s sub

unfoldable pub contains_byte : Text → ℕ → Bool
contains_byte [] b = false
contains_byte (c ∷ s) b = c == b || contains_byte s b

-- `strings.Replace(s, old, new, 1)` for a non-empty `old`
unfoldable pub replace_first : Text → Text → Text → Text
unfolding has_prefix trim_prefix
replace_first [] old new = []
replace_first (c ∷ s) old new =
    let later = c ∷ replace_first s old new in
    if has_prefix (c ∷ s) old then new ++ trim_prefix (c ∷ s) old else later

abbrev pub push_front : ℕ → List Text → List Text
push_front c [] = (c ∷ []) ∷ []
push_front c (w ∷ ws) = (c ∷ w) ∷ ws

-- `strings.Split(s, sep)` for a separator of one byte
unfoldable pub split : Text → ℕ → List Text
split [] sep = [] ∷ []
split (c ∷ s) sep = if c == sep then [] ∷ split s sep else push_front c (split s sep)

-- What stands before and behind the first `sep`: `IndexByte`, and `SplitN(s, sep, 2)`, which has
-- one part where this is `none`.
unfoldable pub cut : Text → ℕ → Option (Text × Text)
cut [] sep = none
cut (c ∷ s) sep = if c == sep then some ([], s) else Option.map (λ p. (c ∷ p.0, p.1)) (cut s sep)
