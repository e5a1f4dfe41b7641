-- ===== src/Text/Strings/Cut.antt =====
-- Laws of `cut` and `split`.
use wireproxy.Base.{
  ℕ, ◌≡◌, refl, ap, ◌∙◌, false, some, List, [], ◌∷◌, ◌++◌, inl, inr, Option-cases, Bool-cases, ◌==◌,
  arith, All,
}
use wireproxy.Text.Defs.{Text}
use wireproxy.Text.Strings.{contains_byte, cut, split, push_front}

pub cut-append :
    (key : Text) (sep : ℕ) (value : Text)
    → contains_byte key sep ≡ false
    → cut (key ++ sep ∷ value) sep ≡ some (key, value)
unfolding cut contains_byte
cut-append [] sep value h = ground arith
cut-append (c ∷ key) sep value h = ground (arith, cut-append key sep value)

pub cut-eq-some :
    (s : Text) (sep : ℕ) (key value : Text)
    → cut s sep ≡ some (key, value)
    → (s ≡ key ++ sep ∷ value) × (contains_byte key sep ≡ false)
unfolding cut contains_byte
cut-eq-some [] sep key value h = cc
cut-eq-some (c ∷ s) sep key value h = elim (Bool-cases (c == sep)) [
  | inl here ↦ ground arith
  | inr later ↦ elim (Option-cases (cut s sep)) [
    | inl missing ↦ absurd (ground arith)
    | inr ((k, v), found) ↦ ground (arith, cut-eq-some s sep k v found)
  ]
]

split-cons :
    (c : ℕ) (s : Text) (sep : ℕ)
    → (c == sep) ≡ false
    → split (c ∷ s) sep ≡ push_front c (split s sep)
unfolding split
split-cons c s sep h = rw h

-- A part without the separator comes off whole.
pub split-append :
    (part : Text) (sep : ℕ) (rest : Text)
    → contains_byte part sep ≡ false
    → split (part ++ sep ∷ rest) sep ≡ part ∷ split rest sep
unfolding split contains_byte
split-append [] sep rest h = ground arith
split-append (c ∷ part) sep rest h = ground (arith, split-append part sep rest)

-- Lines, each with its line end.
abbrev pub unlines : List Text → Text
unlines [] = []
unlines (l ∷ ls) = l ++ b'\n' ∷ unlines ls

pub split-unlines :
    (ls : List Text)
    → All (λ l. contains_byte l b'\n' ≡ false) ls
    → split (unlines ls) b'\n' ≡ ls ++ [] ∷ []
unfolding split
split-unlines [] h = refl
split-unlines (l ∷ ls) (p, h) =
    split-append l b'\n' (unlines ls) p ∙ ap (λ t. l ∷ t) (split-unlines ls h)
