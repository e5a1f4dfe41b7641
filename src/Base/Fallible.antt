-- ===== src/Base/Fallible.antt =====
-- Results of fallible code. The error is a value of `E`: its message, where the source compares
-- messages, and a constructor for each kind of error elsewhere.
use mathlib.Core.Path.{◌≡◌, refl}
use mathlib.Core.Logic.{◌⊎◌, inl, inr}
use mathlib.Core.Bool.{Bool, true, false}

pub data Outcome {ℓ} (E : Type 0) (A : Type ℓ) : Type ℓ where
  ok : A → Outcome E A
  err : E → Outcome E A

infixl 5 ◌>>=◌
abbrev pub ◌>>=◌ {ℓ κ} :
    {E : Type 0} {A : Type ℓ} {B : Type κ} → Outcome E A → (A → Outcome E B) → Outcome E B
err message >>= next = err message
ok value >>= next = next value

-- `if !test { return err }`
abbrev pub ensure : {E : Type 0} → Bool → E → Outcome E (Unit {0})
ensure false message = err message
ensure true message = ok tt

infixl 5 ◌>>◌
abbrev pub ◌>>◌ {ℓ} : {E : Type 0} {B : Type ℓ} → Outcome E (Unit {0}) → Outcome E B → Outcome E B
check >> rest = check >>= λ _. rest

abbrev pub is_ok {ℓ} : {E : Type 0} {A : Type ℓ} → Outcome E A → Bool
is_ok (err message) = false
is_ok (ok value) = true

module _ {ℓ} {E : Type 0} {A : Type ℓ} where
  pub Outcome-cases : (m : Outcome E A) → ((a : A) × (m ≡ ok a)) ⊎ ((e : E) × (m ≡ err e))
  Outcome-cases (err message) = inr (message, refl)
  Outcome-cases (ok value) = inl (value, refl)

  module _ {κ} {B : Type κ} where
    pub >>=-eq-ok :
        (m : Outcome E A) (next : A → Outcome E B) {b : B}
        → m >>= next ≡ ok b
        → (a : A) × (m ≡ ok a) × (next a ≡ ok b)
    >>=-eq-ok (err message) next h = cc
    >>=-eq-ok (ok value) next h = (value, refl, h)

pub ensure-eq-ok : {E : Type 0} (b : Bool) (e : E) {u : Unit {0}} → ensure b e ≡ ok u → b ≡ true
ensure-eq-ok false e h = cc
ensure-eq-ok true e h = refl
