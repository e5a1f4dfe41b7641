-- ===== src/Base/Fresh.antt =====
-- A loop that refuses a key seen before, over a list whose elements have at most one key each.
use mathlib.Core.Path.{◌≡◌, refl}
use mathlib.Core.Bool.{Bool, false}
use mathlib.Core.List.{List, [], ◌∷◌}
use mathlib.Core.Option.{Option, none, some}
use native.Mathlib.Omega.{arith}
use wireproxy.Base.Lists.{All, Pairwise, any}

module _ {ℓ} {A : Type ℓ} where
  abbrev pub cons? : Option A → List A → List A
  cons? none ks = ks
  cons? (some k) ks = k ∷ ks

  module _ {κ} {B : Type κ} (p : B → Option A) where
    -- The keys of the list, in order.
    abbrev pub keys_of : List B → List A
    keys_of [] = []
    keys_of (b ∷ bs) = cons? (p b) (keys_of bs)

module _ {ℓ} {A : Type ℓ} (same : A → A → Bool) where
  abbrev pub is_among : A → List A → Bool
  is_among k ks = any (λ u. same u k) ks

  abbrev pub IsFresh : Option A → List A → Type 0
  IsFresh none ks = Unit
  IsFresh (some k) ks = is_among k ks ≡ false

  -- No two of the list are the same.
  abbrev pub NoRepeat : List A → Type 0
  NoRepeat = Pairwise (λ a b. same a b ≡ false)

  module _ {κ} {B : Type κ} (p : B → Option A) where
    -- Each element's key was fresh when the loop came to it, `ks` having been seen before.
    abbrev pub FreshRun : List A → List B → Type 0
    FreshRun ks [] = Unit
    FreshRun ks (b ∷ bs) = IsFresh (p b) ks × FreshRun (cons? (p b) ks) bs

  abbrev AllFresh : List A → List A → Type 0
  AllFresh ks = All (λ b. is_among b ks ≡ false)

  AllFresh-tail : (k : A) (ks xs : List A) → AllFresh (k ∷ ks) xs → AllFresh ks xs
  AllFresh-tail k ks [] h = tt
  AllFresh-tail k ks (x ∷ xs) h = ground (arith, AllFresh-tail k ks xs h.1)

  AllFresh-head : (k : A) (ks xs : List A) → AllFresh (k ∷ ks) xs → All (λ b. same k b ≡ false) xs
  AllFresh-head k ks [] h = tt
  AllFresh-head k ks (x ∷ xs) h = ground (arith, AllFresh-head k ks xs h.1)

  NoRepeat-cons? :
      (o : Option A) (ks xs : List A)
      → IsFresh o ks
      → NoRepeat xs × AllFresh (cons? o ks) xs
      → NoRepeat (cons? o xs) × AllFresh ks (cons? o xs)
  NoRepeat-cons? none ks xs f h = h
  NoRepeat-cons? (some k) ks xs f (h, a) =
      ((AllFresh-head k ks xs a, h), (f, AllFresh-tail k ks xs a))

  module _ {κ} {B : Type κ} (p : B → Option A) where
    pub FreshRun-NoRepeat :
        (ks : List A) (bs : List B)
        → FreshRun p ks bs
        → NoRepeat (keys_of p bs) × AllFresh ks (keys_of p bs)
    FreshRun-NoRepeat ks [] h = (tt, tt)
    FreshRun-NoRepeat ks (b ∷ bs) h =
        NoRepeat-cons? (p b) ks (keys_of p bs) h.0 (FreshRun-NoRepeat (cons? (p b) ks) bs h.1)

  AllFresh-cons :
      (k : A) (ks xs : List A)
      → AllFresh ks xs
      → All (λ b. same k b ≡ false) xs
      → AllFresh (k ∷ ks) xs
  AllFresh-cons k ks [] h d = tt
  AllFresh-cons k ks (x ∷ xs) (h, hs) (d, ds) = (ground arith, AllFresh-cons k ks xs hs ds)

  module _ {κ} {B : Type κ} (p : B → Option A) where
    FreshRun-cons? :
        (o : Option A) (ks : List A) (bs : List B)
        → ((ks' : List A)
            → NoRepeat (keys_of p bs)
            → AllFresh ks' (keys_of p bs)
            → FreshRun p ks' bs)
        → NoRepeat (cons? o (keys_of p bs))
        → AllFresh ks (cons? o (keys_of p bs))
        → IsFresh o ks × FreshRun p (cons? o ks) bs
    FreshRun-cons? none ks bs later n a = (tt, later ks n a)
    FreshRun-cons? (some k) ks bs later (d, n) (f, a) =
        (f, later (k ∷ ks) n (AllFresh-cons k ks (keys_of p bs) a d))

    -- The loop comes to fresh keys where no two keys are the same, nor one of them seen before.
    NoRepeat-FreshRun :
        (ks : List A) (bs : List B)
        → NoRepeat (keys_of p bs)
        → AllFresh ks (keys_of p bs)
        → FreshRun p ks bs
    NoRepeat-FreshRun ks [] n a = tt
    NoRepeat-FreshRun ks (b ∷ bs) n a =
        FreshRun-cons? (p b) ks bs (λ ks'. NoRepeat-FreshRun ks' bs) n a

    AllFresh-nil : (xs : List A) → AllFresh [] xs
    AllFresh-nil [] = tt
    AllFresh-nil (x ∷ xs) = (refl, AllFresh-nil xs)

    pub NoRepeat-FreshRun_nil : (bs : List B) → NoRepeat (keys_of p bs) → FreshRun p [] bs
    NoRepeat-FreshRun_nil bs n = NoRepeat-FreshRun [] bs n (AllFresh-nil (keys_of p bs))
