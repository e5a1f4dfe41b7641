-- ===== src/Tunnel/Address/Sorted.antt =====
-- The addresses of each family, and the first of a list.
use wireproxy.Base.{
  ◌≡◌, ◌⊎◌, refl, Bool, true, false, not, ◌&&◌, ◌||◌, List, [], ◌∷◌, ◌++◌, Outcome, ok, err, inl,
  inr, Outcome-cases, Bool-cases, any, is_ok, arith,
}
use wireproxy.Host.{Addr}
use wireproxy.Text.{Text}
use wireproxy.Tunnel.Address.{by_family, first_of}

-- `rand.Shuffle` reorders: what some element satisfies, some element satisfies afterwards.
abbrev pub KeepsElements : (List Addr → List Addr) → Type 0
KeepsElements shuffle = (p : Addr → Bool) (xs : List Addr) → any p (shuffle xs) ≡ any p xs

-- Some of the texts is an address of which the test holds.
abbrev pub some_address : (Text → Outcome Text Addr) → (Addr → Bool) → List Text → Bool
some_address parse test [] = false
some_address parse test (s ∷ ss) =
    let rest = some_address parse test ss in
    elim (parse s) [ err e ↦ rest | ok addr ↦ test addr || rest ]

module _ (parse : Text → Outcome Text Addr) (test : Addr → Bool) where
  pub any-append : (xs ys : List Addr) → any test (xs ++ ys) ≡ (any test xs || any test ys)
  any-append [] ys = refl
  any-append (x ∷ xs) ys = ground (arith, any-append xs ys)

  pub by_family_v4 :
      (ss : List Text) (v4 v6 : List Addr)
      → any test (by_family parse ss (v4, v6)).0
        ≡ (any test v4 || some_address parse (λ a. a.is_4 && test a) ss)
  unfolding by_family
  by_family_v4 [] v4 v6 = ground arith
  by_family_v4 (s ∷ ss) v4 v6 = elim (Outcome-cases (parse s)) [
    | inr (e, bad) ↦ ground (arith, by_family_v4 ss v4 v6)
    | inl (addr, good) ↦ ground (
      arith,
      by_family_v4 ss (v4 ++ addr ∷ []) v6,
      by_family_v4 ss v4 (v6 ++ addr ∷ []),
      by_family_v4 ss v4 v6,
      any-append v4 (addr ∷ []),
    )
  ]

  pub by_family_v6 :
      (ss : List Text) (v4 v6 : List Addr)
      → any test (by_family parse ss (v4, v6)).1
        ≡ (any test v6 || some_address parse (λ a. not a.is_4 && a.is_6 && test a) ss)
  unfolding by_family
  by_family_v6 [] v4 v6 = ground arith
  by_family_v6 (s ∷ ss) v4 v6 = elim (Outcome-cases (parse s)) [
    | inr (e, bad) ↦ ground (arith, by_family_v6 ss v4 v6)
    | inl (addr, good) ↦ ground (
      arith,
      by_family_v6 ss (v4 ++ addr ∷ []) v6,
      by_family_v6 ss v4 (v6 ++ addr ∷ []),
      by_family_v6 ss v4 v6,
      any-append v6 (addr ∷ []),
    )
  ]

module _ (parse : Text → Outcome Text Addr) where
  some_address_never :
      (test : Addr → Bool)
      → ((a : Addr) → test a ≡ false)
      → (ss : List Text) → some_address parse test ss ≡ false
  some_address_never test never [] = refl
  some_address_never test never (s ∷ ss) = elim (Outcome-cases (parse s)) [
    | inr (e, bad) ↦ ground (arith, some_address_never test never ss)
    | inl (a, good) ↦ ground (arith, never a, some_address_never test never ss)
  ]

  pub some_address_mono :
      (test other : Addr → Bool)
      → ((a : Addr) → test a ≡ true → other a ≡ true)
      → (ss : List Text) → some_address parse test ss ≡ true
      → some_address parse other ss ≡ true
  some_address_mono test other weaker [] h = cc
  some_address_mono test other weaker (s ∷ ss) h = elim (Outcome-cases (parse s)) [
    | inr (e, bad) ↦ ground (arith, some_address_mono test other weaker ss)
    | inl (a, good) ↦ ground (arith, weaker a, some_address_mono test other weaker ss)
  ]

first_of-any :
    (name : Text) (xs : List Addr) (test : Addr → Bool) {a : Addr}
    → first_of name xs ≡ ok a
    → test a ≡ true
    → any test xs ≡ true
first_of-any name [] test h t = cc
first_of-any name (x ∷ xs) test h t = ground arith

-- The address is of the wanted family, or of the other one where no address that was looked up is of
-- the wanted one; and what holds of it holds of an address that was looked up.
abbrev pub Preferred :
    (Text → Outcome Text Addr) → (Addr → Bool) → (Addr → Bool) → List Text → Addr → Type 0
Preferred parse wanted other addrs a =
    ((wanted a ≡ true) ⊎ ((other a ≡ true) × (some_address parse wanted addrs ≡ false)))
    × ((test : Addr → Bool) → test a ≡ true → some_address parse test addrs ≡ true)

module _ (parse : Text → Outcome Text Addr) (addrs : List Text) (name : Text)
    (wanted other : Addr → Bool) (first second : List Addr)
    (in_first : (t : Addr → Bool) → any t first ≡ some_address parse (λ a. wanted a && t a) addrs)
    (in_second : (t : Addr → Bool)
      → any t second ≡ some_address parse (λ a. other a && t a) addrs) where
  pub from_first : (a : Addr) → first_of name first ≡ ok a → Preferred parse wanted other addrs a
  from_first a h = (
    elim (Bool-cases (wanted a)) [
      | inl yes' ↦ inl yes'
      | inr no' ↦ ground (
        arith,
        first_of-any name first (λ b. not (wanted b)) h,
        in_first (λ b. not (wanted b)),
        some_address_never parse (λ b. wanted b && not (wanted b)) (λ b. ground arith) addrs,
      )
    ],
    λ t holds.
        some_address_mono parse (λ b. wanted b && t b) t (λ b k. ground arith) addrs
          (ground (arith, in_first t, first_of-any name first t h)),
  )

  pub from_second :
      (a : Addr)
      → any (λ b. true) first ≡ false
      → first_of name second ≡ ok a
      → Preferred parse wanted other addrs a
  from_second a none_first h = (
    elim (Bool-cases (other a)) [
      | inl yes' ↦ inr (
        yes',
        elim (Bool-cases (some_address parse wanted addrs)) [
          | inr none' ↦ none'
          | inl some' ↦ ground (
            arith,
            in_first (λ b. true),
            some_address_mono parse wanted (λ b. wanted b && true) (λ b k. ground arith) addrs
                some',
          )
        ],
      )
      | inr no' ↦ ground (
        arith,
        first_of-any name second (λ b. not (other b)) h,
        in_second (λ b. not (other b)),
        some_address_never parse (λ b. other b && not (other b)) (λ b. ground arith) addrs,
      )
    ],
    λ t holds.
        some_address_mono parse (λ b. other b && t b) t (λ b k. ground arith) addrs
          (ground (arith, in_second t, first_of-any name second t h)),
  )

pub some_address-or :
    (parse : Text → Outcome Text Addr) (one two : Addr → Bool) (ss : List Text)
    → some_address parse (λ a. one a || two a) ss
      ≡ (some_address parse one ss || some_address parse two ss)
some_address-or parse one two [] = refl
some_address-or parse one two (s ∷ ss) = elim (Outcome-cases (parse s)) [
  | inr (e, bad) ↦ ground (arith, some_address-or parse one two ss)
  | inl (a, good) ↦ ground (arith, some_address-or parse one two ss)
]

pub is_ok-first_of : (name : Text) (xs : List Addr) → is_ok (first_of name xs) ≡ any (λ b. true) xs
is_ok-first_of name [] = refl
is_ok-first_of name (x ∷ xs) = refl

pub first_of-append :
    (name : Text) (xs ys : List Addr) {a : Addr}
    → first_of name (xs ++ ys) ≡ ok a
    → (first_of name xs ≡ ok a) ⊎ ((any (λ b. true) xs ≡ false) × (first_of name ys ≡ ok a))
first_of-append name [] ys h = inr (refl, h)
first_of-append name (x ∷ xs) ys h = inl h
