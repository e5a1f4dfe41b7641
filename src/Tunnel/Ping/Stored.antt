-- ===== src/Tunnel/Ping/Stored.antt =====
-- The map of the records: one entry for each address, and what an update leaves.
use wireproxy.Base.{
  ℕ, ◌≡◌, refl, Bool, true, false, ◌||◌, List, [], ◌∷◌, inl, inr, Bool-cases, any, All, arith,
  if◌then◌else◌,
}
use wireproxy.Host.{Addr}
use wireproxy.Text.{Text, text_eq, text_eq_iff}
use wireproxy.Tunnel.Ping.{Records, put_record, seed}

abbrev pub has_key : Text → Records → Bool
has_key addr records = any (λ e. text_eq e.0 addr) records

-- No address twice.
abbrev pub Distinct : Records → Type 0
Distinct [] = Unit
Distinct ((a, t) ∷ records) = (has_key a records ≡ false) × Distinct records

pub has_key-put_record :
    (addr a : Text) (now : ℕ) (records : Records)
    → has_key a (put_record addr now records) ≡ (text_eq addr a || has_key a records)
unfolding put_record
has_key-put_record addr a now [] = ground arith
has_key-put_record addr a now ((b, t) ∷ records) =
    ground (arith, text_eq_iff b addr, has_key-put_record addr a now records)

pub put_record-Distinct :
    (addr : Text) (now : ℕ) (records : Records)
    → Distinct records
    → Distinct (put_record addr now records)
unfolding put_record
put_record-Distinct addr now [] d = ground arith
put_record-Distinct addr now ((b, t) ∷ records) (n, d) = ground (
  arith,
  text_eq_iff b addr,
  text_eq_iff addr b,
  has_key-put_record addr b now records,
  put_record-Distinct addr now records d,
)

module _ (q : Text → ℕ → Bool) where
  -- The test with the value under one address replaced.
  abbrev pub replaced : Text → ℕ → Text → ℕ → Bool
  replaced addr now a t = q a (if text_eq addr a then now else t)

  any-replaced :
      (addr : Text) (now : ℕ) (records : Records)
      → has_key addr records ≡ false
      → any (λ e. replaced addr now e.0 e.1) records ≡ any (λ e. q e.0 e.1) records
  any-replaced addr now [] h = refl
  any-replaced addr now ((b, t) ∷ records) h =
      ground (arith, text_eq_iff b addr, text_eq_iff addr b, any-replaced addr now records)

  pub any-put_record :
      (addr : Text) (now : ℕ) (records : Records)
      → Distinct records
      → has_key addr records ≡ true
      → any (λ e. q e.0 e.1) (put_record addr now records)
        ≡ any (λ e. replaced addr now e.0 e.1) records
  unfolding put_record
  any-put_record addr now [] d h = cc
  any-put_record addr now ((b, t) ∷ records) (n, d) h = ground (
    arith,
    text_eq_iff b addr,
    text_eq_iff addr b,
    any-replaced addr now records,
    any-put_record addr now records d,
  )

  any-put_same :
      (addr : Text) (now : ℕ) (records : Records)
      → All (λ e. e.1 ≡ now) records
      → any (λ e. q e.0 e.1) (put_record addr now records)
        ≡ (any (λ e. q e.0 e.1) records || q addr now)
  unfolding put_record
  any-put_same addr now [] h = ground arith
  any-put_same addr now ((b, t) ∷ records) (e, h) =
      ground (arith, text_eq_iff b addr, any-put_same addr now records h)

put_record-All :
    (addr : Text) (now : ℕ) (records : Records)
    → All (λ e. e.1 ≡ now) records
    → All (λ e. e.1 ≡ now) (put_record addr now records)
unfolding put_record
put_record-All addr now [] h = (refl, tt)
put_record-All addr now ((b, t) ∷ records) (e, h) = elim (Bool-cases (text_eq b addr)) [
  | inl same ↦ rw same (refl, h)
  | inr other ↦ rw other (e, put_record-All addr now records h)
]

-- After the seeds, at one second.
module _ (now : ℕ) where
  pub any-seed :
      (q : Text → ℕ → Bool) (addrs : List Addr) (records : Records)
      → All (λ e. e.1 ≡ now) records
      → any (λ e. q e.0 e.1) (seed addrs now records)
        ≡ (any (λ e. q e.0 e.1) records || any (λ (a : Addr). q a.string now) addrs)
  unfolding seed
  any-seed q [] records h = ground arith
  any-seed q (a ∷ addrs) records h = ground (
    arith,
    any-seed q addrs (put_record a.string now records) (put_record-All a.string now records h),
    any-put_same q a.string now records h,
  )

  pub seed-Distinct :
      (addrs : List Addr) (records : Records) → Distinct records → Distinct (seed addrs now records)
  unfolding seed
  seed-Distinct [] records d = d
  seed-Distinct (a ∷ addrs) records d =
      seed-Distinct addrs (put_record a.string now records)
        (put_record-Distinct a.string now records d)

  pub has_key-seed :
      (addr : Text) (addrs : List Addr) (records : Records)
      → has_key addr (seed addrs now records)
        ≡ (has_key addr records || any (λ (a : Addr). text_eq a.string addr) addrs)
  unfolding seed
  has_key-seed addr [] records = ground arith
  has_key-seed addr (a ∷ addrs) records = ground (
    arith,
    has_key-seed addr addrs (put_record a.string now records),
    has_key-put_record a.string addr now records,
  )
