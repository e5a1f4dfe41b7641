-- ===== src/Backend/Gate.antt =====
-- The loop of `startTsnet` that waits for the node, and its fuel.
use wireproxy.Backend.{Poll, failed, in_state, gate}
use wireproxy.Base.{
  ℕ, zero, suc, ltb, ◌≡◌, ◌≤◌, refl, ◌<◌, ◌+◌, ◌*◌, some, ◌⊎◌, inl, inr, ◌||◌, Bool-cases, arith,
}
use wireproxy.Text.{Text, codes, text_eq}

Poll-cases : (p : Poll) → (p ≡ failed) ⊎ ((s : Text) × (p ≡ in_state s))
Poll-cases failed = inl refl
Poll-cases (in_state s) = inr (s, refl)

pub gate-ends :
    (polls : ℕ → Poll × ℕ) (fuel k now : ℕ)
    → now ≤ 15000
    → 15000 < now + 250 * fuel
    → (t : ℕ) × (gate polls fuel k now ≡ some t)
unfolding gate
gate-ends polls zero k now early enough = absurd (omega arith)
gate-ends polls (suc fuel) k now early enough = elim (Poll-cases (polls k).0) [
  | inl bad ↦ (now + (polls k).1, ground arith)
  | inr (s, got) ↦
      elim (Bool-cases (text_eq s (codes "Running") || text_eq s (codes "NeedsLogin"))) [
        | inl usable ↦ (now + (polls k).1, ground arith)
        | inr other ↦ elim (Bool-cases (ltb 15_000 (now + (polls k).1 + 250))) [
          | inl done ↦ (now + (polls k).1, ground arith)
          | inr more ↦
              let (t, ends) =
                gate-ends polls fuel (suc k) (now + (polls k).1 + 250) (ground arith)
                  (ground arith) in
              (t, ground (arith, ends))
        ]
      ]
]
