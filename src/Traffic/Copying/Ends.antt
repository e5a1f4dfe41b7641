-- ===== src/Traffic/Copying/Ends.antt =====
-- How the two goroutines that copy come to their ends.
use wireproxy.Base.{
  ℕ, ◌+◌, ◌≤◌, ◌≡◌, ◌≢◌, refl, Bool, true, false, not, ◌&&◌, ◌||◌, some, List, [], ◌∷◌, ◌⊎◌,
  Option-cases, Bool-cases, inl, inr, arith,
}
use wireproxy.Traffic.Copying.{
  Conn, client, peer, Copier, inbound, outbound, CopyPhase, copying, closing, half_closed, finished,
  Pair, started, advance, advance_all, is_due,
}

-- What a goroutine in a phase has closed, beside whether the client and the peer are open.
abbrev closed_in : Conn → CopyPhase → Bool → Bool → Bool
closed_in first copying c p = true
closed_in first closing c p = true
closed_in client half_closed c p = not c
closed_in peer half_closed c p = not p
closed_in first finished c p = not c && not p

abbrev is_consistent : (Copier → Conn) → Pair → Bool
is_consistent order s =
    closed_in (order inbound) s.inbound_phase s.client_open s.peer_open
    && closed_in (order outbound) s.outbound_phase s.client_open s.peer_open

abbrev left : CopyPhase → ℕ
left copying = 3
left closing = 2
left half_closed = 1
left finished = 0

-- The steps that both can still take.
abbrev steps_left : Pair → ℕ
steps_left s = left s.inbound_phase + left s.outbound_phase

abbrev pub count : List Copier → ℕ
count [] = 0
count (c ∷ events) = 1 + count events

closed_in-client :
    (first : Conn) (q : CopyPhase) (c p : Bool)
    → closed_in first q c p ≡ true
    → closed_in first q false p ≡ true
closed_in-client first copying c p h = refl
closed_in-client first closing c p h = refl
closed_in-client client half_closed c p h = refl
closed_in-client peer half_closed c p h = h
closed_in-client first finished c p h = ground arith

closed_in-peer :
    (first : Conn) (q : CopyPhase) (c p : Bool)
    → closed_in first q c p ≡ true
    → closed_in first q c false ≡ true
closed_in-peer first copying c p h = refl
closed_in-peer first closing c p h = refl
closed_in-peer client half_closed c p h = h
closed_in-peer peer half_closed c p h = refl
closed_in-peer first finished c p h = ground arith

-- A step keeps both and is one of those left.
abbrev Keeps : (Copier → Conn) → Pair → Pair → Type 0
Keeps order s next = (is_consistent order next ≡ true) × (steps_left s ≡ 1 + steps_left next)

Conn-cases : (conn : Conn) → (conn ≡ client) ⊎ (conn ≡ peer)
Conn-cases client = inl refl
Conn-cases peer = inr refl

abbrev pair : Bool → Bool → CopyPhase → CopyPhase → Pair
pair c p q r = record { client_open = c; peer_open = p; inbound_phase = q; outbound_phase = r }

inbound-Keeps :
    (order : Copier → Conn) (c p : Bool) (q r : CopyPhase) (next : Pair)
    → is_consistent order (pair c p q r) ≡ true
    → advance order inbound (pair c p q r) ≡ some next
    → Keeps order (pair c p q r) next
unfolding advance
inbound-Keeps order c p copying r next h e = ground arith
inbound-Keeps order c p closing r next h e = elim (Conn-cases (order inbound)) [
  | inl first ↦ ground (arith, closed_in-client (order outbound) r c p)
  | inr first ↦ ground (arith, closed_in-peer (order outbound) r c p)
]
inbound-Keeps order c p half_closed r next h e = elim (Conn-cases (order inbound)) [
  | inl first ↦ ground (arith, closed_in-peer (order outbound) r c p)
  | inr first ↦ ground (arith, closed_in-client (order outbound) r c p)
]
inbound-Keeps order c p finished r next h e = cc

outbound-Keeps :
    (order : Copier → Conn) (c p : Bool) (q r : CopyPhase) (next : Pair)
    → is_consistent order (pair c p r q) ≡ true
    → advance order outbound (pair c p r q) ≡ some next
    → Keeps order (pair c p r q) next
unfolding advance
outbound-Keeps order c p copying r next h e = ground arith
outbound-Keeps order c p closing r next h e = elim (Conn-cases (order outbound)) [
  | inl first ↦ ground (arith, closed_in-client (order inbound) r c p)
  | inr first ↦ ground (arith, closed_in-peer (order inbound) r c p)
]
outbound-Keeps order c p half_closed r next h e = elim (Conn-cases (order outbound)) [
  | inl first ↦ ground (arith, closed_in-peer (order inbound) r c p)
  | inr first ↦ ground (arith, closed_in-client (order inbound) r c p)
]
outbound-Keeps order c p finished r next h e = cc

advance-Keeps :
    (order : Copier → Conn) (c : Copier) (s next : Pair)
    → is_consistent order s ≡ true
    → advance order c s ≡ some next
    → Keeps order s next
advance-Keeps order inbound s next h e =
    inbound-Keeps order s.client_open s.peer_open s.inbound_phase s.outbound_phase next h e
advance-Keeps order outbound s next h e =
    outbound-Keeps order s.client_open s.peer_open s.outbound_phase s.inbound_phase next h e

advance_all-Keeps :
    (order : Copier → Conn) (events : List Copier) (s last : Pair)
    → is_consistent order s ≡ true
    → advance_all order events s ≡ some last
    → (is_consistent order last ≡ true) × (steps_left s ≡ count events + steps_left last)
unfolding advance_all
advance_all-Keeps order [] s last h e = ground arith
advance_all-Keeps order (c ∷ events) s last h e = elim (Option-cases (advance order c s)) [
  | inl stuck ↦ absurd (ground arith)
  | inr (next, taken) ↦
      let (kept, less) = advance-Keeps order c s next h taken in
      ground (arith, less, advance_all-Keeps order events next last kept)
]

-- Both connections are closed, and both goroutines are past their ends.
abbrev pub AllClosed : Pair → Type 0
AllClosed s =
    (s.client_open ≡ false)
    × (s.peer_open ≡ false)
    × (s.inbound_phase ≡ finished)
    × (s.outbound_phase ≡ finished)

settled :
    (order : Copier → Conn) (c p : Bool) (q r : CopyPhase)
    → is_consistent order (pair c p q r) ≡ true
    → is_due inbound (pair c p q r) ≡ false
    → is_due outbound (pair c p q r) ≡ false
    → steps_left (pair c p q r) ≢ 6
    → AllClosed (pair c p q r)
unfolding is_due
settled order c p copying copying h i o n = absurd (n refl)
settled order c p copying finished h i o n = absurd (ground arith)
settled order c p finished copying h i o n = absurd (ground arith)
settled order c p finished finished h i o n = ground arith
settled order c p closing r h i o n = cc
settled order c p half_closed r h i o n = cc
settled order c p copying closing h i o n = cc
settled order c p copying half_closed h i o n = cc
settled order c p finished closing h i o n = cc
settled order c p finished half_closed h i o n = cc

left_some : (events : List Copier) (n : ℕ) → 6 ≡ count events + n → events ≢ [] → n ≢ 6
left_some [] n total some_step = λ same. some_step refl
left_some (c ∷ events) n total some_step = λ same. absurd (omega arith)

-- In whatever order each goroutine closes the two connections and however the steps of both
-- interleave: they take at most six steps, and unless no copy has returned yet, either one of them is
-- due to take its next step by itself, or both are past their ends and both connections are closed.
pub advance_all-AllClosed :
    (order : Copier → Conn) (events : List Copier) (last : Pair)
    → advance_all order events started ≡ some last
    → (count events ≤ 6)
      × ((events ≡ []) ⊎ ((is_due inbound last || is_due outbound last ≡ true) ⊎ AllClosed last))
advance_all-AllClosed order [] last e = (omega arith, inl refl)
advance_all-AllClosed order (c ∷ events) last e =
    let (kept, total) = advance_all-Keeps order (c ∷ events) started last refl e in
    (
      omega (arith, total),
      inr (elim (Bool-cases (is_due inbound last || is_due outbound last)) [
        | inl due ↦ inl due
        | inr idle ↦ inr (
            settled order last.client_open last.peer_open last.inbound_phase last.outbound_phase
              kept (ground arith) (ground arith)
              (left_some (c ∷ events) (steps_left last) total (λ none'. cc none')))
      ]),
    )
