-- ===== src/UdpProxy/Store.antt =====
-- What the map and the pointers of the proxy hold after an update.
use wireproxy.Base.{
  ℕ, zero, suc, ◌<◌, ◌≡◌, refl, none, some, List, [], ◌∷◌, ◌++◌, length, ◌==◌, arith, if◌then◌else◌,
}
use wireproxy.Text.{Text, text_eq, text_eq_iff}
use wireproxy.UdpProxy.{Session, find, delete, get, put}

-- No key twice.
abbrev pub Distinct : List (Text × ℕ) → Type 0
Distinct [] = Unit
Distinct ((k, id) ∷ t) = (find k t ≡ none) × Distinct t

pub get-put :
    (i j : ℕ) (r : Session) (ss : List Session) {s : Session}
    → get i ss ≡ some s
    → get j (put i r ss) ≡ (if i == j then some r else get j ss)
unfolding get put
get-put i j r [] h = cc
get-put zero zero r (s ∷ ss) h = refl
get-put zero (suc j) r (s ∷ ss) h = ground arith
get-put (suc i) zero r (s ∷ ss) h = ground arith
get-put (suc i) (suc j) r (s ∷ ss) h = ground (arith, get-put i j r ss h)

pub get-concat :
    (j : ℕ) (r : Session) (ss : List Session)
    → get j (ss ++ r ∷ []) ≡ (if j == length ss then some r else get j ss)
unfolding get
get-concat zero r [] = refl
get-concat (suc j) r [] = ground arith
get-concat zero r (s ∷ ss) = ground arith
get-concat (suc j) r (s ∷ ss) = ground (arith, get-concat j r ss)

pub get-some-lt : (j : ℕ) (ss : List Session) {s : Session} → get j ss ≡ some s → j < length ss
unfolding get
get-some-lt j [] h = cc
get-some-lt zero (s ∷ ss) h = omega arith
get-some-lt (suc j) (s ∷ ss) h = omega (arith, get-some-lt j ss h)

pub find-cons :
    (src k : Text) (id : ℕ) (t : List (Text × ℕ))
    → find src ((k, id) ∷ t) ≡ (if text_eq k src then some id else find src t)
unfolding find
find-cons src k id t = refl

pub find-delete :
    (src k : Text) (t : List (Text × ℕ))
    → find src (delete k t) ≡ (if text_eq k src then none else find src t)
unfolding find delete
find-delete src k [] = ground arith
find-delete src k ((j, id) ∷ t) =
    ground (arith, text_eq_iff k src, text_eq_iff j src, text_eq_iff j k, find-delete src k t)

pub delete-Distinct : (k : Text) (t : List (Text × ℕ)) → Distinct t → Distinct (delete k t)
unfolding find delete
delete-Distinct k [] h = tt
delete-Distinct k ((j, id) ∷ t) (f, h) = ground (arith, find-delete j k t, delete-Distinct k t h)
