-- ===== src/Health/Readiness.antt =====
-- The status of `/readyz`, which does not depend on the order of the connections.
use wireproxy.Base.{ℕ, ◌≡◌, refl, Bool, ◌||◌, List, [], ◌∷◌, map, any, arith, if◌then◌else◌}
use wireproxy.Health.{
  Registry, PingSnapshot, stale, snapshot_of, insert, sort_by_name, snapshot, readyz_loop, readyz,
  put_report,
}
use wireproxy.Text.{Text}

module _ {A : Type 0} (name_of : A → Text) (test : A → Bool) where
  any-insert : (a : A) (as' : List A) → any test (insert name_of a as') ≡ (test a || any test as')
  unfolding insert
  any-insert a [] = refl
  any-insert a (b ∷ bs) = ground (arith, any-insert a bs)

  any-sort_by_name : (as' : List A) → any test (sort_by_name name_of as') ≡ any test as'
  unfolding sort_by_name
  any-sort_by_name [] = refl
  any-sort_by_name (a ∷ as') =
      ground (arith, any-insert a (sort_by_name name_of as'), any-sort_by_name as')

any-map :
    {A B : Type 0} (f : A → B) (test : B → Bool) (as' : List A)
    → any test (map f as') ≡ any (λ a. test (f a)) as'
any-map f test [] = refl
any-map f test (a ∷ as') = ground (arith, any-map f test as')

readyz_loop-status :
    (now : ℕ) (snaps : List PingSnapshot) (status : ℕ) (report : List (Text × List (Text × ℕ)))
    → (readyz_loop now snaps status report).0 ≡ (if any (stale now) snaps then 503 else status)
unfolding readyz_loop
readyz_loop-status now [] status report = refl
readyz_loop-status now (s ∷ snaps) status report = ground (
  arith,
  readyz_loop-status now snaps (if stale now s then 503 else status)
      (put_report s.name s.records report),
)

-- The status of `/readyz` is 503 where some registered connection is stale and 200 where none is, in
-- whatever order they were registered.
pub readyz-any :
    (now : ℕ) (conns : Registry)
    → (readyz now conns).0 ≡ (if any (λ vt. stale now (snapshot_of vt)) conns then 503 else 200)
unfolding readyz snapshot
readyz-any now conns = ground (
  arith,
  readyz_loop-status now (snapshot conns) 200 [],
  any-sort_by_name (λ s. s.name) (stale now) (map snapshot_of conns),
  any-map snapshot_of (stale now) conns,
)
