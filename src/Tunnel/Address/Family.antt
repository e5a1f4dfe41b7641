-- ===== src/Tunnel/Address/Family.antt =====
-- Which of the addresses that a name has is dialed.
use wireproxy.Base.{
  ◌≡◌, Bool, true, not, ◌&&◌, ◌||◌, List, [], ◌++◌, ok, inl, inr, Bool-cases, any, is_ok, arith,
  if◌then◌else◌,
}
use wireproxy.Config.Types.{ResolveConfig}
use wireproxy.Host.{Host, Addr}
use wireproxy.Text.{Text, codes, text_eq}
use wireproxy.Tunnel.Address.{Resolver, by_family, lookup_addr, resolve_addr_with_context}
use wireproxy.Tunnel.Address.Sorted.{
  KeepsElements, some_address, Preferred, any-append, by_family_v4, by_family_v6, some_address_mono,
  from_first, from_second, some_address-or, is_ok-first_of, first_of-append,
}

abbrev pub is_v4 : Addr → Bool
is_v4 a = a.is_4

abbrev pub is_v6 : Addr → Bool
is_v6 a = not a.is_4 && a.is_6

abbrev pub wants_v6 : ResolveConfig → Bool
wants_v6 strategy = text_eq strategy.resolve_strategy (codes "ipv6")

module _ (host : Host) (r : Resolver) (keeps : KeepsElements r.shuffle) (addrs : List Text) where
  abbrev v4 : List Addr
  v4 = r.shuffle (by_family host.parse_addr addrs ([], [])).0

  abbrev v6 : List Addr
  v6 = r.shuffle (by_family host.parse_addr addrs ([], [])).1

  in_v4 : (t : Addr → Bool) → any t v4 ≡ some_address host.parse_addr (λ a. is_v4 a && t a) addrs
  in_v4 t = ground (
    arith,
    keeps t (by_family host.parse_addr addrs ([], [])).0,
    by_family_v4 host.parse_addr t addrs [] [],
  )

  in_v6 : (t : Addr → Bool) → any t v6 ≡ some_address host.parse_addr (λ a. is_v6 a && t a) addrs
  in_v6 t = ground (
    arith,
    keeps t (by_family host.parse_addr addrs ([], [])).1,
    by_family_v6 host.parse_addr t addrs [] [],
  )

  -- Where a name resolves, the address is of the family that the strategy prefers, or of the other
  -- one where the name has none of the preferred one; and what holds of it holds of an address that
  -- was looked up. The shuffles may reorder as they like.
  pub resolve_addr_with_context-Preferred :
      (strategy : ResolveConfig) (name : Text) (a : Addr)
      → lookup_addr r name ≡ ok addrs
      → resolve_addr_with_context host r strategy name ≡ ok a
      → Preferred host.parse_addr
          (if wants_v6 strategy then is_v6 else is_v4)
          (if wants_v6 strategy then is_v4 else is_v6)
          addrs
          a
  unfolding resolve_addr_with_context
  resolve_addr_with_context-Preferred strategy name a looked h =
      elim (Bool-cases (wants_v6 strategy)) [
        | inl six ↦ rw six (elim (first_of-append name v6 v4 {a = a} (ground arith)) [
          | inl f ↦ from_first host.parse_addr addrs name is_v6 is_v4 v6 v4 in_v6 in_v4 a f
          | inr (e, f) ↦ from_second host.parse_addr addrs name is_v6 is_v4 v6 v4 in_v6 in_v4 a e f
        ])
        | inr four ↦ rw four (elim (first_of-append name v4 v6 {a = a} (ground arith)) [
          | inl f ↦ from_first host.parse_addr addrs name is_v4 is_v6 v4 v6 in_v4 in_v6 a f
          | inr (e, f) ↦ from_second host.parse_addr addrs name is_v4 is_v6 v4 v6 in_v4 in_v6 a e f
        ])
      ]

  any_family :
      (wanted : Addr → Bool) (xs : List Addr)
      → ((t : Addr → Bool) → any t xs ≡ some_address host.parse_addr (λ a. wanted a && t a) addrs)
      → any (λ b. true) xs ≡ some_address host.parse_addr wanted addrs
  any_family wanted xs counts = elim (Bool-cases (some_address host.parse_addr wanted addrs)) [
    | inl some' ↦ ground (
      arith,
      counts (λ b. true),
      some_address_mono host.parse_addr wanted (λ b. wanted b && true) (λ b k. ground arith) addrs,
    )
    | inr none' ↦ elim (Bool-cases (any (λ b. true) xs)) [
      | inl found ↦ ground (
        arith,
        counts (λ b. true),
        some_address_mono host.parse_addr (λ b. wanted b && true) wanted (λ b k. ground arith)
            addrs,
      )
      | inr nothing ↦ ground arith
    ]
  ]

  -- A name whose lookup succeeds resolves exactly where some text that was looked up is an address
  -- of either family, whatever the strategy, where the shuffles keep what they reorder.
  pub is_ok-resolve_addr_with_context :
      (strategy : ResolveConfig) (name : Text)
      → lookup_addr r name ≡ ok addrs
      → is_ok (resolve_addr_with_context host r strategy name)
        ≡ some_address host.parse_addr (λ a. is_v4 a || is_v6 a) addrs
  unfolding resolve_addr_with_context
  is_ok-resolve_addr_with_context strategy name looked = ground (
    arith,
    some_address-or host.parse_addr is_v4 is_v6 addrs,
    any_family is_v4 v4 in_v4,
    any_family is_v6 v6 in_v6,
    is_ok-first_of name (v6 ++ v4),
    is_ok-first_of name (v4 ++ v6),
    any-append host.parse_addr (λ b. true) v4 v6,
    any-append host.parse_addr (λ b. true) v6 v4,
  )
