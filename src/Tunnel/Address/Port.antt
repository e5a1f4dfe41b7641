-- ===== src/Tunnel/Address/Port.antt =====
-- `parseAddressPort` on the addresses that `net.JoinHostPort` makes, and beside the sandbox's rules.
use wireproxy.Base.{
  false, refl, ℕ, ◌<◌, ◌≡◌, ◌↔◌, List, ◌∷◌, ◌++◌, ok, ℤ, pos, negsuc, inl, inr, Option-cases, some,
  All, arith, append_assoc, sym, ap, ◌∙◌, subst,
}
use wireproxy.Config.Types.{Routine}
use wireproxy.Sandbox.Granted.{Names, Needs, RulesOf, nil, cons}
use wireproxy.Sandbox.{Rule, extract_port, port_of_text}
use wireproxy.Text.HostPort.RoundTrip.{split_host_port-join_host_port}
use wireproxy.Text.HostPort.{has_bracket, split_host_port, join_host_port}
use wireproxy.Text.Numbers.RoundTrip.{atoi-itoa, contains_byte-itoa}
use wireproxy.Text.Numbers.{atoi, itoa}
use wireproxy.Text.{Text}
use wireproxy.Tunnel.Address.{numeric_port, parse_address_port}

-- The address of a name and a port below 65536 that are joined is parsed back into the two, where
-- the name holds no bracket.
pub parse_address_port-join_host_port :
    (name : Text) (port : ℕ)
    → has_bracket name ≡ false
    → port < 65536
    → parse_address_port (join_host_port name (itoa (pos port)))
      ≡ ok (record { address = name; port = port })
unfolding parse_address_port
parse_address_port-join_host_port name port clean small = ground (
  arith,
  split_host_port-join_host_port name (itoa (pos port)) (record {
    host_plain = clean;
    port_plain = port_plain;
    port_colon = contains_byte-itoa b':' port refl;
  }),
  atoi-itoa (pos port) (omega arith),
)
  where
    port_plain : has_bracket (itoa (pos port)) ≡ false
    port_plain =
        ground (arith, contains_byte-itoa b'[' port refl, contains_byte-itoa b']' port refl)

numeric_port_lem :
    (addr name : Text) (n : ℤ) (port : ℕ)
    → (port_of_text addr (some n) ≡ ok port)
      ↔ (numeric_port name (some n) ≡ ok (record { address = name; port = port }))
numeric_port_lem addr name (pos n) port = ground arith
numeric_port_lem addr name (negsuc n) port = ground arith

-- The sandbox takes a port from an address exactly where a tunnel does, and it takes the same one.
pub extract_port-parse_address_port :
    (addr : Text) (port : ℕ)
    → (extract_port addr ≡ ok port)
      ↔ ((name : Text) × (parse_address_port addr ≡ ok (record { address = name; port = port })))
unfolding extract_port parse_address_port
extract_port-parse_address_port addr port = elim (Option-cases (split_host_port addr)) [
  | inl bad ↦ (λ h. ground arith, λ h. ground (arith, h.1))
  | inr ((host, text), parts) ↦ elim (Option-cases (atoi text)) [
    | inl bad ↦ (λ h. ground arith, λ h. ground (arith, h.1))
    | inr (n, number) ↦ (
      λ h. (host, ground (arith, numeric_port_lem addr host n port)),
      λ h. ground (arith, h.1, numeric_port_lem addr host n port),
    )
  ]
]

-- The rule stands among the rules.
abbrev pub IsIn : Rule → List Rule → Type 0
IsIn rule rules = (before after : List Rule) × (rules ≡ before ++ rule ∷ after)

pub Names-dialed :
    (addr : Text) (port : ℕ)
    → Names addr port
    → (name : Text) × (parse_address_port addr ≡ ok (record { address = name; port = port }))
unfolding parse_address_port
Names-dialed addr port n = (n.host, ground (arith, n.parts, n.number, n.in_range))

-- What holds of a routine whose rules stand among the rules holds of all routines.
pub RulesOf-All :
    (P : List Rule → Routine → Type 0)
    → ((r : Routine) (front xs ys : List Rule) → Needs r xs → P (front ++ xs ++ ys) r)
    → {rs : List Routine} {zs : List Rule} (front : List Rule) → RulesOf rs zs
    → All (P (front ++ zs)) rs
RulesOf-All P first front nil = tt
RulesOf-All P first front (cons {r} {rs} {zs} xs ys needs more e) =
    let same : (front ++ xs) ++ ys ≡ front ++ zs =
      append_assoc front xs ys ∙ ap (λ t. front ++ t) (sym e) in
    (
      subst (λ t. P t r) same (first r front xs ys needs),
      subst (λ t. All (P t) rs) same (RulesOf-All P first (front ++ xs) more),
    )
