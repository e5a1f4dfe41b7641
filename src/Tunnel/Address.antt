-- ===== src/Tunnel/Address.antt =====
-- `parseAddressPort`, `ResolveAddrWithContext` and `resolveToAddrPort`.
pub mod Port
pub mod Sorted
pub mod Family
use wireproxy.Base.{
  ℕ, ◌%◌, ◌^◌, Bool, true, false, not, ◌||◌, Option, none, some, List, [], ◌∷◌, ◌++◌, Outcome, ok,
  err, ◌>>=◌, ◌>>◌, ensure, ℤ, pos, ltb_ℤ, if◌then◌else◌,
}
use wireproxy.Config.Types.{ResolveConfig}
use wireproxy.Host.{Host, Addr}
use wireproxy.Sandbox.{to_uint16}
use wireproxy.Text.HostPort.{split_host_port}
use wireproxy.Text.Numbers.{atoi}
use wireproxy.Text.{Text, codes, text_eq}

pub record AddressPort : Type 0 where
  pub address : Text
  pub port : ℕ

pub data AddressError : Type 0 where
  not_split not_numeric : AddressError

abbrev pub numeric_port : Text → Option ℤ → Outcome AddressError AddressPort
numeric_port name none = err not_numeric
numeric_port name (some port) = do
  ensure (not (ltb_ℤ port (pos 0) || ltb_ℤ (pos 65535) port)) not_numeric
  ok (record { address = name; port = to_uint16 port })

unfoldable pub parse_address_port : Text → Outcome AddressError AddressPort
unfolding split_host_port atoi
parse_address_port endpoint = elim (split_host_port endpoint) [
  | none ↦ err not_split
  | some (name, sport) ↦ numeric_port name (atoi sport)
]

-- The loop that sorts the addresses by family.
unfoldable pub by_family :
    (Text → Outcome Text Addr) → List Text → List Addr × List Addr → List Addr × List Addr
by_family parse [] found = found
by_family parse (saddr ∷ addrs) (v4, v6) = elim (parse saddr) [
  | err e ↦ by_family parse addrs (v4, v6)
  | ok addr ↦ by_family parse addrs (
      if addr.is_4
      then (v4 ++ addr ∷ [], v6)
      else if addr.is_6
      then (v4, v6 ++ addr ∷ [])
      else (v4, v6))
]

-- `LookupAddr` on a connection, and `rand.Shuffle`.
pub record Resolver : Type 0 where
  pub system_dns : Bool
  pub system_lookup : Text → Outcome Text (List Text)
  pub net_lookup : Text → Outcome Text (List Text)
  pub shuffle : List Addr → List Addr

unfoldable pub lookup_addr : Resolver → Text → Outcome Text (List Text)
lookup_addr r name = if r.system_dns then r.system_lookup name else r.net_lookup name

abbrev pub first_of : Text → List Addr → Outcome Text Addr
first_of name [] = err (codes "no address found for: " ++ name)
first_of name (addr ∷ addrs) = ok addr

unfoldable pub resolve_addr_with_context :
    Host → Resolver → ResolveConfig → Text → Outcome Text Addr
unfolding by_family lookup_addr
resolve_addr_with_context host r strategy name = do
  addrs ← lookup_addr r name
  let found = by_family host.parse_addr addrs ([], [])
  let v4 = r.shuffle found.0
  let v6 = r.shuffle found.1
  first_of name (if text_eq strategy.resolve_strategy (codes "ipv6") then v6 ++ v4 else v4 ++ v6)

-- `netip.AddrPort`, as the address's text and the port
unfoldable pub resolve_to_addr_port :
    Host → Resolver → ResolveConfig → AddressPort → Outcome Text (Text × ℕ)
unfolding resolve_addr_with_context
resolve_to_addr_port host r strategy endpoint = do
  addr ← resolve_addr_with_context host r strategy endpoint.address
  ok (addr.string, endpoint.port)
