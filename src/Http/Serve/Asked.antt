-- ===== src/Http/Serve/Asked.antt =====
-- The address that a request asks for, told without the code that adds the port.
use wireproxy.Base.{
  ◌≡◌, ◌↔◌, refl, subst, sym, true, false, Option, none, some, [], ◌∷◌, ◌++◌, ◌⊎◌, inl, inr,
  Bool-cases, arith,
}
use wireproxy.Http.Authentic.{Carries, authenticate_iff}
use wireproxy.Http.Serve.Dialed.{wanted, wanted_if, wanted_of, serve-dials}
use wireproxy.Http.Serve.{Request, World, serve}
use wireproxy.Http.{HttpServer, Answer, allowed, refused, authenticate, dial_address}
use wireproxy.Text.HostPort.{join_host_port}
use wireproxy.Text.Strings.{contains_byte}
use wireproxy.Text.{Text, codes, text_eq, text_eq_iff}
use wireproxy.Traffic.{named, dials}

-- A host with a colon stands for itself; another one gets the port behind a colon.
abbrev pub IsAddressOf : Text → Text → Text → Type 0
IsAddressOf host port addr =
    ((contains_byte host b':' ≡ true) × (addr ≡ host))
    ⊎ ((contains_byte host b':' ≡ false) × (addr ≡ host ++ port))

-- A CONNECT asks for port 443 of a host without a port, a GET for port 80, and no other method for any
-- address.
abbrev pub Asks : Request → Text → Type 0
Asks req addr =
    ((req.method ≡ codes "CONNECT") × IsAddressOf req.host (codes ":443") addr)
    ⊎ ((req.method ≡ codes "GET") × IsAddressOf req.host (codes ":80") addr)

-- Nobody has to authenticate, or the header carries the configured credentials.
abbrev pub IsLetThrough : HttpServer → Request → Type 0
IsLetThrough s req = (s.auth_required ≡ false) ⊎ Carries req.authorization s.auth

dial_address_iff :
    (host port addr : Text) → (dial_address host port ≡ addr) ↔ IsAddressOf host (b':' ∷ port) addr
unfolding dial_address join_host_port
dial_address_iff host port addr = ground arith

wanted_iff : (req : Request) (addr : Text) → (wanted req ≡ named addr ∷ []) ↔ Asks req addr
wanted_iff req addr = ground (
  arith,
  text_eq_iff req.method (codes "CONNECT"),
  text_eq_iff req.method (codes "GET"),
  dial_address_iff req.host (codes "443") addr,
  dial_address_iff req.host (codes "80") addr,
)

authenticate-IsLetThrough :
    (s : HttpServer) (req : Request)
    → (authenticate s req.authorization ≡ allowed) ↔ IsLetThrough s req
unfolding authenticate
authenticate-IsLetThrough s req = ground (arith, authenticate_iff s req.authorization)

wanted_if-named :
    (req : Request) (addr : Text) (a : Answer)
    → (wanted_if req a ≡ named addr ∷ []) ↔ ((a ≡ allowed) × Asks req addr)
wanted_if-named req addr allowed = ground (arith, wanted_iff req addr)
wanted_if-named req addr (refused code) = ground arith

wanted_of-named :
    (s : HttpServer) (o : Option Request) (addr : Text)
    → (wanted_of s o ≡ named addr ∷ [])
      ↔ ((req : Request) × (o ≡ some req) × IsLetThrough s req × Asks req addr)
wanted_of-named s none addr =
    (λ e. absurd (ground arith), λ (req, got, k, asks). absurd (ground arith))
wanted_of-named s (some req) addr =
    let asked = wanted_if-named req addr (authenticate s req.authorization) in
    let known = authenticate-IsLetThrough s req in
    (
      (λ e. (req, refl, known.0 (asked.0 e).0, (asked.0 e).1)),
      (λ (req', got, passes, asks).
          let same : req ≡ req' = ground arith in
          asked.1 (
            known.1 (subst (IsLetThrough s) (sym same) passes),
            subst (λ r. Asks r addr) (sym same) asks,
          )),
    )

wanted-one : (req : Request) → (wanted req ≡ []) ⊎ ((addr : Text) × (wanted req ≡ named addr ∷ []))
wanted-one req = elim (Bool-cases (text_eq req.method (codes "CONNECT"))) [
  | inl connect ↦ inr (dial_address req.host (codes "443"), ground arith)
  | inr other ↦ elim (Bool-cases (text_eq req.method (codes "GET"))) [
    | inl get ↦ inr (dial_address req.host (codes "80"), ground arith)
    | inr neither ↦ inl (ground arith)
  ]
]

wanted_of-one :
    (s : HttpServer) (o : Option Request)
    → (wanted_of s o ≡ []) ⊎ ((addr : Text) × (wanted_of s o ≡ named addr ∷ []))
wanted_of-one s none = inl refl
wanted_of-one s (some req) = one_if (authenticate s req.authorization)
  where
    one_if :
        (a : Answer)
        → (wanted_if req a ≡ []) ⊎ ((addr : Text) × (wanted_if req a ≡ named addr ∷ []))
    one_if allowed = wanted-one req
    one_if (refused code) = inl refl

-- Whatever the request and the answers of the calls, serving a connection dials nothing or one
-- address; it dials an address exactly where a request is read that is let through, with no
-- authentication required or with the configured credentials in its header, and asks for that
-- address: by CONNECT the host, with port 443 where the host has no colon, by GET the same with
-- port 80, by another method none.
pub serve-dials_iff :
    (s : HttpServer) (w : World)
    → ((dials (serve s w) ≡ []) ⊎ ((addr : Text) × (dials (serve s w) ≡ named addr ∷ [])))
      × ((addr : Text)
          → (dials (serve s w) ≡ named addr ∷ [])
            ↔ ((req : Request) × (w.request ≡ some req) × IsLetThrough s req × Asks req addr))
serve-dials_iff s w =
    rw (serve-dials s w) (wanted_of-one s w.request, λ addr. wanted_of-named s w.request addr)
