-- ===== src/Http/Serve/Dialed.antt =====
-- What is dialed, and for whom.
use wireproxy.Base.{
  ◌≡◌, ◌≢◌, refl, ap, ◌∙◌, true, Option, none, some, List, [], ◌∷◌, inl, inr, Option-cases, arith,
  if◌then◌else◌,
}
use wireproxy.Http.Authentic.{Carries, authenticate_iff}
use wireproxy.Http.Serve.{Request, World, handle_conn, handle, serve_allowed, serve_answered, serve}
use wireproxy.Http.{HttpServer, Answer, allowed, refused, authenticate, dial_address}
use wireproxy.Text.{codes, text_eq}
use wireproxy.Traffic.{Dest, named, dials}

-- The address that a request asks for, by its method.
abbrev pub wanted : Request → List Dest
wanted req =
    if text_eq req.method (codes "CONNECT")
    then named (dial_address req.host (codes "443")) ∷ []
    else if text_eq req.method (codes "GET")
    then named (dial_address req.host (codes "80")) ∷ []
    else []

abbrev pub wanted_if : Request → Answer → List Dest
wanted_if req allowed = wanted req
wanted_if req (refused code) = []

abbrev pub wanted_of : HttpServer → Option Request → List Dest
wanted_of s none = []
wanted_of s (some req) = wanted_if req (authenticate s req.authorization)

serve_answered-dials :
    (w : World) (req : Request) (a : Answer) → dials (serve_answered w req a) ≡ wanted_if req a
unfolding serve_allowed handle_conn handle
serve_answered-dials w req (refused code) = refl
serve_answered-dials w req allowed = ground arith

-- What is dialed is what a request that is read and let through asks for.
pub serve-dials : (s : HttpServer) (w : World) → dials (serve s w) ≡ wanted_of s w.request
unfolding serve
serve-dials s w = elim (Option-cases w.request) [
  | inl unread ↦ rw unread
  | inr (req, got) ↦ rw got (serve_answered-dials w req (authenticate s req.authorization))
]

-- A server that requires authentication dials only for a request that it has read and whose header
-- carries the configured credentials.
pub serve-Carries :
    (s : HttpServer) (w : World)
    → s.auth_required ≡ true
    → dials (serve s w) ≢ []
    → (req : Request) × (w.request ≡ some req) × Carries req.authorization s.auth
serve-Carries s w required some_dial = elim (Option-cases w.request) [
  | inl unread ↦ absurd (some_dial (serve-dials s w ∙ ap (wanted_of s) unread))
  | inr (req, got) ↦ (
    req,
    got,
    (authenticate_iff s req.authorization required).0
        (let_through req got (authenticate s req.authorization) refl),
  )
]
  where
    let_through :
        (req : Request)
        → w.request ≡ some req
        → (a : Answer) → authenticate s req.authorization ≡ a
        → authenticate s req.authorization ≡ allowed
    let_through req got allowed e = e
    let_through req got (refused code) e =
        absurd (some_dial (serve-dials s w ∙ ap (wanted_of s) got ∙ ap (wanted_if req) e))
