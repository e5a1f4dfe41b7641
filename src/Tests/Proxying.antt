-- ===== src/Tests/Proxying.antt =====
-- The HTTP and SNI proxies: clients that are let through, and one that is not.
use wireproxy.Base.{◌⊎◌, ◌≡◌, ◌≢◌, ◌↔◌, refl, true, false, ℕ, some, [], ◌∷◌, arith}
use wireproxy.Http.Authentic.{Carries, authenticate_iff}
use wireproxy.Http.Serve.Asked.{IsLetThrough, Asks, serve-dials_iff}
use wireproxy.Http.Serve.Dialed.{serve-Carries}
use wireproxy.Http.Serve.Refused.{serve_refused}
use wireproxy.Http.Serve.Released.{serve-IsTidy}
use wireproxy.Http.Serve.{Request, World, serve, response_with, challenge}
use wireproxy.Http.{refused, authenticate, dial_address}
use wireproxy.Sni
use wireproxy.Sni.Forwarded.{forwarded_as, sni_serve-IsTidy}
use wireproxy.Sni.{sni_serve, target_of}
use wireproxy.Tests.Serving.{locked_server}
use wireproxy.Text.Strings.{has_prefix}
use wireproxy.Text.{Text, codes, text_eq}
use wireproxy.Traffic.{
  named, dialed, connected, told, closed_client, established, forwarding, IsTidy, dials,
}

abbrev request_with : Text → Request
request_with authorization = record {
  method = codes "CONNECT";
  host = codes "example.com:8443";
  authorization = authorization;
  proto = codes "HTTP/1.1";
}

abbrev world_of : Text → World
world_of authorization = record {
  request = some (request_with authorization);
  dials = λ addr. true;
  writes = true;
}

abbrev known : Text
known = codes "Basic bWU6cHc="

-- The user `me` with the password `pv`
abbrev stranger : Text
stranger = codes "Basic bWU6cHY="

known_served :
    serve locked_server (world_of known)
    ≡ dialed (named (codes "example.com:8443")) ∷ connected ∷ told established ∷ forwarding ∷ []
unfolding serve dial_address authenticate text_eq has_prefix
known_served = refl

serve-IsTidy_example : IsTidy (serve locked_server (world_of known))
serve-IsTidy_example = serve-IsTidy locked_server (world_of known)

serve-dials_iff_example :
    ((dials (serve locked_server (world_of known)) ≡ [])
      ⊎ ((addr : Text) × (dials (serve locked_server (world_of known)) ≡ named addr ∷ [])))
    × ((addr : Text)
        → (dials (serve locked_server (world_of known)) ≡ named addr ∷ []) ↔ (
            (req : Request) × ((world_of known).request ≡ some req)
            × IsLetThrough locked_server req
            × Asks req addr))
serve-dials_iff_example = serve-dials_iff locked_server (world_of known)

known_dials : dials (serve locked_server (world_of known)) ≢ []
known_dials e = ground (arith, known_served)

serve-Carries_example :
    (req : Request) × ((world_of known).request ≡ some req)
    × Carries req.authorization locked_server.auth
serve-Carries_example = serve-Carries locked_server (world_of known) refl known_dials

stranger_refused : authenticate locked_server stranger ≡ refused 401
unfolding authenticate text_eq has_prefix
stranger_refused = refl

not_carried : ¬ Carries stranger locked_server.auth
not_carried c = ground (arith, (authenticate_iff locked_server stranger refl).1 c, stranger_refused)

serve_refused_example :
    (code : ℕ) × (serve locked_server (world_of stranger)
      ≡ told (response_with (request_with stranger) code (challenge code)) ∷ closed_client ∷ [])
    × ((code ≡ 407) ↔ (stranger ≡ []))
serve_refused_example =
    serve_refused locked_server (world_of stranger) (request_with stranger) refl refl not_carried

abbrev client : Sni.World
client = record {
  sets_deadline = true;
  hello = some (codes "example.com");
  handshakes = false;
  clears_deadline = true;
  dials = λ addr. true;
}

sni_serve-IsTidy_example :
    IsTidy (sni_serve client) × (dials (sni_serve client) ≡ forwarded_as client)
sni_serve-IsTidy_example = sni_serve-IsTidy client

client_forwarded :
    sni_serve client
    ≡ dialed (named (target_of (codes "example.com"))) ∷ connected ∷ forwarding ∷ []
unfolding sni_serve
client_forwarded = refl
