-- ===== src/Http/Serve/Refused.antt =====
-- What a client is answered that is not let through.
use wireproxy.Base.{
  ℕ, ◌≡◌, ◌≢◌, ◌↔◌, refl, true, Option, none, some, List, [], ◌∷◌, inl, inr, Bool-cases,
  Option-cases, arith,
}
use wireproxy.Http.Authentic.{Carries, authenticate_iff}
use wireproxy.Http.Serve.{Request, World, response_with, challenge, serve}
use wireproxy.Text.Encoding.{base64_decode}
use wireproxy.Text.Strings.{cut, trim_prefix}
use wireproxy.Http.{check_decoded, valid, HttpServer, allowed, refused, authenticate}
use wireproxy.Text.{Text, codes}
use wireproxy.Traffic.{told, closed_client}

check_decoded_refused :
    (s : HttpServer) (decoded : Option (List ℕ))
    → check_decoded s.auth decoded ≢ allowed
    → (code : ℕ) × (check_decoded s.auth decoded ≡ refused code) × (code ≢ 407)
check_decoded_refused s none n = (406, refl, λ e. absurd (omega arith))
check_decoded_refused s (some str) n = elim (Option-cases (cut str b':')) [
  | inl whole ↦ (411, rw whole, λ e. absurd (omega arith))
  | inr ((u, p), parts) ↦ elim (Bool-cases (valid s.auth u p)) [
    | inl good ↦ absurd (n (ground arith))
    | inr bad ↦ (401, ground arith, λ e. absurd (omega arith))
  ]
]

authenticate_refused :
    (s : HttpServer) (header : Text)
    → s.auth_required ≡ true
    → authenticate s header ≢ allowed
    → (code : ℕ) × (authenticate s header ≡ refused code) × ((code ≡ 407) ↔ (header ≡ []))
unfolding authenticate
authenticate_refused s [] required n = (407, ground arith, (λ e. refl, λ e. refl))
authenticate_refused s (c ∷ h) required n =
    let (code, answer, other) =
      check_decoded_refused s (base64_decode (trim_prefix (c ∷ h) (codes "Basic ")))
        (λ e. n (ground arith)) in
    (code, ground arith, (λ e. absurd (other e), λ e. cc))

-- A server that requires authentication answers a request whose header does not carry the configured
-- credentials with one response and closes the connection; the status is 407, with a challenge,
-- exactly where the header is absent or empty.
pub serve_refused :
    (s : HttpServer) (w : World) (req : Request)
    → s.auth_required ≡ true
    → w.request ≡ some req
    → ¬ Carries req.authorization s.auth
    → (code : ℕ) × (serve s w ≡ told (response_with req code (challenge code)) ∷ closed_client ∷ [])
      × ((code ≡ 407) ↔ (req.authorization ≡ []))
unfolding serve
serve_refused s w req required got stranger =
    let (code, answer, status) =
      authenticate_refused s req.authorization required
        (λ e. stranger ((authenticate_iff s req.authorization required).0 e)) in
    (code, rw (got, serve) (rw answer), status)
