-- ===== src/Http/Authentic.antt =====
-- Who is let through.
use wireproxy.Base.{
  ℕ, List, ◌≡◌, ◌≢◌, ◌↔◌, refl, ap, ◌∙◌, true, false, Option, none, some, [], ◌∷◌, ◌++◌, inl, inr,
  Option-cases, arith,
}
use wireproxy.Http.{
  CredentialValidator, valid, HttpServer, allowed, check_pair, check_decoded, authenticate,
}
use wireproxy.Text.Encoding.{base64_decode}
use wireproxy.Text.Strings.Cut.{cut-append, cut-eq-some}
use wireproxy.Text.Strings.{cut, trim_prefix, contains_byte}
use wireproxy.Text.Utf8.{utf8}
use wireproxy.Text.{Text, codes, text_eq_iff}

pub valid_iff :
    (c : CredentialValidator) (username password : List ℕ)
    → (valid c username password ≡ true)
      ↔ ((username ≡ utf8 c.username) × (password ≡ utf8 c.password))
unfolding valid
valid_iff c username password =
    ground (arith, text_eq_iff (utf8 c.username) username, text_eq_iff (utf8 c.password) password)

-- The header carries the configured credentials: it is not empty, and behind an optional `Basic `
-- it decodes to the bytes of the user name, a colon and the bytes of the password. The bytes of the
-- user name hold no colon.
pub record Carries (header : Text) (c : CredentialValidator) : Type 0 where
  pub present : header ≢ []
  pub decoded :
      base64_decode (trim_prefix header (codes "Basic "))
      ≡ some (utf8 c.username ++ b':' ∷ utf8 c.password)
  pub no_colon : contains_byte (utf8 c.username) b':' ≡ false

check_pair-allowed :
    (c : CredentialValidator) (parts : Option (List ℕ × List ℕ))
    → check_pair c parts ≡ allowed
    → parts ≡ some (utf8 c.username, utf8 c.password)
check_pair-allowed c none h = absurd (ground arith)
check_pair-allowed c (some (u, p)) h = ground (arith, valid_iff c u p)

allowed-Carries :
    (c : CredentialValidator) (header : Text)
    → header ≢ []
    → check_decoded c (base64_decode (trim_prefix header (codes "Basic "))) ≡ allowed
    → Carries header c
allowed-Carries c header present h =
    elim (Option-cases (base64_decode (trim_prefix header (codes "Basic ")))) [
      | inl bad ↦ absurd (ground arith)
      | inr (str, good) ↦
          let parts = check_pair-allowed c (cut str b':') (rw good at h) in
          let (whole, clean) = cut-eq-some str b':' (utf8 c.username) (utf8 c.password) parts in
          record { present = present; decoded = good ∙ ap some whole; no_colon = clean }
    ]

Carries-allowed :
    (c : CredentialValidator) (header : Text)
    → Carries header c
    → check_decoded c (base64_decode (trim_prefix header (codes "Basic "))) ≡ allowed
Carries-allowed c header k =
    rw (k.decoded, cut-append (utf8 c.username) b':' (utf8 c.password) k.no_colon)
      (rw ((valid_iff c (utf8 c.username) (utf8 c.password)).1 (refl, refl)))

-- A server that requires authentication allows a request exactly where its header is not empty and
-- decodes, behind an optional prefix, to the UTF-8 bytes of the configured user name, a colon and
-- those of the configured password, the user name's bytes holding no colon.
pub authenticate_iff :
    (s : HttpServer) (header : Text)
    → s.auth_required ≡ true
    → (authenticate s header ≡ allowed) ↔ Carries header s.auth
unfolding authenticate
authenticate_iff s header required = (to header, from header)
  where
    to : (h : Text) → authenticate s h ≡ allowed → Carries h s.auth
    to [] e = absurd (ground arith)
    to (c ∷ h) e = allowed-Carries s.auth (c ∷ h) (λ none. cc none) (ground arith)

    from : (h : Text) → Carries h s.auth → authenticate s h ≡ allowed
    from [] k = absurd (k.present refl)
    from (c ∷ h) k = rw required (Carries-allowed s.auth (c ∷ h) k)
