-- ===== src/Http/Serve.antt =====
-- `serve`, `handleConn`, `handle` and `responseWith`: what becomes of an accepted connection.
pub mod Released
pub mod Dialed
pub mod Asked
pub mod Refused
use wireproxy.Base.{
  ℕ, Bool, true, false, not, Option, none, some, List, [], ◌∷◌, ◌++◌, ◌==◌, pos, if◌then◌else◌,
}
use wireproxy.Http.{HttpServer, Answer, allowed, refused, authenticate, dial_address}
use wireproxy.Text.Numbers.{itoa}
use wireproxy.Text.{Text, codes, text_eq}
use wireproxy.Traffic.{
  named, Message, established, response, Effect, dialed, connected, told, sent, closed_client,
  closed_peer, forwarding,
}

-- What the program reads of a request; `authorization` is its `Proxy-Authorization`, empty where it
-- is absent.
pub record Request : Type 0 where
  pub method : Text
  pub host : Text
  pub authorization : Text
  pub proto : Text

-- What the calls answer: the request that is read, if one is, whether the dial of an address gives
-- a connection, and whether the write that follows succeeds.
pub record World : Type 0 where
  pub request : Option Request
  pub dials : Text → Bool
  pub writes : Bool

-- `http.StatusText` at the codes that `serve` uses.
abbrev pub status_text : ℕ → Text
status_text code =
    if code == 401
    then codes "Unauthorized"
    else if code == 405
    then codes "Method Not Allowed"
    else if code == 406
    then codes "Not Acceptable"
    else if code == 407
    then codes "Proxy Authentication Required"
    else if code == 411
    then codes "Length Required"
    else []

unfoldable pub response_with : Request → ℕ → List (Text × Text) → Message
unfolding itoa
response_with req code headers = response code (status_text code) req.proto headers (
    codes "wireproxy: "
    ++ req.proto
    ++ codes " "
    ++ itoa (pos code)
    ++ codes " "
    ++ status_text code
    ++ codes "\r\n")

-- The effects of a handler, and whether it returns a peer and no error.
abbrev pub Handled : Type 0
Handled = List Effect × Bool

unfoldable pub handle_conn : World → Request → Handled
unfolding dial_address
handle_conn w req =
    let addr = dial_address req.host (codes "443") in
    if w.dials addr
    then if w.writes
      then (dialed (named addr) ∷ connected ∷ told established ∷ [], true)
      else (dialed (named addr) ∷ connected ∷ told established ∷ closed_peer ∷ [], false)
    else (dialed (named addr) ∷ [], false)

unfoldable pub handle : World → Request → Handled
unfolding dial_address
handle w req =
    let addr = dial_address req.host (codes "80") in
    if w.dials addr
    then if w.writes
      then (dialed (named addr) ∷ connected ∷ sent ∷ [], true)
      else (dialed (named addr) ∷ connected ∷ sent ∷ closed_peer ∷ [], false)
    else (dialed (named addr) ∷ [], false)

abbrev pub finish : Handled → List Effect
finish (effects, true) = effects ++ forwarding ∷ []
finish (effects, false) = effects ++ closed_client ∷ []

abbrev pub challenge : ℕ → List (Text × Text)
challenge code =
    if code == 407 then (codes "Proxy-Authenticate", codes "Basic realm=\"Proxy\"") ∷ [] else []

-- The switch over the method.
unfoldable pub serve_allowed : World → Request → List Effect
unfolding handle_conn handle response_with
serve_allowed w req =
    if text_eq req.method (codes "CONNECT")
    then finish (handle_conn w req)
    else if text_eq req.method (codes "GET")
    then finish (handle w req)
    else told (response_with req 405 []) ∷ closed_client ∷ []

abbrev pub serve_answered : World → Request → Answer → List Effect
serve_answered w req (refused code) =
    told (response_with req code (challenge code)) ∷ closed_client ∷ []
serve_answered w req allowed = serve_allowed w req

unfoldable pub serve : HttpServer → World → List Effect
unfolding serve_allowed authenticate
serve s w = elim w.request [
  | none ↦ closed_client ∷ []
  | some req ↦ serve_answered w req (authenticate s req.authorization)
]
