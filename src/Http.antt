-- ===== src/Http.antt =====
-- http.go and the credentials of routine.go: authentication and the destination of a request.
pub mod Authentic
pub mod Serve
use Prim.Native.Nat.{bit_and}
use wireproxy.Base.{
  ℕ, Bool, true, false, not, Option, none, some, List, [], ◌∷◌, ◌++◌, is_empty, ◌==◌, if◌then◌else◌,
}
use wireproxy.Text.Encoding.{base64_decode}
use wireproxy.Text.HostPort.{join_host_port}
use wireproxy.Text.Strings.{cut, trim_prefix, contains_byte}
use wireproxy.Text.Utf8.{utf8}
use wireproxy.Text.{Text, codes, text_eq}

pub record CredentialValidator : Type 0 where
  pub username : Text
  pub password : Text

-- `subtle.ConstantTimeCompare`: 1 for equal byte sequences, 0 for others
abbrev pub constant_time_compare : List ℕ → List ℕ → ℕ
constant_time_compare a b = if text_eq a b then 1 else 0

-- The two arguments are decoded bytes; the configured strings are compared by their bytes.
unfoldable pub valid : CredentialValidator → List ℕ → List ℕ → Bool
unfolding utf8
valid c username password =
    let u = constant_time_compare (utf8 c.username) username in
    let p = constant_time_compare (utf8 c.password) password in bit_and u p == 1

pub record HttpServer : Type 0 where
  pub auth : CredentialValidator
  pub auth_required : Bool
  pub tls_required : Bool

-- The fields that `SpawnRoutine` sets.
unfoldable pub http_server : Text → Text → Text → Text → HttpServer
http_server username password cert_file key_file = record {
  auth = record { username = username; password = password };
  auth_required = if not (is_empty username) then true else not (is_empty password);
  tls_required = if not (is_empty cert_file) then not (is_empty key_file) else false;
}

-- A nil error, or the status that is answered.
pub data Answer : Type 0 where
  allowed : Answer
  refused : ℕ → Answer

abbrev pub check_pair : CredentialValidator → Option (List ℕ × List ℕ) → Answer
check_pair auth none = refused 411
check_pair auth (some (username, password)) =
    if valid auth username password then allowed else refused 401

abbrev pub check_decoded : CredentialValidator → Option (List ℕ) → Answer
check_decoded auth none = refused 406
check_decoded auth (some str) = check_pair auth (cut str b':')

-- `header` is the request's `Proxy-Authorization`, empty where it is absent.
unfoldable pub authenticate : HttpServer → Text → Answer
unfolding valid cut base64_decode trim_prefix
authenticate s header =
    if not s.auth_required
    then allowed
    else if is_empty header
    then refused 407
    else check_decoded s.auth (base64_decode (trim_prefix header (codes "Basic ")))

-- The address that `handleConn` and `handle` dial, with their default ports 443 and 80.
unfoldable pub dial_address : Text → Text → Text
unfolding contains_byte join_host_port
dial_address host default_port =
    if not (contains_byte host b':') then join_host_port host default_port else host
