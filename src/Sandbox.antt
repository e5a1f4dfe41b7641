-- ===== src/Sandbox.antt =====
-- cmd/wireproxy/main.go: the rules of the network sandbox and the files that stay readable.
pub mod Granted
pub mod Stages
use wireproxy.Base.{
  ℕ, ◌%◌, ◌^◌, Bool, true, false, not, ◌||◌, Option, none, some, List, [], ◌∷◌, ◌++◌, Outcome, ok,
  err, ◌>>=◌, ◌>>◌, ensure, ℤ, pos, negsuc, pos_part, ltb_ℤ, is_empty, if◌then◌else◌,
}
use wireproxy.Config.Types.{
  ConnectionSpec, Routine, tcp_client, stdio, tcp_server, socks5, http, sni, udp_proxy, HttpConfig,
}
use wireproxy.Connections.StateDir.{needs_open_egress}
use wireproxy.Text.HostPort.{split_host_port, join_host_port}
use wireproxy.Text.Numbers.{atoi}
use wireproxy.Text.{Text, codes}

-- `landlock.BindTCP` and `landlock.ConnectTCP`
pub data Rule : Type 0 where
  bind_tcp connect_tcp : ℕ → Rule

pub data LockError : Type 0 where
  no_port bad_port : Text → LockError
  bad_target : Text → Text → LockError
  in_connection : Text → LockError → LockError

-- `int` to `uint16`; the value is not negative where the source converts.
abbrev pub to_uint16 : ℤ → ℕ
to_uint16 n = pos_part n % 2 ^ 16

abbrev pub port_of_text : Text → Option ℤ → Outcome LockError ℕ
port_of_text addr none = err (bad_port addr)
port_of_text addr (some port) = do
  ensure (not (ltb_ℤ port (pos 0) || ltb_ℤ (pos 65535) port)) (bad_port addr)
  ok (to_uint16 port)

unfoldable pub extract_port : Text → Outcome LockError ℕ
unfolding atoi split_host_port
extract_port addr = elim (split_host_port addr) [
  | none ↦ err (no_port addr)
  | some (host, port) ↦ port_of_text addr (atoi port)
]

abbrev wrap {ℓ} : {A : Type ℓ} → Text → Outcome LockError A → Outcome LockError A
wrap name (ok a) = ok a
wrap name (err e) = err (in_connection name e)

abbrev bind_rule : Text → Text → List Rule → Outcome LockError (List Rule)
bind_rule name addr rules = do
  port ← wrap name (extract_port addr)
  ok (rules ++ bind_tcp port ∷ [])

-- One round of the inner loop of `lockNetwork`.
unfoldable pub add_rule : Text → Routine → List Rule → Outcome LockError (List Rule)
unfolding extract_port join_host_port split_host_port
add_rule name (tcp_server c) rules = elim (split_host_port c.target) [
  | none ↦ err (bad_target name c.target)
  | some (host, port_str) ↦ do
    port ← wrap name (extract_port (join_host_port host port_str))
    ok (rules ++ connect_tcp port ∷ [])
]
add_rule name (http c) rules = bind_rule name c.bind_address rules
add_rule name (tcp_client c) rules = ok (rules ++ bind_tcp (c.bind_address.port % 2 ^ 16) ∷ [])
add_rule name (socks5 c) rules = bind_rule name c.bind_address rules
add_rule name (sni c) rules = bind_rule name c.bind_address rules
add_rule name (udp_proxy c) rules = ok rules
add_rule name (stdio c) rules = ok rules

unfoldable pub add_rules : Text → List Routine → List Rule → Outcome LockError (List Rule)
unfolding add_rule
add_rules name [] rules = ok rules
add_rules name (r ∷ rs) rules = do more ← add_rule name r rules; add_rules name rs more

unfoldable pub add_spec_rules : List ConnectionSpec → List Rule → Outcome LockError (List Rule)
unfolding add_rules
add_spec_rules [] rules = ok rules
add_spec_rules (spec ∷ specs) rules = do
  more ← add_rules spec.name spec.conf.routines rules
  add_spec_rules specs more

unfoldable pub info_rules : Text → Outcome LockError (List Rule)
unfolding extract_port
info_rules info_addr =
    if is_empty info_addr then ok [] else do port ← extract_port info_addr; ok (bind_tcp port ∷ [])

-- `lockNetwork`, up to the call that applies the rules; `none` where the restriction is skipped.
unfoldable pub lock_network : List ConnectionSpec → Text → Outcome LockError (Option (List Rule))
unfolding add_spec_rules info_rules needs_open_egress
lock_network specs info_addr =
    if needs_open_egress specs
    then ok none
    else do rules ← info_rules info_addr; all ← add_spec_rules specs rules; ok (some all)

abbrev path_unless_empty : Text → List Text
path_unless_empty path = if not (is_empty path) then path ∷ [] else []

unfoldable pub tls_routine_paths : List Routine → List Text → List Text
tls_routine_paths [] paths = paths
tls_routine_paths (http c ∷ rs) paths =
    tls_routine_paths rs (paths ++ (path_unless_empty c.cert_file ++ path_unless_empty c.key_file))
tls_routine_paths (r ∷ rs) paths = tls_routine_paths rs paths

unfoldable pub tls_file_paths : List ConnectionSpec → List Text → List Text
unfolding tls_routine_paths
tls_file_paths [] paths = paths
tls_file_paths (spec ∷ specs) paths =
    tls_file_paths specs (tls_routine_paths spec.conf.routines paths)
