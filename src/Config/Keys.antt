-- ===== src/Config/Keys.antt =====
-- The readers of single keys in config.go. An error is its message.
use wireproxy.Base.{
  Bool, false, not, ◌||◌, Option, none, some, List, [], ◌∷◌, ◌++◌, map, Outcome, ok, err, ◌>>=◌,
  ◌>>◌, ensure, ℤ, pos, ltb_ℤ, length, is_empty, ◌==◌, if◌then◌else◌,
}
use wireproxy.Host.{Host, Section, Addr, Prefix, TcpAddr, Regexp}
use wireproxy.Text.Encoding.{base64_decode, hex_encode}
use wireproxy.Text.HostPort.{split_host_port, join_host_port}
use wireproxy.Text.Strings.{has_prefix, trim_prefix, contains, replace_first, split, trim_space}
use wireproxy.Text.{Text, codes}

unfoldable pub parse_port : Section → Text → Outcome Text ℤ
parse_port section key_name = elim (section.key key_name) [
  | none ↦ err (key_name ++ codes " should not be empty")
  | some key ↦ do
    port ← key.int
    ensure (not (ltb_ℤ port (pos 0) || not (ltb_ℤ port (pos 65536))))
        (codes "port should be >= 0 and < 65536")
    ok port
]

unfoldable pub encode_base64_to_hex : Text → Outcome Text Text
encode_base64_to_hex key = elim (base64_decode key) [
  | none ↦ err (codes "invalid base64 key material")
  | some decoded ↦ do
    ensure (length decoded == 32) (codes "key should be 32 bytes")
    ok (hex_encode decoded)
]

module _ (host : Host) where
  abbrev pub to_lower : Text → Text
  to_lower = map host.lower

  -- The value behind `key.String()`: `$$` escapes a dollar, `$NAME` reads the environment.
  interpolate : Text → Text → Outcome Text Text
  interpolate key_name value =
      if has_prefix value (codes "$")
      then if has_prefix value (codes "$$")
        then ok (replace_first value (codes "$$") (codes "$"))
        else elim (host.lookup_env (trim_prefix value (codes "$"))) [
          | some found ↦ ok found
          | none ↦ err (key_name ++ codes " references unset environment variable " ++ value)
        ]
      else ok value

  unfoldable pub parse_string : Section → Text → Outcome Text Text
  unfolding interpolate
  parse_string section key_name = elim (section.key (to_lower key_name)) [
    | none ↦ err (key_name ++ codes " should not be empty")
    | some key ↦ interpolate key_name key.string
  ]

  unfoldable pub parse_tcp_addr : Section → Text → Outcome Text TcpAddr
  parse_tcp_addr section key_name = do
    addr ← parse_string section key_name
    host.resolve_tcp_addr addr

  unfoldable pub parse_base64_key_to_hex : Section → Text → Outcome Text Text
  parse_base64_key_to_hex section key_name = do
    key ← parse_string section key_name
    encode_base64_to_hex key

  -- The loop over the comma-separated parts: each is trimmed, and an empty one is skipped.
  parse_each {ℓ} : {A : Type ℓ} → (Text → Outcome Text A) → List Text → Outcome Text (List A)
  parse_each parse [] = ok []
  parse_each parse (raw ∷ rest) =
      let later = parse_each parse rest in
      if is_empty (trim_space raw)
      then later
      else do a ← parse (trim_space raw); as' ← later; ok (a ∷ as')

  -- A key that is missing, by its message, gives the empty list.
  abbrev parse_list {ℓ} :
      {A : Type ℓ} → (Text → Outcome Text A) → Outcome Text Text → Outcome Text (List A)
  parse_list parse (ok value) = parse_each parse (split value b',')
  parse_list parse (err e) = if contains e (codes "should not be empty") then ok [] else err e

  unfoldable pub parse_net_ip : Section → Text → Outcome Text (List Addr)
  unfolding parse_each
  parse_net_ip section key_name = parse_list host.parse_addr (parse_string section key_name)

  -- An address, or a prefix, of which the address is taken.
  cidr_addr : Text → Outcome Text Addr
  cidr_addr str = elim (host.parse_addr str) [
    | ok addr ↦ ok addr
    | err _ ↦ do prefix ← host.parse_prefix str; ok prefix.addr
  ]

  unfoldable pub parse_cidr_net_ip : Section → Text → Outcome Text (List Addr)
  unfolding parse_each cidr_addr
  parse_cidr_net_ip section key_name = parse_list cidr_addr (parse_string section key_name)

  unfoldable pub parse_allowed_ips : Section → Outcome Text (List Prefix)
  unfolding parse_each
  parse_allowed_ips section =
      parse_list host.parse_prefix (parse_string section (codes "AllowedIPs"))

  unfoldable pub resolve_ip_and_port : Text → Outcome Text Text
  resolve_ip_and_port addr = elim (split_host_port addr) [
    | none ↦ err (codes "invalid address " ++ addr)
    | some (name, port) ↦ do ip ← host.resolve_ip_addr name; ok (join_host_port ip port)
  ]

  compile_each : Text → List Text → Outcome Text (List Regexp)
  compile_each key_name [] = ok []
  compile_each key_name (raw ∷ rest) =
      let later = compile_each key_name rest in
      if is_empty (trim_space raw) then later else elim (host.compile (trim_space raw)) [
        | ok re ↦ do res ← later; ok (re ∷ res)
        | err e ↦
            err (
              codes "invalid "
              ++ key_name
              ++ codes " regex `"
              ++ trim_space raw
              ++ codes "`: "
              ++ e)
      ]

  unfoldable pub parse_regex_list : Section → Text → Outcome Text (List Regexp)
  unfolding compile_each
  parse_regex_list section key_name = elim (section.get_key key_name) [
    | none ↦ ok []
    | some key ↦ compile_each key_name key.values
  ]

unfoldable pub parse_bool_key : Section → Text → Outcome Text Bool
parse_bool_key section key_name = elim (section.get_key key_name) [
  | none ↦ ok false
  | some key ↦ key.bool
]

-- An optional integer key, with the value that stands where it is absent.
unfoldable pub int_key_or : Section → Text → ℤ → Outcome Text ℤ
int_key_or section key_name default = elim (section.get_key key_name) [
  | none ↦ ok default
  | some key ↦ key.int
]

-- The same for a pointer field.
unfoldable pub int_key_pointer : Section → Text → Option ℤ → Outcome Text (Option ℤ)
int_key_pointer section key_name default = elim (section.get_key key_name) [
  | none ↦ ok default
  | some key ↦ do value ← key.int; ok (some value)
]
