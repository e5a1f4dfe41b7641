-- ===== src/Tests/Samples.antt =====
-- A host, key material and sections to run the code on.
use wireproxy.Base.{true, false, Option, none, some, List, [], ◌∷◌, map, ok, err, if◌then◌else◌}
use wireproxy.Host.{Host, Section, File, Key, Addr, ascii_lower}
use wireproxy.Text.Numbers.{atoi}
use wireproxy.Text.{Text, codes, text_eq}

abbrev pub key_of : Text → Key
key_of value = record {
  string = value;
  int = elim (atoi value) [ none ↦ err (codes "invalid syntax") | some n ↦ ok n ];
  bool = if text_eq value (codes "true") then ok true else ok false;
  values = value ∷ [];
}

abbrev find_key : Text → List (Text × Text) → Option Key
find_key name [] = none
find_key name ((k, v) ∷ pairs) =
    let rest = find_key name pairs in if text_eq k name then some (key_of v) else rest

abbrev key_or_empty : Option Key → Key
key_or_empty none = key_of []
key_or_empty (some k) = k

-- A section as the library hands it out: names are in lower case and keys are found in any case.
abbrev pub section_of : Text → List (Text × Text) → Section
section_of name pairs = record {
  name = name;
  key = λ k. some (key_or_empty (find_key (map ascii_lower k) pairs));
  get_key = λ k. find_key (map ascii_lower k) pairs;
}

-- 32 zero bytes
abbrev pub key_text : Text
key_text = codes "AAAAAAAAAAAAAAAAAAAAAAAAAAAAAAAAAAAAAAAAAAA="

abbrev pub v4 : Text → Addr
v4 s = record { is_4 = true; is_6 = false; string = s }

abbrev pub interface : Section
interface = section_of (codes "interface") (
    (codes "privatekey", key_text)
    ∷ (codes "address", codes "10.0.0.2")
    ∷ (codes "checkalive", codes "10.0.0.1")
    ∷ (codes "checkaliveinterval", codes "30")
    ∷ [])

abbrev pub peer : Section
peer =
    section_of (codes "peer")
      ((codes "publickey", key_text) ∷ (codes "endpoint", codes "192.0.2.1:51820") ∷ [])

abbrev pub socks : Section
socks = section_of (codes "socks5") ((codes "bindaddress", codes "127.0.0.1:1080") ∷ [])

abbrev pub vpn_http : Section
vpn_http = section_of (codes "vpn two.http") ((codes "bindaddress", codes "127.0.0.1:8080") ∷ [])

abbrev pub default_section : Section
default_section = section_of (codes "default") []

abbrev pub sections : List Section
sections = default_section ∷ interface ∷ socks ∷ vpn_http ∷ peer ∷ []

abbrev pub file : File
file = record { default = default_section; sections = sections; by_name = λ name. ok [] }

abbrev pub host : Host
host = record {
  lower = ascii_lower;
  lookup_env = λ name. none;
  user_cache_dir = ok (codes "/cache");
  temp_dir = codes "/tmp";
  read_file = λ path. ok [];
  load_source = λ source. ok file;
  load_path = λ path. ok file;
  parse_addr = λ s. ok (v4 s);
  parse_prefix = λ s. ok (record { addr = v4 s; string = s });
  resolve_tcp_addr = λ s. ok (record { port = 80; string = s });
  resolve_ip_addr = λ s. ok s;
  compile = λ s. ok (record { matches = λ t. text_eq s t });
  is_abs = λ s. true;
  dir = λ s. s;
  base = λ s. s;
  ext = λ s. codes ".conf";
  join = λ parts. codes "/state";
}
