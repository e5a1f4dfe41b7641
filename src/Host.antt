-- ===== src/Host.antt =====
-- What the program calls outside its own code: the operating system, name resolution, the
-- platform's paths, the ini library and the parsers of addresses and regular expressions.
-- Each is a parameter; a value holds what the program reads of it.
use wireproxy.Base.{ℕ, ◌<◌, ◌+◌, ◌≡◌, Bool, List, Option, some, Outcome, ℤ, within, if◌then◌else◌}
use wireproxy.Text.{Text}

-- `ini.Key`: `String()`, `Int()`, `Bool()`, `ValueWithShadows()`
pub record Key : Type 0 where
  pub string : Text
  pub int : Outcome Text ℤ
  pub bool : Outcome Text Bool
  pub values : List Text

-- `ini.Section`: `key` is `Key(name)`, with `none` for nil, and `get_key` is `GetKey(name)`, with
-- `none` for an error.
pub record Section : Type 0 where
  pub name : Text
  pub key : Text → Option Key
  pub get_key : Text → Option Key

-- `ini.File`: `Section(DEFAULT)`, `Sections()` and `SectionsByName(name)`
pub record File : Type 0 where
  pub default : Section
  pub sections : List Section
  pub by_name : Text → Outcome Text (List Section)

-- `netip.Addr` and `netip.Prefix`
pub record Addr : Type 0 where
  pub is_4 : Bool
  pub is_6 : Bool
  pub string : Text

pub record Prefix : Type 0 where
  pub addr : Addr
  pub string : Text

-- `net.TCPAddr`: its port and `String()`
pub record TcpAddr : Type 0 where
  pub port : ℕ
  pub string : Text

-- `regexp.Regexp`: what `MatchString` answers
pub record Regexp : Type 0 where
  pub matches : Text → Bool

pub record Host : Type 0 where
  -- `unicode.ToLower`
  pub lower : ℕ → ℕ
  -- `os.LookupEnv`, `os.UserCacheDir`, `os.TempDir`, `os.ReadFile`
  pub lookup_env : Text → Option Text
  pub user_cache_dir : Outcome Text Text
  pub temp_dir : Text
  pub read_file : Text → Outcome Text Text
  -- `ini.LoadSources(wgIniOptions, …)` at the bytes of a file, and at a path
  pub load_source : Text → Outcome Text File
  pub load_path : Text → Outcome Text File
  -- `netip.ParseAddr`, `netip.ParsePrefix`, `net.ResolveTCPAddr`, `net.ResolveIPAddr`
  pub parse_addr : Text → Outcome Text Addr
  pub parse_prefix : Text → Outcome Text Prefix
  pub resolve_tcp_addr : Text → Outcome Text TcpAddr
  pub resolve_ip_addr : Text → Outcome Text Text
  -- `regexp.Compile`
  pub compile : Text → Outcome Text Regexp
  -- `filepath.IsAbs`, `Dir`, `Base`, `Ext`, `Join`
  pub is_abs : Text → Bool
  pub dir : Text → Text
  pub base : Text → Text
  pub ext : Text → Text
  pub join : List Text → Text

-- `unicode.ToLower` below 128
abbrev pub ascii_lower : ℕ → ℕ
ascii_lower c = if within b'A' b'Z' c then c + 32 else c

-- What is documented of `unicode.ToLower` on ASCII.
abbrev pub LowersAscii : (ℕ → ℕ) → Type 0
LowersAscii lower = (c : ℕ) → c < 128 → lower c ≡ ascii_lower c

-- `Section.Key` is documented never to return nil: it adds an empty key where there is none.
abbrev pub KeepsKeys : Section → Type 0
KeepsKeys section = (name : Text) → (key : Key) × (section.key name ≡ some key)
