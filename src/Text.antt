-- ===== src/Text.antt =====
-- Go strings. `Text` is the sequence of a string's code points; a literal is `codes "..."`.
mod Defs
pub mod Strings
pub mod Numbers
pub mod HostPort
pub mod Encoding
pub mod Utf8
pub mod Paths
unfoldable pub use Defs.*
