-- ===== src/Config.antt =====
-- config.go and tailscale_config.go: from the sections of a configuration file to connections.
pub mod Types
pub mod Keys
pub mod Device
pub mod Routines
pub mod Groups
pub mod Connection
pub mod File
