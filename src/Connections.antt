-- ===== src/Connections.antt =====
-- connections.go: connection names and the checks across connections.
pub mod Name
pub mod StateDir
pub mod Load
pub mod Validate
