-- ===== src/Tunnel.antt =====
-- routine.go: the addresses that a tunnel dials, what it does with an accepted connection, and the
-- records of the pings.
pub mod Address
pub mod Forward
pub mod Ping
pub mod Spawn
