-- ===== src/Tests.antt =====
-- The theorems at concrete configurations, and runs of the code.
mod Samples
mod Parsing
mod Checking
mod Serving
mod Forwarding
mod Loading
mod Tunnelling
mod Proxying
mod Running
