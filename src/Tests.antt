-- ===== src/Tests.antt =====
-- The theorems at concrete inputs.
mod Vpn
mod Streams
mod Relay
mod Updates
mod Clients
mod Files
mod Service
mod Console
mod Terminal
