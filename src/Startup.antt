-- ===== src/Startup.antt =====
-- cmd/apiserver/main.go: what the program starts with.
pub mod Settings
pub mod Wiring
pub mod Verified
pub mod Started
