-- ===== src/Crypto.antt =====
-- internal/crypto and cmd/tools/encryptkey: the encryption of keys in the configuration.
pub mod Hex
pub mod Base64
pub mod Aes
pub mod RoundTrip
