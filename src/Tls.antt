-- ===== src/Tls.antt =====
-- The secure channel: driver/verimark-tls-crypto.c, driver/verimark-tls.c, driver/verimark-pairing.c.
pub mod Cert
pub mod Gcm
pub mod Prf
pub mod Crypto
pub mod Channel
pub mod Pairing
