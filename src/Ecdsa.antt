-- ===== src/Ecdsa.antt =====
-- tss_util/tss/ecdsa.
pub mod Parties
pub mod Signing
pub mod Keygen
pub mod Resharing
pub mod Messages
pub mod Monitor
