-- ===== src/Frost.antt =====
-- tss_util/tss/frost: the processes over multi-party-sig.
pub mod Parties
pub mod Messages
pub mod Signing
pub mod Keygen
pub mod Resharing
