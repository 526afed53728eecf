-- ===== src/Keyshare.antt =====
-- tss_util/keyshare: the stores of the key shares, and the lock that each of them carries.
pub mod Ecdsa
pub mod Frost
pub mod Stored
pub mod Locking
