-- ===== src/Elector.antt =====
-- tss_util/comm/elector: the two ways to choose the coordinator of a session.
pub mod Static
pub mod Bully
