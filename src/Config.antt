-- ===== src/Config.antt =====
-- tss_util/tss_config.
pub mod Relayer
pub mod Env
pub mod Chains
pub mod General
