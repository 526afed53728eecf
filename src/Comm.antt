-- ===== src/Comm.antt =====
-- tss_util/comm and tss_util/comm/p2p: subscriptions, streams and broadcasts.
pub mod SubscriptionId
pub mod Subscriptions
pub mod Framing
pub mod Streams
pub mod Libp2p
pub mod Health
pub mod Gate
