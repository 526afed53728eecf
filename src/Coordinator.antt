-- ===== src/Coordinator.antt =====
-- tss_util/tss/coordinator.go: the life of a threshold process on one node. Each loop over a
-- `select` is a recursion over the events that the select takes, in their order.
pub mod Effects
pub mod Initiate
pub mod Await
pub mod Start
pub mod Execute
pub mod Calls
